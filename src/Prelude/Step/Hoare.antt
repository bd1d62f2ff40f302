-- ===== src/Prelude/Step/Hoare.antt =====
-- What a method does, told of its result: from a state with `P`, success leaves `Q` and an error
-- leaves `X`.
use native.Mathlib.Omega.{arith}
use mathlib.Core.Path.{◌≡◌, refl, subst}
use mathlib.Core.Bool.{Bool, true, false}
use minidox.Prelude.Tests.{if◌then◌else◌}
use minidox.Prelude.Outcome.{Result, ok, err}
use minidox.Prelude.Step.{Step, pure, fail, lift, gets, modify, continue, ◌>>=◌, guard}

module _ {T E : Type 0} where
  abbrev pub Post : {A : Type 0} → (A → T → Type 0) → (T → Type 0) → Result E A × T → Type 0
  Post Q X (ok a, t) = Q a t
  Post Q X (err e, t) = X t

  pub record Hoare {A : Type 0} (P : T → Type 0) (m : Step T E A) (Q : A → T → Type 0)
      (X : T → Type 0) : Type 0 where
    pub run : (t : T) → P t → Post Q X (m t)

  module _ {P X : T → Type 0} where
    pub and_then :
        {A B : Type 0} {m : Step T E A} {f : A → Step T E B} {Q : A → T → Type 0}
        {R : B → T → Type 0}
        → Hoare P m Q X
        → ((a : A) → Hoare (Q a) (f a) R X)
        → Hoare P (m >>= f) R X
    unfolding ◌>>=◌
    and_then {A} {B} {m} {f} {Q} {R} h k = record { run = λ t p. next (m t) (h.run t p) }
      where
        next : (r : Result E A × T) → Post Q X r → Post R X (continue r f)
        next (ok a, t) q = (k a).run t q
        next (err e, t) x = x

    pub pure_lem :
        {A : Type 0} (a : A) {Q : A → T → Type 0} → ((t : T) → P t → Q a t) → Hoare P (pure a) Q X
    unfolding pure
    pure_lem a h = record { run = h }

    pub fail_lem :
        {A : Type 0} (e : E) {Q : A → T → Type 0}
        → ((t : T) → P t → X t)
        → Hoare P (fail {A = A} e) Q X
    unfolding fail
    fail_lem e h = record { run = h }

    pub modify_lem :
        (f : T → T) {Q : T → Type 0} → ((t : T) → P t → Q (f t)) → Hoare P (modify f) (λ _. Q) X
    unfolding modify
    modify_lem f h = record { run = h }

    pub gets_lem :
        {A : Type 0} (f : T → A) {Q : A → T → Type 0}
        → ((t : T) → P t → Q (f t) t)
        → Hoare P (gets f) Q X
    unfolding gets
    gets_lem f h = record { run = h }

    pub guard_lem :
        (b : Bool) (e : E) {Q : T → Type 0}
        → ((t : T) → b ≡ true → P t → X t)
        → ((t : T) → b ≡ false → P t → Q t)
        → Hoare P (guard b e) (λ _. Q) X
    unfolding guard
    guard_lem true e h k = record { run = λ t p. h t refl p }
    guard_lem false e h k = record { run = λ t p. k t refl p }

    pub lift_lem :
        {A : Type 0} (r : Result E A) {Q : A → T → Type 0}
        → ((t : T) (a : A) → r ≡ ok a → P t → Q a t)
        → ((t : T) → P t → X t)
        → Hoare P (lift r) Q X
    unfolding lift
    lift_lem (ok a) h k = record { run = λ t p. h t a refl p }
    lift_lem (err e) h k = record { run = λ t p. k t p }

  -- A fact that does not depend on the state may be carried along.
  pub framed :
      {A F : Type 0} {P X : T → Type 0} {m : Step T E A} {Q : A → T → Type 0}
      → Hoare P m Q X
      → Hoare (λ t. P t × F) m (λ a t. Q a t × F) X
  framed {A} {F} {P} {X} {m} {Q} h = record { run = λ t p. carry (m t) (h.run t p.0) p.1 }
    where
      carry : (r : Result E A × T) → Post Q X r → F → Post (λ a t. Q a t × F) X r
      carry (ok a, t) q f = (q, f)
      carry (err e, t) x f = x

  pub weaken :
      {A : Type 0} {P X Y : T → Type 0} {m : Step T E A} {Q R : A → T → Type 0}
      → Hoare P m Q X
      → ((a : A) (t : T) → Q a t → R a t)
      → ((t : T) → X t → Y t)
      → Hoare P m R Y
  weaken {A} {P} {X} {Y} {m} {Q} {R} h k l = record { run = λ t p. by_result (m t) (h.run t p) }
    where
      by_result : (r : Result E A × T) → Post Q X r → Post R Y r
      by_result (ok a, t) q = k a t q
      by_result (err e, t) x = l t x

  pub strengthen :
      {A : Type 0} {P R X : T → Type 0} {m : Step T E A} {Q : A → T → Type 0}
      → Hoare P m Q X
      → ((t : T) → R t → P t)
      → Hoare R m Q X
  strengthen h k = record { run = λ t r. h.run t (k t r) }

  -- Two rules for one method.
  pub both :
      {A : Type 0} {P R X Y : T → Type 0} {Q V : A → T → Type 0} {m : Step T E A}
      → Hoare P m Q X
      → Hoare R m V Y
      → Hoare (λ t. P t × R t) m (λ a t. Q a t × V a t) X
  both {A} {P} {R} {X} {Y} {Q} {V} {m} h k = record {
    run = λ t p. by_result (m t) (h.run t p.0) (k.run t p.1);
  }
    where
      by_result : (r : Result E A × T) → Post Q X r → Post V Y r → Post (λ a t. Q a t × V a t) X r
      by_result (ok a, t) q v = (q, v)
      by_result (err e, t) x y = x

  pub elim_lem :
      {A : Type 0} {P X : T → Type 0} {Q : A → T → Type 0} {m n : Step T E A} (b : Bool)
      → Hoare P m Q X
      → Hoare P n Q X
      → Hoare P (elim b [ false ↦ m | true ↦ n ]) Q X
  elim_lem false h k = h
  elim_lem true h k = k

  pub ite_lem :
      {A : Type 0} {P X : T → Type 0} {Q : A → T → Type 0} {m n : Step T E A} (b : Bool)
      → Hoare P m Q X
      → Hoare P n Q X
      → Hoare P (if b then m else n) Q X
  ite_lem true h k = h
  ite_lem false h k = k

  -- What success leaves.
  pub ok_leaves :
      {A : Type 0} {P X : T → Type 0} {Q : A → T → Type 0} {m : Step T E A}
      → Hoare P m Q X
      → (t : T) (a : A) → P t
      → (m t).0 ≡ ok a
      → Q a (m t).1
  ok_leaves {A} {P} {X} {Q} {m} h t a p e = by_result (m t) (h.run t p) e
    where
      by_result : (r : Result E A × T) → Post Q X r → r.0 ≡ ok a → Q a r.1
      by_result (ok b, u) q e =
          let same_value : b ≡ a = ground arith in subst (λ x. Q x u) same_value q
      by_result (err x, u) q e = absurd (ground arith)
