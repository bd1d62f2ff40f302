-- ===== src/Prelude/Step.antt =====
-- Methods on `&mut self`: functions from a state to a result and the new state, which an error
-- keeps too.
pub mod Hoare
use mathlib.Core.Bool.{Bool, true, false}
use minidox.Prelude.Outcome.{Result, ok, err}

abbrev pub Step : Type 0 → Type 0 → Type 0 → Type 0
Step T E A = T → Result E A × T

module _ {T E : Type 0} where
  unfoldable pub pure : {A : Type 0} → A → Step T E A
  pure a t = (ok a, t)

  unfoldable pub fail : {A : Type 0} → E → Step T E A
  fail e t = (err e, t)

  unfoldable pub lift : {A : Type 0} → Result E A → Step T E A
  lift r t = (r, t)

  -- What the state holds.
  unfoldable pub gets : {A : Type 0} → (T → A) → Step T E A
  gets f t = (ok (f t), t)

  unfoldable pub modify : (T → T) → Step T E (Unit {0})
  modify f t = (ok tt, f t)

  abbrev pub continue : {A B : Type 0} → Result E A × T → (A → Step T E B) → Result E B × T
  continue (ok a, t) f = f a t
  continue (err e, t) f = (err e, t)

  -- `m?` followed by the rest of the method.
  infixl 5 ◌>>=◌
  unfoldable pub ◌>>=◌ : {A B : Type 0} → Step T E A → (A → Step T E B) → Step T E B
  (m >>= f) t = continue (m t) f

  infixl 5 ◌>>◌
  abbrev pub ◌>>◌ : {A B : Type 0} → Step T E A → Step T E B → Step T E B
  m >> n = m >>= (λ _. n)

  -- `if test { return Err(e) }`
  unfoldable pub guard : Bool → E → Step T E (Unit {0})
  unfolding pure fail
  guard true e = fail e
  guard false e = pure tt

-- A method whose error is looked at later.
unfoldable pub attempt : {T E F A : Type 0} → Step T E A → Step T F (Result E A)
attempt m t = let (r, t') = m t in (ok r, t')
