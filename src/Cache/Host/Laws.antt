-- ===== src/Cache/Host/Laws.antt =====
-- What file operations do to the pages of the host.
use minidox.Prelude.{
  ℕ, ◌≡◌, ◌≢◌, refl, Option, none, some, List, [], ◌∷◌, ok, err, next_id, replicate, arith,
}
use minidox.Prelude.Order.{nat_ord}
use minidox.Prelude.Map.{get, get-insert}
use minidox.Prelude.Step.Hoare.{Hoare, Post, and_then, pure_lem, modify_lem, gets_lem, lift_lem}
use minidox.Io.{IoError}
use minidox.Cache.{page_size}
use minidox.Cache.Host.{
  Host, system_call, bytes_of, written_at, read_exact_at, from_bytes, duplicate,
}

-- The pages are as before.
pub record SamePages (before h : Host) : Type 0 where
  pub next : h.next_page_id ≡ before.next_page_id
  pub bytes : (page : ℕ) → bytes_of page h ≡ bytes_of page before

-- There is one page more, under the next identity.
pub record NewPage (before : Host) (page : ℕ) (h : Host) : Type 0 where
  pub named : page ≡ before.next_page_id
  pub next : h.next_page_id ≡ next_id before.next_page_id
  pub bytes : (p : ℕ) → p ≢ page → bytes_of p h ≡ bytes_of p before

pub SamePages-refl : (before h : Host) → h ≡ before → SamePages before h
SamePages-refl before h e = rw e (record { next = refl; bytes = λ page. refl })

module _ {before : Host} where
  system_call-SamePages :
      Hoare (SamePages before) system_call (λ _. SamePages before) (SamePages before)
  unfolding system_call
  system_call-SamePages = record { run = λ h p. by_faults h p h.faults }
    where
      by_faults :
          (h : Host)
          → SamePages before h
          → (faults : List (Option IoError))
          → Post {E = IoError} {A = Unit {0}}
              (λ _. SamePages before)
              (SamePages before)
              (elim faults [
                | [] ↦ (ok tt, h)
                | none ∷ faults ↦ (ok tt, record h { faults = faults })
                | some e ∷ faults ↦ (err e, record h { faults = faults })
              ])
      by_faults h p [] = p
      by_faults h p (none ∷ faults) = record { next = p.next; bytes = p.bytes }
      by_faults h p (some e ∷ faults) = record { next = p.next; bytes = p.bytes }

  read_exact_at-SamePages :
      (page offset count : ℕ)
      → Hoare
          (SamePages before)
          (read_exact_at page offset count)
          (λ _. SamePages before)
          (SamePages before)
  unfolding read_exact_at
  read_exact_at-SamePages page offset count = and_then system_call-SamePages λ _.
      and_then (gets_lem _ {Q = λ _. SamePages before} λ h p. p)
        λ bytes. lift_lem _ (λ h a e p. p) (λ h p. p)

  pub from_bytes-NewPage :
      (bytes : List ℕ)
      → Hoare (SamePages before) (from_bytes bytes) (NewPage before) (SamePages before)
  unfolding from_bytes get
  from_bytes-NewPage bytes = and_then system_call-SamePages λ _. and_then system_call-SamePages λ _.
      and_then system_call-SamePages λ _.
        and_then
          (gets_lem _ {Q = λ page h. SamePages before h × (page ≡ before.next_page_id)}
            λ h p. (p, p.next))
          λ page.
            and_then
              (modify_lem _ {Q = NewPage before page} λ h p. record {
                named = p.1;
                next = rw p.0.next refl;
                bytes = λ q other. ground (
                  arith,
                  get-insert page q (written_at (replicate page_size 0) 0 bytes) h.contents,
                  p.0.bytes q,
                );
              })
              λ _. pure_lem _ λ h p. p

  pub duplicate-NewPage :
      (page : ℕ) → Hoare (SamePages before) (duplicate page) (NewPage before) (SamePages before)
  unfolding duplicate
  duplicate-NewPage page =
      and_then (read_exact_at-SamePages page 0 page_size) λ bytes. from_bytes-NewPage bytes
