-- ===== src/Vmm/Ram/Children.antt =====
-- `materialize`: a memory whose pages are saved in files that others may map, and its child.
use minidox.Prelude.{
  ℕ, zero, suc, ◌≤◌, ◌<◌, ◌≡◌, refl, ◌∙◌, ap, sym, subst, true, none, some, List, [], ◌∷◌, Result,
  ok, err, length, get_elem?, arith,
}
use minidox.Prelude.Order.{nat_ord, pair_ord}
use minidox.Prelude.Map.{get}
use minidox.Prelude.Step.{gets, ◌>>=◌}
use minidox.Prelude.Step.Hoare.{Hoare, Post, and_then}
use minidox.Vmm.{Error}
use minidox.Vmm.Ram.{RamHost, KvmGuestRam, Ram, file_page, page_bytes}
use minidox.Vmm.Ram.Mapping.{range, map_all_pages}
use minidox.Vmm.Ram.Fork.{
  RamForkBranch, reserved, on_memory, from_pages, seal, branch_of, materialize,
}
use minidox.Vmm.Ram.Runs.{Any, among, Remapped, map_list-Remapped, system_call_lem}
use minidox.Vmm.Ram.Seal.{IsValid, Saved, page_bytes_lem}
use minidox.Vmm.Ram.Replaced.{among-range, start-Remapped}

pub get_elem?-none : {A : Type 0} (xs : List A) (i : ℕ) → length xs ≤ i → get_elem? xs i ≡ none
get_elem?-none [] i e = refl
get_elem?-none (x ∷ xs) zero e = absurd (omega arith)
get_elem?-none (x ∷ xs) (suc i) e = get_elem?-none xs i (omega arith)

pub get_elem?-some :
    {A : Type 0} (xs : List A) (i : ℕ) → i < length xs → (x : A) × (get_elem? xs i ≡ some x)
get_elem?-some [] i e = absurd (omega arith)
get_elem?-some (x ∷ xs) zero e = (x, refl)
get_elem?-some (x ∷ xs) (suc i) e = get_elem?-some xs i (omega arith)

-- What a memory reads that maps what the files hold.
pub Saved-reads :
    (r : KvmGuestRam) (h : RamHost) (m : Ram) (index : ℕ)
    → Saved r h m
    → index < length r.pages
    → page_bytes m.0 m.1 index ≡ page_bytes r h index
Saved-reads r h m index p below =
    let (page, e) = get_elem?-some m.0.pages index (ground (arith, p.same_length)) in
    page_bytes_lem m.0 m.1 index page (p.maps index) e
    ∙ ground (arith, p.bare index, p.stored index page e)

pub Saved-IsValid :
    (r : KvmGuestRam) (h : RamHost) (m : Ram) → Saved r h m → m.0.sealed ≡ true → IsValid m.0 m.1
Saved-IsValid r h m p e = record {
  backed = p.maps;
  private_map = p.kept_private;
  old = p.taken;
  apart = λ f. absurd (ground arith);
}

pub map_all-Remapped :
    (r' : KvmGuestRam) (h' : RamHost)
    → Post
        (λ _. Remapped r' h' (λ index. among index (range (length r'.pages) 0)))
        Any
        (map_all_pages true (r', h'))
unfolding map_all_pages gets ◌>>=◌
map_all-Remapped r' h' =
    (map_list-Remapped r' h' (range (length r'.pages) 0)).run (r', h') (start-Remapped r' h')

module _ (r : KvmGuestRam) (h : RamHost) where
  pub record Sealed (m : Ram) : Type 0 where
    pub saved : Saved r h m
    pub is_sealed : m.0.sealed ≡ true

  pub record Forked (child : KvmGuestRam) (m : Ram) : Type 0 where
    pub source : Sealed m
    pub copied : Sealed (child, m.1)

  Saved-host :
      (m : Ram) (h' : RamHost)
      → h'.files ≡ m.1.files
      → h'.next_generation_id ≡ m.1.next_generation_id
      → Saved r h m
      → Saved r h (m.0, h')
  Saved-host m h' same_files same_generation p = record {
    stored = λ i page e.
        ap (λ files. file_page (record h' { files = files }) page.generation page.offset) same_files
        ∙ p.stored i page e;
    maps = p.maps;
    bare = p.bare;
    taken = λ i page e. ground (arith, p.taken i page e, same_generation);
    kept_private = p.kept_private;
    same_length = p.same_length;
  }

  pub Saved-seal : (m : Ram) → Saved r h m → Sealed (seal m.0, m.1)
  Saved-seal m p = record {
    saved = record {
      stored = p.stored;
      maps = p.maps;
      bare = p.bare;
      taken = p.taken;
      kept_private = p.kept_private;
      same_length = p.same_length;
    };
    is_sealed = refl;
  }

  Sealed-host :
      (m : Ram) (h' : RamHost)
      → h'.files ≡ m.1.files
      → h'.next_generation_id ≡ m.1.next_generation_id
      → Sealed m
      → Sealed (m.0, h')
  Sealed-host m h' e f p = record { saved = Saved-host m h' e f p.saved; is_sealed = p.is_sealed }

  -- The child of a memory whose pages are saved.
  child-Forked :
      (m : Ram) (child : KvmGuestRam) (h' : RamHost)
      → Sealed m
      → Remapped
          (reserved m.0.len m.0.pages true)
          m.1
          (λ index. among index (range (length m.0.pages) 0))
          (child, h')
      → Forked child (m.0, h')
  unfolding get
  child-Forked m child h' p q =
      let pages = λ (i : ℕ). ap (λ xs. get_elem? xs i) q.same_pages in
      let moved = Sealed-host m h' q.same_files q.same_generation p in
      record {
        source = moved;
        copied = record {
          saved = record {
            stored = λ i page e. moved.saved.stored i page (sym (pages i) ∙ e);
            maps = λ i. ground (
              arith,
              q.shown i,
              among-range (length m.0.pages) 0 i,
              pages i,
              get_elem?-none m.0.pages i,
            );
            bare = λ i. ground (arith, q.bare i);
            taken = λ i page e. moved.saved.taken i page (sym (pages i) ∙ e);
            kept_private = q.same_private;
            same_length = ap length q.same_pages ∙ p.saved.same_length;
          };
          is_sealed = q.same_sealed;
        };
      }

  pub materialize-Forked :
      (branch : RamForkBranch)
      → Hoare (λ m. Sealed m × (branch ≡ branch_of m.0)) (materialize branch) Forked Any
  unfolding materialize from_pages on_memory ◌>>=◌
  materialize-Forked branch =
      and_then
        (system_call_lem {P = λ m. Sealed m × (branch ≡ branch_of m.0)}
          λ m faults p. (Sealed-host m (record m.1 { faults = faults }) refl refl p.0, p.1))
        λ _. record {
          run = λ m p.
              subst
                (λ b.
                  Post Forked Any (on_memory (reserved b.len b.pages true) (map_all_pages true) m))
                (sym p.1)
                (by_outcome m p.0 (map_all_pages true (reserved m.0.len m.0.pages true, m.1))
                  (map_all-Remapped (reserved m.0.len m.0.pages true) m.1));
        }
    where
      by_outcome :
          (m : Ram)
          → Sealed m
          → (outcome : Result Error (Unit {0}) × Ram)
          → Post
              (λ _.
                Remapped
                  (reserved m.0.len m.0.pages true)
                  m.1
                  (λ index. among index (range (length m.0.pages) 0)))
              Any
              outcome
          → Post Forked Any
              (elim outcome.0 [ ok u ↦ ok outcome.1.0 | err error ↦ err error ], (m.0, outcome.1.1))
      by_outcome m p (ok u, n) q = child-Forked m n.0 n.1 p q
      by_outcome m p (err e, n) q = tt
