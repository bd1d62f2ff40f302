-- ===== src/Vmm/Ram/Runs.antt =====
-- The runs of `map_selected_pages` and `map_all_pages`: together they map each selected page as its
-- entry says, and no other.
use minidox.Prelude.{
  ℕ, zero, suc, ◌+◌, ◌*◌, ◌-◌, ◌≤◌, ◌≡◌, refl, ◌∙◌, Bool, true, false, ◌&&◌, ◌||◌, Option, none,
  some, List, [], ◌∷◌, ok_or, if◌then◌else◌, ◌==◌, ltb, leb, get_elem?, arith,
}
use minidox.Prelude.Order.{nat_ord}
use minidox.Prelude.Map
use minidox.Prelude.Map.{Map, Set, get, keys, contains_key, get-insert, get-remove}
use minidox.Prelude.Step.{◌>>◌}
use minidox.Prelude.Step.Hoare.{Hoare, Post, and_then, pure_lem, modify_lem, weaken}
use minidox.Vmm.{Error, panicked}
use minidox.Vmm.Ram.{RamPage, Backing, RamHost, KvmGuestRam, Ram, ram_page_size, system_call}
use minidox.Vmm.Ram.Fork.{copy_calls}
use minidox.Vmm.Ram.Mapping.{map_pages, map_run, page_at, continues, map_open, map_list}

abbrev pub Any : Ram → Type 0
Any m = Unit {0}

-- What an entry of `pages` says that the page maps.
abbrev pub backing_of : Option RamPage → Option Backing
backing_of none = none
backing_of (some page) =
    some (record { generation = page.generation; offset = page.offset; is_private = true })

abbrev pub in_run : (index start end : ℕ) → Bool
in_run index start end = leb start index && ltb index end

abbrev pub among : ℕ → List ℕ → Bool
among index [] = false
among index (other ∷ others) = index == other || among index others

map_pages_lem :
    (count start generation offset index : ℕ) (r : KvmGuestRam)
    → let r' = map_pages count start generation offset true r in
      (get index r'.mapped ≡ (
        if in_run index start (start + count)
        then some (record {
          generation = generation;
          offset = offset + (index - start) * ram_page_size;
          is_private = true;
        })
        else get index r.mapped))
      × (get index r'.copies
          ≡ (if in_run index start (start + count) then none else get index r.copies))
      × (r'.pages ≡ r.pages)
      × (r'.sealed ≡ r.sealed)
      × (r'.is_private ≡ r.is_private)
      × (r'.len ≡ r.len)
unfolding map_pages
map_pages_lem zero start generation offset index r = ground arith
map_pages_lem (suc count) start generation offset index r =
    let entry : Backing = record { generation = generation; offset = offset; is_private = true } in
    let r1 : KvmGuestRam = record r {
      mapped = Map.insert start entry r.mapped;
      copies = Map.remove start r.copies;
    } in
    let q = map_pages_lem count (start + 1) generation (offset + ram_page_size) index r1 in
    (
      ground (arith, q.0, get-insert start index entry r.mapped),
      ground (arith, q.1, get-remove start index r.copies),
      q.2,
      q.3,
      q.4,
      q.5,
    )

abbrev pub nowhere : ℕ → Bool
nowhere index = false

-- The memory is `r` and its files are those of `h`, but for the pages of `done`, which map what their
-- entries say and have no copies.
pub record Remapped (r : KvmGuestRam) (h : RamHost) (done : ℕ → Bool) (m : Ram) : Type 0 where
  pub shown :
      (index : ℕ)
      → get index m.0.mapped
        ≡ (if done index then backing_of (get_elem? r.pages index) else get index r.mapped)
  pub bare : (index : ℕ) → get index m.0.copies ≡ (if done index then none else get index r.copies)
  pub same_pages : m.0.pages ≡ r.pages
  pub same_sealed : m.0.sealed ≡ r.sealed
  pub same_private : m.0.is_private ≡ r.is_private
  pub same_len : m.0.len ≡ r.len
  pub same_files : m.1.files ≡ h.files
  pub same_generation : m.1.next_generation_id ≡ h.next_generation_id

-- The pages from `start` to `end` lie in one file, one after the other.
record Run (r : KvmGuestRam) (start end generation offset : ℕ) : Type 0 where
  ordered : start ≤ end
  entries :
      (index : ℕ)
      → in_run index start end ≡ true
      → backing_of (get_elem? r.pages index)
        ≡ some (record {
          generation = generation;
          offset = offset + (index - start) * ram_page_size;
          is_private = true;
        })

pub system_call_lem :
    {R : Type 0} {P : R × RamHost → Type 0}
    → ((m : R × RamHost) (faults : List (Option ℕ)) → P m → P (m.0, record m.1 { faults = faults }))
    → Hoare {E = Error} P system_call (λ _. P) (λ _. Unit {0})
unfolding system_call
system_call_lem {R} {P} keep = record { run = λ m p. by_faults m.0 m.1 p m.1.faults }
  where
    by_faults :
        (r : R) (h : RamHost)
        → P (r, h)
        → (faults : List (Option ℕ))
        → Post (λ _. P) (λ _. Unit {0}) (system_call (r, record h { faults = faults }))
    by_faults r h p [] = keep (r, h) [] p
    by_faults r h p (none ∷ faults) = keep (r, h) faults p
    by_faults r h p (some written ∷ faults) = tt

-- The loop over the calls that copy a page, likewise.
pub copy_calls_lem :
    {P : Ram → Type 0} (index generation offset : ℕ)
    → ((m : Ram) (faults : List (Option ℕ)) → P m → P (m.0, record m.1 { faults = faults }))
    → Hoare {E = Error} P (copy_calls index generation offset) (λ _. P) Any
unfolding copy_calls
copy_calls_lem {P} index generation offset keep = record {
  run = λ m p. by_faults m.0 m.1 p m.1.faults;
}
  where
    by_faults :
        (r : KvmGuestRam) (h : RamHost)
        → P (r, h)
        → (faults : List (Option ℕ))
        → Post (λ _. P) Any (copy_calls index generation offset (r, record h { faults = faults }))
    by_faults r h p [] = keep (r, h) [] p
    by_faults r h p (none ∷ faults) = keep (r, h) faults p
    by_faults r h p (some written ∷ faults) = tt

pub page_at_lem :
    {P : Ram → Type 0} (index : ℕ)
    → Hoare P (page_at index) (λ page m. P m × (get_elem? m.0.pages index ≡ some page)) Any
unfolding page_at
page_at_lem {P} index = record { run = λ m p. by_page m p (get_elem? m.0.pages index) refl }
  where
    by_page :
        (m : Ram)
        → P m
        → (page : Option RamPage) → get_elem? m.0.pages index ≡ page
        → Post
            (λ page m. P m × (get_elem? m.0.pages index ≡ some page))
            Any
            (ok_or page panicked, m)
    by_page m p none e = tt
    by_page m p (some page) e = (p, e)

module _ (r : KvmGuestRam) (h : RamHost) where
  Remapped-ext :
      (done all : ℕ → Bool) (m : Ram)
      → ((index : ℕ) → done index ≡ all index)
      → Remapped r h done m
      → Remapped r h all m
  Remapped-ext done all m e p = record {
    shown = λ index. ground (arith, p.shown index, e index);
    bare = λ index. ground (arith, p.bare index, e index);
    same_pages = p.same_pages;
    same_sealed = p.same_sealed;
    same_private = p.same_private;
    same_len = p.same_len;
    same_files = p.same_files;
    same_generation = p.same_generation;
  }

  map_run-Remapped :
      (done : ℕ → Bool) (start end generation offset : ℕ)
      → Run r start end generation offset
      → Hoare
          (Remapped r h done)
          (map_run start (end - start) generation offset true)
          (λ _. Remapped r h (λ index. done index || in_run index start end))
          Any
  unfolding map_run
  map_run-Remapped done start end generation offset run =
      and_then
        (system_call_lem {P = Remapped r h done} λ m faults p. record {
          shown = p.shown;
          bare = p.bare;
          same_pages = p.same_pages;
          same_sealed = p.same_sealed;
          same_private = p.same_private;
          same_len = p.same_len;
          same_files = p.same_files;
          same_generation = p.same_generation;
        })
        λ _. modify_lem _ λ m p.
          let e : start + (end - start) ≡ end = omega (arith, run.ordered) in
          let q = λ (index : ℕ). map_pages_lem (end - start) start generation offset index m.0 in
          record {
            shown = λ index. ground (arith, (q index).0, e, run.entries index, p.shown index);
            bare = λ index. ground (arith, (q index).1, e, p.bare index);
            same_pages = (q 0).2 ∙ p.same_pages;
            same_sealed = (q 0).3 ∙ p.same_sealed;
            same_private = (q 0).4 ∙ p.same_private;
            same_len = (q 0).5 ∙ p.same_len;
            same_files = p.same_files;
            same_generation = p.same_generation;
          }

  one_page :
      (index : ℕ) (page : RamPage)
      → get_elem? r.pages index ≡ some page
      → Run r index (index + 1) page.generation page.offset
  one_page index page e = record { ordered = omega arith; entries = λ at here. ground arith }

  longer :
      (start end generation offset : ℕ) (page : RamPage)
      → Run r start end generation offset
      → get_elem? r.pages end ≡ some page
      → page.generation ≡ generation
      → page.offset ≡ offset + (end - start) * ram_page_size
      → Run r start (end + 1) generation offset
  longer start end generation offset page run e g o = record {
    ordered = omega (arith, run.ordered);
    entries = λ at here. ground (arith, run.entries at);
  }

  map_open-Remapped :
      (selected : List ℕ) (done : ℕ → Bool) (start end generation offset : ℕ)
      → Run r start end generation offset
      → Hoare
          (Remapped r h done)
          (map_open selected start end generation offset true)
          (λ _.
            Remapped r h (λ index. done index || (in_run index start end || among index selected)))
          Any
  unfolding map_open
  map_open-Remapped [] done start end generation offset run =
      weaken (map_run-Remapped done start end generation offset run)
        (λ _ m p. Remapped-ext _ _ m (λ index. ground arith) p) (λ m p. tt)
  map_open-Remapped (index ∷ selected) done start end generation offset run =
      and_then (page_at_lem index) λ page.
        by_run page (continues index start end generation offset page) refl
          (map_open-Remapped selected)
    where
      by_run :
          (page : RamPage) (b : Bool)
          → continues index start end generation offset page ≡ b
          → ((done : ℕ → Bool) (start end generation offset : ℕ)
              → Run r start end generation offset
              → Hoare
                  (Remapped r h done)
                  (map_open selected start end generation offset true)
                  (λ _. Remapped r h (λ at. done at || (in_run at start end || among at selected)))
                  Any)
          → Hoare
              (λ m. Remapped r h done m × (get_elem? m.0.pages index ≡ some page))
              (elim b [
                | true ↦ map_open selected start (end + 1) generation offset true
                | false ↦
                    map_run start (end - start) generation offset true
                    >> map_open selected index (index + 1) page.generation page.offset true
              ])
              (λ _.
                Remapped r h
                  (λ at. done at || (in_run at start end || among at (index ∷ selected))))
              Any
      by_run page true e rest = record {
        run = λ m p.
            let here : index ≡ end = ground arith in
            let at_end : get_elem? r.pages end ≡ some page = cc (p.0.same_pages, p.1, here) in
            (weaken
                (rest done start (end + 1) generation offset (
                  longer start end generation offset page run at_end (ground arith) (ground arith)))
                (λ _ n q. Remapped-ext _ _ n (λ at. ground (arith, run.ordered)) q) (λ n q. tt)).run
              m p.0;
      }
      by_run page false e rest = record {
        run = λ m p.
            let here : get_elem? r.pages index ≡ some page = cc (p.0.same_pages, p.1) in
            (and_then (map_run-Remapped done start end generation offset run) λ _.
                weaken
                  (rest (λ at. done at || in_run at start end) index (index + 1) page.generation
                    page.offset (one_page index page here))
                  (λ _ n q. Remapped-ext _ _ n (λ at. ground arith) q) (λ n q. tt)).run
              m p.0;
      }

  pub map_list-Remapped :
      (selected : List ℕ)
      → Hoare
          (Remapped r h nowhere)
          (map_list selected true)
          (λ _. Remapped r h (λ index. among index selected))
          Any
  unfolding map_list
  map_list-Remapped [] = pure_lem _ λ m p. Remapped-ext _ _ m (λ index. refl) p
  map_list-Remapped (start ∷ selected) = and_then (page_at_lem start) λ page. record {
    run = λ m p.
        let here : get_elem? r.pages start ≡ some page = cc (p.0.same_pages, p.1) in
        (weaken
            (map_open-Remapped selected nowhere start (start + 1) page.generation page.offset
              (one_page start page here))
            (λ _ n q. Remapped-ext _ _ n (λ at. ground arith) q) (λ n q. tt)).run
          m p.0;
  }
