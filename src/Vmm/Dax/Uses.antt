-- ===== src/Vmm/Dax/Uses.antt =====
-- How often a DAX window maps a page, and what holds of it between two operations.
use minidox.Prelude.{
  ℕ, ◌+◌, ◌<◌, ◌≡◌, refl, ◌∙◌, List, ok, Bool, true, false, ◌&&◌, Option, none, some, [], ◌∷◌,
  if◌then◌else◌, ◌==◌, arith, u64_mod,
}
use minidox.Prelude.Order.{nat_ord}
use minidox.Prelude.Map.{Map, get, insert, remove, get-insert, get-remove}
use minidox.Prelude.Map.Sorted.{IsSorted, Above, insert-IsSorted, remove-IsSorted}
use minidox.Cache.State.{State}
use minidox.Cache.Mapping.{DaxPageMapping, unmap}
use minidox.Cache.Balance.{active-unmap}
use minidox.Io.{IoError}
use minidox.Cache.Active.{active, Same}
use minidox.Vmm.Dax.{Machine, put_fs}
use minidox.Vmm.Dax.Mapping.{deactivate, set_active}

-- The number of offsets that map a page.
unfoldable pub uses : (page : ℕ) → Map ℕ DaxPageMapping → ℕ
uses page [] = 0
uses page ((offset, mapping) ∷ m) = (if page == mapping.page then 1 else 0) + uses page m

pub uses-insert :
    (page offset : ℕ) (mapping : DaxPageMapping) (m : Map ℕ DaxPageMapping)
    → get offset m ≡ none
    → uses page (insert offset mapping m) ≡ uses page m + (if page == mapping.page then 1 else 0)
unfolding uses insert get
uses-insert page offset mapping [] free = ground arith
uses-insert page offset mapping ((k, v) ∷ m) free =
    ground (arith, uses-insert page offset mapping m)

remove-Above : (k : ℕ) (m : Map ℕ DaxPageMapping) → Above k m → remove k m ≡ m
unfolding remove
remove-Above k [] a = refl
remove-Above k ((j, w) ∷ m) a = ground (arith, remove-Above k m)

pub uses-remove :
    (page offset : ℕ) (mapping : DaxPageMapping) (m : Map ℕ DaxPageMapping)
    → IsSorted m
    → get offset m ≡ some mapping
    → uses page (remove offset m) + (if page == mapping.page then 1 else 0) ≡ uses page m
unfolding uses remove get
uses-remove page offset mapping [] s e = absurd (ground arith)
uses-remove page offset mapping ((k, v) ∷ m) s e =
    ground (arith, uses-remove page offset mapping m, remove-Above k m)

abbrev pub page_of : Option DaxPageMapping → Option ℕ
page_of none = none
page_of (some mapping) = some mapping.page

abbrev pub is_some {ℓ} : {A : Type ℓ} → Option A → Bool
is_some none = false
is_some (some a) = true

-- One more mapping of a page of the branch than `base`.
abbrev pub more : (branch : ℕ) → (ℕ → ℕ → ℕ) → DaxPageMapping → ℕ → ℕ → ℕ
more branch base mapping at page =
    base at page + (if at == branch && page == mapping.page then 1 else 0)

module _ {S W I : Type 0} (branch : ℕ) where
  -- The cache counts the mappings of the window, next to `base` mappings that are not of it; the
  -- window shows the pages that are mapped; and nothing is mapped without a window.
  pub record Valid (base : ℕ → ℕ → ℕ) (m : Machine S W I) : Type 0 where
    pub of_branch : m.fs.branch ≡ branch
    pub counts :
        (at page : ℕ)
        → active at page m.cache
          ≡ base at page + (if at == branch then uses page m.fs.active else 0)
    pub own :
        (offset : ℕ) (mapping : DaxPageMapping)
        → get offset m.fs.active ≡ some mapping
        → (mapping.cache_id ≡ m.cache.id) × (mapping.branch ≡ branch)
    pub shows : (offset : ℕ) → get offset m.shown ≡ page_of (get offset m.fs.active)
    pub attached :
        (offset : ℕ) (mapping : DaxPageMapping)
        → get offset m.fs.active ≡ some mapping
        → is_some m.fs.window ≡ true
    pub sorted : IsSorted m.fs.active

  -- The counts of the branch can be raised so many times without a wrap.
  abbrev pub HasRoom : (mappings : ℕ) → Machine S W I → Type 0
  HasRoom mappings m = (page : ℕ) → active branch page m.cache + mappings < u64_mod

  -- The cache has made a mapping that the window does not hold at its offset.
  pub record Holding (base : ℕ → ℕ → ℕ) (offset : ℕ) (mapping : DaxPageMapping) (m : Machine S W I)
      : Type 0 where
    pub rest : Valid (more branch base mapping) m
    pub of_cache : mapping.cache_id ≡ m.cache.id
    pub of_mapping : mapping.branch ≡ branch
    pub free : get offset m.fs.active ≡ none
    pub there : is_some m.fs.window ≡ true

  -- A mapping has been taken out of `active`, and the window shows its page still.
  pub record Taken (base : ℕ → ℕ → ℕ) (offset : ℕ) (mapping : DaxPageMapping) (m : Machine S W I)
      : Type 0 where
    pub back : Valid base (put_fs (set_active offset mapping) m)
    pub free : get offset m.fs.active ≡ none
    pub ordered : IsSorted m.fs.active

  module _ {base : ℕ → ℕ → ℕ} where
    -- The cache has changed in ways that leave the counts.
    pub Valid-Same :
        (m : Machine S W I) (cache : State S W I)
        → Same m.cache cache
        → Valid base m
        → Valid base (record m { cache = cache })
    Valid-Same m cache q p = record {
      of_branch = p.of_branch;
      counts = λ at page. q.counts at page ∙ p.counts at page;
      own = λ offset mapping e.
          let r = p.own offset mapping e in (ground (arith, q.same_cache, r.0), r.1);
      shows = p.shows;
      attached = p.attached;
      sorted = p.sorted;
    }

    pub deactivate-Taken :
        (offset : ℕ) (mapping : DaxPageMapping) (m : Machine S W I)
        → get offset m.fs.active ≡ some mapping
        → Valid base m
        → Taken base offset mapping (put_fs (deactivate offset) m)
    deactivate-Taken offset mapping m e p =
        let free : get offset (remove offset m.fs.active) ≡ none =
          ground (arith, get-remove offset offset m.fs.active) in
        let same_map : (at : ℕ)
            → get at (insert offset mapping (remove offset m.fs.active)) ≡ get at m.fs.active =
          λ at. ground (
            arith,
            get-insert offset at mapping (remove offset m.fs.active),
            get-remove offset at m.fs.active,
          ) in
        record {
          back = record {
            of_branch = p.of_branch;
            counts = λ at page. ground (
              arith,
              p.counts at page,
              uses-insert page offset mapping (remove offset m.fs.active) free,
              uses-remove page offset mapping m.fs.active p.sorted e,
            );
            own = λ at found h. p.own at found (ground (arith, same_map at));
            shows = λ at. p.shows at ∙ ground (arith, same_map at);
            attached = λ at found h. p.attached at found (ground (arith, same_map at));
            sorted =
                insert-IsSorted offset mapping (remove offset m.fs.active)
                  (remove-IsSorted offset m.fs.active p.sorted);
          };
          free = free;
          ordered = remove-IsSorted offset m.fs.active p.sorted;
        }

    -- The window has let the page go.
    pub Taken-Holding :
        (offset : ℕ) (mapping : DaxPageMapping) (m : Machine S W I) (faults : List (Option IoError))
        → Taken base offset mapping m
        → Holding base offset mapping (record m { shown = remove offset m.shown; faults = faults })
    Taken-Holding offset mapping m faults p =
        let found : get offset (insert offset mapping m.fs.active) ≡ some mapping =
          ground (arith, get-insert offset offset mapping m.fs.active) in
        let other = λ (at : ℕ). get-insert offset at mapping m.fs.active in
        record {
          rest = record {
            of_branch = p.back.of_branch;
            counts = λ at page.
                ground (
                  arith,
                  p.back.counts at page,
                  uses-insert page offset mapping m.fs.active p.free,
                );
            own = λ at one e. p.back.own at one (ground (arith, other at, p.free));
            shows = λ at.
                ground (arith, get-remove offset at m.shown, p.back.shows at, other at, p.free);
            attached = λ at one e. p.back.attached at one (ground (arith, other at, p.free));
            sorted = p.ordered;
          };
          of_cache = (p.back.own offset mapping found).0;
          of_mapping = (p.back.own offset mapping found).1;
          free = p.free;
          there = p.back.attached offset mapping found;
        }

    -- The window shows the page.
    pub Holding-Valid :
        (offset : ℕ) (mapping : DaxPageMapping) (m : Machine S W I) (faults : List (Option IoError))
        → Holding base offset mapping m
        → Valid base (
            put_fs
              (set_active offset mapping)
              (record m { shown = insert offset mapping.page m.shown; faults = faults }))
    Holding-Valid offset mapping m faults p =
        let other = λ (at : ℕ). get-insert offset at mapping m.fs.active in
        record {
          of_branch = p.rest.of_branch;
          counts = λ at page.
              ground
                (arith, p.rest.counts at page, uses-insert page offset mapping m.fs.active p.free);
          own = λ at one e. ground (arith, other at, p.rest.own at one, p.of_cache, p.of_mapping);
          shows = λ at.
              ground (arith, get-insert offset at mapping.page m.shown, p.rest.shows at, other at);
          attached = λ at one e. p.there;
          sorted = insert-IsSorted offset mapping m.fs.active p.rest.sorted;
        }

    -- The cache has taken the mapping back.
    pub Holding-unmap :
        (offset : ℕ) (mapping : DaxPageMapping) (m : Machine S W I)
        → Holding base offset mapping m
        → ((unmap branch mapping m.cache).0 ≡ ok tt)
          × Valid base (record m { cache = (unmap branch mapping m.cache).1 })
    Holding-unmap offset mapping m p =
        let counted : 0 < active branch mapping.page m.cache =
          ground (arith, p.rest.counts branch mapping.page) in
        let q = active-unmap branch mapping m.cache p.of_cache p.of_mapping counted in
        (
          q.0,
          record {
            of_branch = p.rest.of_branch;
            counts = λ at page. ground (arith, q.1 at page, p.rest.counts at page);
            own = λ at one e. let r = p.rest.own at one e in (ground (arith, q.2, r.0), r.1);
            shows = p.rest.shows;
            attached = p.rest.attached;
            sorted = p.rest.sorted;
          },
        )
