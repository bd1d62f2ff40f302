-- ===== src/Cache/Balance.antt =====
-- What `map_page` and `unmap` do to the counts of active mappings.
use minidox.Prelude.{
  ℕ, zero, suc, ◌+◌, ◌<◌, ◌≡◌, refl, ◌∙◌, ap, sym, Bool, true, false, not, ◌&&◌, none, some, ok,
  err, ◌⊎◌, if◌then◌else◌, ◌==◌, arith, Option-cases, inl, inr, u64_mod,
}
use minidox.Prelude.Order.{Ord, nat_ord, pair_ord}
use minidox.Prelude.Map.{get, contains_key}
use minidox.Prelude.Step.{pure, fail, gets, guard, lift, modify, ◌>>=◌}
use minidox.Prelude.Step.Hoare.{
  Hoare, and_then, pure_lem, guard_lem, modify_lem, gets_lem, framed, weaken,
}
use minidox.Cache.{MapFlags, stale_mapping}
use minidox.Cache.Dirty.{PageKey}
use minidox.Cache.Store.{ForkableNodeStore}
use minidox.Cache.State.{branch_mut, CacheBranch, State, count_of, find_branch}
use minidox.Cache.Mapping.{
  DaxPageMapping, deactivate, update_branch, unmap, copy_page, finish_map, map_page,
}
use minidox.Cache.Branches.{checked_sub}
use minidox.Cache.Steps.{branch_mut_lem, with_store_mut_lem}
use minidox.Cache.Active.{
  active, active_in, Same, OneMore, Same-StoresKeep, update_branch-OneMore, active_in-deactivate,
  contains_key-put, copy_page-Same, load_page-Same,
}

-- What a mapping has of the state that its page was mapped in.
pub record Made {S W I : Type 0} (origin : State S W I) (branch : ℕ) (mapping : DaxPageMapping)
    (s : State S W I) : Type 0 where
  pub one_more : OneMore origin branch mapping.page s
  pub of_cache : mapping.cache_id ≡ origin.id
  pub of_branch : mapping.branch ≡ branch
  pub there : contains_key branch origin.branches ≡ true

-- The branch is there.
abbrev There : {S W I : Type 0} → State S W I → ℕ → State S W I → Type 0
There origin branch s = Same origin s × (contains_key branch origin.branches ≡ true)

module _ {S W I : Type 0} where
  pub unmap_lem :
      (branch rest : ℕ) (mapping : DaxPageMapping) (b : CacheBranch S) (s : State S W I)
      → mapping.cache_id ≡ s.id
      → mapping.branch ≡ branch
      → find_branch branch s ≡ some b
      → get mapping.page b.active_pages ≡ some (rest + 1)
      → unmap branch mapping s ≡ (ok tt, update_branch branch (deactivate mapping rest) s)
  unfolding unmap ◌>>=◌ gets guard branch_mut lift modify pure fail
  unmap_lem branch rest mapping b s c m e g =
      let one : (mapping.cache_id == s.id) ≡ true = ground arith in
      let two : (mapping.branch == branch) ≡ true = ground arith in
      let sub : checked_sub (rest + 1) 1 ≡ some rest = ground arith in
      rw (one, two, guard, e, g, sub) refl

  -- The count of a page that the branch has.
  counted :
      (branch rest : ℕ) (mapping : DaxPageMapping) (b : CacheBranch S) (s : State S W I)
      → find_branch branch s ≡ some b
      → get mapping.page b.active_pages ≡ some (rest + 1)
      → active branch mapping.page s ≡ rest + 1
  unfolding active_in count_of
  counted branch rest mapping b s e c = ground arith

  -- A mapping whose page has no count, or the count 0, is stale.
  unmap_stale :
      (branch : ℕ) (mapping : DaxPageMapping) (b : CacheBranch S) (s : State S W I)
      → mapping.cache_id ≡ s.id
      → mapping.branch ≡ branch
      → find_branch branch s ≡ some b
      → (get mapping.page b.active_pages ≡ none) ⊎ (get mapping.page b.active_pages ≡ some 0)
      → unmap branch mapping s ≡ (err stale_mapping, s)
  unfolding unmap ◌>>=◌ gets guard branch_mut lift modify pure fail
  unmap_stale branch mapping b s c m e g =
      let one : (mapping.cache_id == s.id) ≡ true = ground arith in
      let two : (mapping.branch == branch) ≡ true = ground arith in
      elim g [
        | inl absent ↦ rw (one, two, guard, e, absent) refl
        | inr no_more ↦ rw (one, two, guard, e, no_more) refl
      ]

  -- A mapping of this cache and branch that is counted can be unmapped, and is counted no more.
  pub active-unmap :
      (branch : ℕ) (mapping : DaxPageMapping) (s : State S W I)
      → mapping.cache_id ≡ s.id
      → mapping.branch ≡ branch
      → 0 < active branch mapping.page s
      → ((unmap branch mapping s).0 ≡ ok tt)
        × ((at page : ℕ)
            → active at page (unmap branch mapping s).1
                + (if at == branch && page == mapping.page then 1 else 0)
              ≡ active at page s)
        × ((unmap branch mapping s).1.id ≡ s.id)
  unfolding active_in count_of update_branch
  active-unmap branch mapping s c m counted = elim (Option-cases (find_branch branch s)) [
    | inl e ↦ absurd (ground arith)
    | inr (b, e) ↦ elim (Option-cases (get mapping.page b.active_pages)) [
      | inl none_left ↦ absurd (ground arith)
      | inr (zero, z) ↦ absurd (ground arith)
      | inr (suc rest, g) ↦
          let g' : get mapping.page b.active_pages ≡ some (rest + 1) = ground arith in
          rw (unmap_lem branch rest mapping b s c m e g', update_branch, e)
            (refl, active_in-deactivate mapping branch rest b s.branches e g', refl)
    ]
  ]

module _ {S W I : Type 0} {origin : State S W I} where
  -- One mapping fewer.
  pub update_branch-Same_less :
      (branch rest : ℕ) (mapping : DaxPageMapping) (b : CacheBranch S) (s : State S W I)
      → find_branch branch s ≡ some b
      → get mapping.page b.active_pages ≡ some (rest + 1)
      → OneMore origin branch mapping.page s
      → Same origin (update_branch branch (deactivate mapping rest) s)
  unfolding update_branch
  update_branch-Same_less branch rest mapping b s e c p =
      rw (update_branch, e)
        (record {
          counts = λ at q. ground (
            arith,
            active_in-deactivate mapping branch rest b s.branches e c at q,
            p.counts at q,
            counted branch rest mapping b s e c,
          );
          kept = λ at.
              contains_key-put branch b (deactivate mapping rest b) s.branches e at ∙ p.kept at;
          same_cache = p.same_cache;
        })

  -- A mapping that the cache made can be unmapped, unless its count has wrapped, and the counts are
  -- as before it.
  pub unmap-Same :
      (branch : ℕ) (mapping : DaxPageMapping) (s : State S W I)
      → active branch mapping.page origin + 1 < u64_mod
      → Made origin branch mapping s
      → ((unmap branch mapping s).0 ≡ ok tt) × Same origin (unmap branch mapping s).1
  unfolding active_in count_of
  unmap-Same branch mapping s room p = elim (Option-cases (find_branch branch s)) [
    | inl e ↦ absurd (ground (arith, p.there, p.one_more.kept branch))
    | inr (b, e) ↦ elim (Option-cases (get mapping.page b.active_pages)) [
      | inl none_left ↦ absurd (ground (arith, p.one_more.counts branch mapping.page))
      | inr (zero, c) ↦ absurd (ground (arith, p.one_more.counts branch mapping.page))
      | inr (suc rest, c) ↦
          let g : get mapping.page b.active_pages ≡ some (rest + 1) = ground arith in
          rw
            (unmap_lem branch rest mapping b s (p.of_cache ∙ sym p.one_more.same_cache) p.of_branch
              e g)
            (refl, update_branch-Same_less branch rest mapping b s e g p.one_more)
    ]
  ]

module _ {S W I : Type 0} {origin : State S W I} where
  -- If a mapping that the cache made can be unmapped, the counts are as before it.
  pub unmap-Same_ok :
      (branch : ℕ) (mapping : DaxPageMapping) (s : State S W I)
      → Made origin branch mapping s
      → (unmap branch mapping s).0 ≡ ok tt
      → Same origin (unmap branch mapping s).1
  unmap-Same_ok branch mapping s p done = elim (Option-cases (find_branch branch s)) [
    | inl e ↦ absurd (ground (arith, p.there, p.one_more.kept branch))
    | inr (b, e) ↦
        let cache = p.of_cache ∙ sym p.one_more.same_cache in
        elim (Option-cases (get mapping.page b.active_pages)) [
          | inl absent ↦
              let f = unmap_stale branch mapping b s cache p.of_branch e (inl absent) in
              absurd (ground (arith, done, ap (λ r. r.0) f))
          | inr (zero, c) ↦
              let f = unmap_stale branch mapping b s cache p.of_branch e (inr c) in
              absurd (ground (arith, done, ap (λ r. r.0) f))
          | inr (suc rest, c) ↦
              let g : get mapping.page b.active_pages ≡ some (rest + 1) = ground arith in
              rw (unmap_lem branch rest mapping b s cache p.of_branch e g)
                (update_branch-Same_less branch rest mapping b s e g p.one_more)
        ]
  ]

module _ {S W I : Type 0} ⦃o : Ord I⦄ (store : ForkableNodeStore S W I) {origin : State S W I} where
  finish_map-Made :
      (branch : ℕ) (key : PageKey) (flags : MapFlags) (page : ℕ)
      → Hoare
          (There origin branch)
          (finish_map store branch key flags page)
          (Made origin branch)
          (Same origin)
  unfolding finish_map
  finish_map-Made branch key flags page =
      and_then
        (modify_lem _ {Q = There origin branch} λ s p.
          (record { counts = p.0.counts; kept = p.0.kept; same_cache = p.0.same_cache }, p.1))
        λ _.
          and_then
            (modify_lem _
              {Q = λ s. OneMore origin branch page s × (contains_key branch origin.branches ≡ true)}
              λ s p. elim (Option-cases (find_branch branch s)) [
                | inl e ↦ absurd (ground (arith, p.0.kept branch))
                | inr (b, e) ↦ (update_branch-OneMore branch page b s e p.0, p.1)
              ])
            λ _.
              and_then
                (gets_lem _
                  {Q = λ id s.
                    OneMore origin branch page s
                    × (id ≡ origin.id)
                    × (contains_key branch origin.branches ≡ true)}
                  λ s q. (q.0, q.0.same_cache, q.1))
                λ id.
                  pure_lem _
                    λ s q. record { one_more = q.0; of_cache = q.1; of_branch = refl; there = q.2 }

  pub map_page-Made :
      (branch node offset : ℕ) (flags : MapFlags)
      → Hoare
          (Same origin)
          (map_page store branch node offset flags)
          (Made origin branch)
          (Same origin)
  unfolding map_page
  map_page-Made branch node offset flags =
      and_then (guard_lem _ _ {Q = Same origin} (λ s _ p. p) λ s _ p. p) λ _.
        and_then (guard_lem _ _ {Q = Same origin} (λ s _ p. p) λ s _ p. p) λ _.
          and_then (branch_mut_lem branch) λ b.
            and_then
              (guard_lem _ _ {Q = There origin branch} (λ s _ p. p.0)
                λ s _ p. (p.0, ground (arith, p.0.kept branch)))
              λ _. and_then (framed (with_store_mut_lem branch _ Same-StoresKeep)) λ identity.
                and_then (framed (load_page-Same store branch identity (node, offset))) λ page.
                  and_then (weaken (branch_mut_lem branch) (λ now s p. p.0) (λ s p. p.0)) λ now.
                    and_then (guard_lem _ _ {Q = There origin branch} (λ s _ p. p.0) λ s _ p. p)
                      λ _.
                        and_then
                          (by_copy identity page
                            (flags.write && not (contains_key (node, offset) now.exclusive_pages)))
                          λ mapped. finish_map-Made branch (node, offset) flags mapped
    where
      by_copy :
          (identity : I) (page : ℕ) (copies : Bool)
          → Hoare
              (There origin branch)
              (if copies then copy_page store branch (node, offset) identity page else pure page)
              (λ _. There origin branch)
              (Same origin)
      by_copy identity page true =
          weaken (framed (copy_page-Same store branch (node, offset) identity page)) (λ _ s p. p)
            (λ s p. p)
      by_copy identity page false = pure_lem _ λ s p. p
