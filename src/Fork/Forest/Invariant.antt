-- ===== src/Fork/Forest/Invariant.antt =====
-- The invariant of a forest: VM identities below the counter, one page to a page identity, and
-- whole pages.
use minidox.Prelude.{
  ℕ, ◌≤◌, ◌<◌, ◌≡◌, ◌∙◌, sym, subst, ◌⊎◌, inl, inr, some, arith, Bool-cases, ◌==◌,
}
use minidox.Prelude.Order.{bytes_ord, nat_ord, pair_ord}
use minidox.Prelude.Map
use minidox.Prelude.Map.{get, get-insert, get-remove}
use minidox.Fork.{Page}
use minidox.Fork.Bytes.{IsWhole}
use minidox.Fork.Forest.Pages.{InBranch, Distinct, Distinct-sub}
use minidox.Fork.Forest.{VmState, ForkForest}

-- The pages that some VM of the forest shows, in its memory or in its files.
pub data Shows (f : ForkForest) (page : Page) : Type 0 where
  in_memory :
      (vm : ℕ) (state : VmState)
      → get vm f.vms ≡ some state
      → InBranch state.memory page
      → Shows f page
  in_files :
      (vm : ℕ) (state : VmState)
      → get vm f.vms ≡ some state
      → InBranch state.filesystem page
      → Shows f page

-- What holds of a forest at all times.
pub record IsValid (f : ForkForest) : Type 0 where
  pub vms_below : (vm : ℕ) (state : VmState) → get vm f.vms ≡ some state → vm < f.next_vm
  pub distinct : Distinct f.next_page (Shows f)
  pub whole :
      (vm : ℕ) (state : VmState)
      → get vm f.vms ≡ some state
      → IsWhole state.memory × IsWhole state.filesystem

-- The pages of a VM.
abbrev pub InVm : VmState → Page → Type 0
InVm state page = InBranch state.memory page ⊎ InBranch state.filesystem page

pub Shows-of_vm :
    (f : ForkForest) (vm : ℕ) (state : VmState) (page : Page)
    → get vm f.vms ≡ some state
    → InVm state page
    → Shows f page
Shows-of_vm f vm state page e (inl h) = in_memory vm state e h
Shows-of_vm f vm state page e (inr h) = in_files vm state e h

module _ (f : ForkForest) (vm : ℕ) (state : VmState) (next_vm next_page : ℕ) where
  abbrev pub inserted : ForkForest
  inserted = record { next_vm = next_vm; next_page = next_page; vms = Map.insert vm state f.vms }

  -- An entry of the forest is the inserted one, or was there before.
  entry_cases {ℓ} :
      (P : VmState → Type ℓ) (other : ℕ) (entry : VmState)
      → get other (Map.insert vm state f.vms) ≡ some entry
      → (other ≡ vm → P state)
      → (get other f.vms ≡ some entry → P entry)
      → P entry
  entry_cases P other entry e at_vm elsewhere = elim (Bool-cases (other == vm)) [
    | inl hit ↦
        let same_state : state ≡ entry = ground (arith, get-insert vm other state f.vms) in
        subst P same_state (at_vm (ground arith))
    | inr miss ↦ elsewhere (sym (rw miss at (get-insert vm other state f.vms)) ∙ e)
  ]

  pub inserted-Shows : (page : Page) → Shows inserted page → Shows f page ⊎ InVm state page
  inserted-Shows page (in_memory other entry e h) =
      entry_cases (λ s. InBranch s.memory page → Shows f page ⊎ InVm state page) other entry e
        (λ _ h. inr (inl h)) (λ old h. inl (in_memory other entry old h)) h
  inserted-Shows page (in_files other entry e h) =
      entry_cases (λ s. InBranch s.filesystem page → Shows f page ⊎ InVm state page) other entry e
        (λ _ h. inr (inr h)) (λ old h. inl (in_files other entry old h)) h

  pub inserted-IsValid :
      IsValid f
      → vm < next_vm
      → f.next_vm ≤ next_vm
      → Distinct next_page (λ page. Shows f page ⊎ InVm state page)
      → IsWhole state.memory
      → IsWhole state.filesystem
      → IsValid inserted
  inserted-IsValid v small grows d memory_whole files_whole = record {
    vms_below = λ other entry e.
        entry_cases (λ _. other < next_vm) other entry e (λ same_vm. omega arith)
          (λ old. omega (arith, v.vms_below other entry old));
    distinct = Distinct-sub inserted-Shows d;
    whole = λ other entry e.
        entry_cases (λ s. IsWhole s.memory × IsWhole s.filesystem) other entry e
          (λ _. (memory_whole, files_whole)) (v.whole other entry);
  }
