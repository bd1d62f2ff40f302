-- ===== src/Vmm/Dax/Specs.antt =====
-- The specs of a window after `setup_mapping`, whether it succeeds or not.
use minidox.Prelude.{
  ℕ, zero, suc, ◌+◌, ◌-◌, ◌*◌, ◌≤◌, ◌<◌, ◌≡◌, refl, ◌∙◌, true, false, none, some, List, [], ◌∷◌,
  if◌then◌else◌, arith,
}
use minidox.Prelude.Order.{nat_ord}
use minidox.Prelude.Map.{Map, get, insert, get-insert, get-remove, contains_key}
use minidox.Vmm.Dax.{MappingSpec, VirtioFs}
use minidox.Vmm.Dax.Mapping.{drop_spec}
use minidox.Vmm.Dax.Window.{page_offsets, add_specs, drop_specs, overlaps}
use minidox.Vmm.Dax.Suspend.{among}
use minidox.Vmm.Dax.Panics.{Specified}
use minidox.Cache.{page_size}

-- The pages lie in the range that they start.
pub among-page_offsets :
    (count offset at : ℕ)
    → among at (page_offsets count offset) ≡ true
    → (offset ≤ at) × (at < offset + count * page_size)
unfolding page_offsets
among-page_offsets zero offset at h = absurd (ground arith)
among-page_offsets (suc count) offset at h =
    ground (arith, among-page_offsets count (offset + page_size) at)

-- The spec of a page that lies so far into a mapping.
abbrev pub spec_at : MappingSpec → ℕ → MappingSpec
spec_at spec delta = record spec { file_offset = spec.file_offset + delta }

pub get-add_specs :
    (count offset : ℕ) (spec : MappingSpec) (specs : Map ℕ MappingSpec) (at : ℕ)
    → get at (add_specs count offset spec specs) ≡ (
        if among at (page_offsets count offset)
        then some (spec_at spec (at - offset))
        else get at specs)
unfolding add_specs page_offsets
get-add_specs zero offset spec specs at = refl
get-add_specs (suc count) offset spec specs at =
    get-add_specs count (offset + page_size) (spec_at spec page_size) (insert offset spec specs) at
    ∙ ground
        (arith, get-insert offset at spec specs, among-page_offsets count (offset + page_size) at)

pub get-drop_specs :
    (offsets : List ℕ) (fs : VirtioFs) (at : ℕ)
    → get at (drop_specs offsets fs).specs ≡ (if among at offsets then none else get at fs.specs)
unfolding drop_specs
get-drop_specs [] fs at = refl
get-drop_specs (offset ∷ offsets) fs at =
    get-drop_specs offsets (drop_spec offset fs) at ∙ ground (arith, get-remove offset at fs.specs)

-- A range that overlaps no spec holds none.
pub overlaps-none :
    (window_offset end at : ℕ) (specs : Map ℕ MappingSpec)
    → overlaps window_offset end specs ≡ false
    → window_offset ≤ at
    → at < end
    → get at specs ≡ none
unfolding overlaps get
overlaps-none window_offset end at [] h le lt = refl
overlaps-none window_offset end at ((offset, spec) ∷ specs) h le lt =
    ground (arith, overlaps-none window_offset end at specs)

-- The pages of a list that have specs.
Specified-of :
    (offsets : List ℕ) (fs : VirtioFs)
    → ((at : ℕ) → among at offsets ≡ true → contains_key at fs.specs ≡ true)
    → Specified offsets fs
Specified-of [] fs h = tt
Specified-of (offset ∷ offsets) fs h =
    (h offset (ground arith), Specified-of offsets fs λ at e. h at (ground arith))

pub add_specs-Specified :
    (count offset : ℕ) (spec : MappingSpec) (fs : VirtioFs)
    → Specified
        (page_offsets count offset)
        (record fs { specs = add_specs count offset spec fs.specs })
add_specs-Specified count offset spec fs =
    Specified-of (page_offsets count offset) _
      λ at e. ground (arith, get-add_specs count offset spec fs.specs at)
