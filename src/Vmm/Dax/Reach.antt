-- ===== src/Vmm/Dax/Reach.antt =====
-- Histories of a DAX window: the calls of the guest and of the VMM, in any order, failing or not, and
-- what the cache does meanwhile for others.
use minidox.Prelude.{ℕ, ◌≡◌, refl, Bool, [], ok, arith, subst, length}
use minidox.Prelude.Order.{Ord, nat_ord}
use minidox.Prelude.Map.{get, keys}
use minidox.Cache.Store.{ForkableNodeStore}
use minidox.Cache.State.{State}
use minidox.Cache.Active.{active, Same}
use minidox.Vmm.Dax.{Machine}
use minidox.Vmm.Dax.Mapping.{suspend_mappings, resume_mappings}
use minidox.Vmm.Dax.Uses.{uses, HasRoom, Valid, Valid-Same}
use minidox.Vmm.Dax.Window.{
  page_offsets, rounds, setup_mapping, remove_mapping, attach_dax_window, detach_dax_window,
}
use minidox.Vmm.Dax.Remove.{suspend_mappings-Valid, either}
use minidox.Vmm.Dax.Activate.{resume_mappings-Valid}
use minidox.Vmm.Dax.Balance.{
  setup_mapping-Valid, remove_mapping-Valid, attach_dax_window-Valid, detach_dax_window-Valid,
}

module _ {S W I : Type 0} ⦃o : Ord I⦄ (store : ForkableNodeStore S W I) where
  -- One call, whatever it answers; an attachment that fails is left out. A call that maps starts
  -- with room in the counts of its branch for all that it may map.
  pub data Moves : Machine S W I → Machine S W I → Type 0 where
    mapping_setup :
        (m : Machine S W I) (inode file_offset len : ℕ) (writable : Bool) (window_offset : ℕ)
        → HasRoom m.fs.branch (length (page_offsets (rounds len) window_offset)) m
        → Moves m (setup_mapping store inode file_offset len writable window_offset m).1
    mapping_removal :
        (m : Machine S W I) (window_offset len : ℕ) → Moves m (remove_mapping window_offset len m).1
    detachment :
        (m : Machine S W I) (host_address len : ℕ)
        → Moves m (detach_dax_window host_address len m).1
    attachment :
        (m : Machine S W I) (host_address len : ℕ)
        → HasRoom m.fs.branch (length (keys m.fs.specs)) m
        → (attach_dax_window store host_address len m).0 ≡ ok tt
        → Moves m (attach_dax_window store host_address len m).1
    -- the first and the last step of a fork, a write and a snapshot
    suspension : (m : Machine S W I) → Moves m (suspend_mappings m).1
    resumption :
        (m : Machine S W I)
        → HasRoom m.fs.branch (length (keys m.fs.specs)) m
        → Moves m (resume_mappings store m).1
    -- the cache has worked without a change of the counts
    cache_work :
        (m : Machine S W I) (cache : State S W I)
        → Same m.cache cache
        → Moves m (record m { cache = cache })

  pub data Reach (m : Machine S W I) : Machine S W I → Type 0 where
    here : Reach m m
    next : {n k : Machine S W I} → Reach m n → Moves n k → Reach m k

  room_of :
      (branch : ℕ) (base : ℕ → ℕ → ℕ) (mappings : ℕ) (m : Machine S W I)
      → Valid branch base m
      → HasRoom m.fs.branch mappings m
      → HasRoom branch mappings m
  room_of branch base mappings m p room = subst (λ at. HasRoom at mappings m) p.of_branch room

  Moves-Valid :
      (branch : ℕ) (base : ℕ → ℕ → ℕ) {m n : Machine S W I}
      → Moves m n
      → Valid branch base m
      → Valid branch base n
  Moves-Valid branch base (mapping_setup m inode file_offset len writable window_offset room) p =
      setup_mapping-Valid store branch base inode file_offset len writable window_offset m p
        (room_of branch base _ m p room)
  Moves-Valid branch base (mapping_removal m window_offset len) p =
      remove_mapping-Valid branch base window_offset len m p
  Moves-Valid branch base (detachment m host_address len) p =
      detach_dax_window-Valid branch base host_address len m p
  Moves-Valid branch base (attachment m host_address len room done) p =
      attach_dax_window-Valid store branch base host_address len m p
        (room_of branch base _ m p room) done
  Moves-Valid branch base (suspension m) p =
      either branch base (suspend_mappings m) ((suspend_mappings-Valid branch base).run m p)
  Moves-Valid branch base (resumption m room) p =
      either branch base (resume_mappings store m)
        ((resume_mappings-Valid store branch base).run m (p, room_of branch base _ m p room))
  Moves-Valid branch base (cache_work m cache q) p = Valid-Same branch m cache q p

  Reach-keeps :
      (branch : ℕ) (base : ℕ → ℕ → ℕ) {m n : Machine S W I}
      → Reach m n
      → Valid branch base m
      → Valid branch base n
  Reach-keeps branch base here p = p
  Reach-keeps branch base (next r s) p = Moves-Valid branch base s (Reach-keeps branch base r p)

  fresh-Valid :
      (m : Machine S W I)
      → m.fs.active ≡ []
      → m.shown ≡ []
      → Valid m.fs.branch (λ at page. active at page m.cache) m
  unfolding uses get
  fresh-Valid m idle dark = record {
    of_branch = refl;
    counts = λ at page. rw idle (ground arith);
    own = λ offset mapping e. absurd (ground (arith, idle));
    shows = λ offset. rw (idle, dark) refl;
    attached = λ offset mapping e. absurd (ground (arith, idle));
    sorted = rw idle tt;
  }

  -- From a window with nothing mapped, after any history of setups, removals, detachments,
  -- successful attachments, suspensions and resumptions, failing or not, and of other cache work
  -- that leaves the counts of mappings, in which each setup, attachment and resumption starts
  -- where no count of the branch can wrap at 2^64 even if all its pages are mapped, the window
  -- shows exactly the pages of the active mappings and the cache counts each of these mappings
  -- and no more.
  pub Reach-Valid :
      (m n : Machine S W I)
      → m.fs.active ≡ []
      → m.shown ≡ []
      → Reach m n
      → Valid m.fs.branch (λ at page. active at page m.cache) n
  Reach-Valid m n idle dark r = Reach-keeps m.fs.branch _ r (fresh-Valid m idle dark)
