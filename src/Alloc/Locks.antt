-- ===== src/Alloc/Locks.antt =====
-- `mmvm_lock` and the devices, over __alloc and __free.
use hk252_co2017_nhom2_btl.Prelude.{
  Always, Always->>=, Always-if, Always-trans, Bool, Outcome, blocked, deref, end, false, fault,
  if◌then◌else◌, is_failure, is_zero, ltb_ℤ, ok, pos, refl, to_addr, to_int, true, ℕ, ℤ, ◌&&◌, ◌==◌,
  ◌>>=◌, ◌||◌, ◌≡◌,
}
use hk252_co2017_nhom2_btl.Mm.{Mm, Machine, lock, vma_at, symrg_at, set_symrg}
use hk252_co2017_nhom2_btl.Vma.{get_vma_by_num}
use hk252_co2017_nhom2_btl.FreeList.{
  unset, get_free_vmrg_area, enlist_vm_freerg_list, get_symrg_byid,
}
use hk252_co2017_nhom2_btl.Syscall.{Table, syscall}
use hk252_co2017_nhom2_btl.Alloc.{
  libfree, liballoc, paging_max_symtbl_sz, Allocated, alloc, grow, free, free_entry,
}

-- The lock is free, and the kernel points to the devices of `m` as they were.
abbrev Keeps : Machine → Machine → Type 0
Keeps m m' =
    (m'.mmvm_lock ≡ false) × (m'.os.mram ≡ m.os.mram) × (m'.os.active_mswp ≡ m.os.active_mswp)

-- What runs under the lock runs on the same kernel.
Always-lock {ℓ κ} :
    {A : Type ℓ} (P : A → Type κ) (m : Machine) (f : Machine → Outcome A)
    → Always P (f (record m { mmvm_lock = true }))
    → Always P (lock m >>= f)
Always-lock P m f h = held m.mmvm_lock
  where
    held :
        (b : Bool)
        → Always P ((if b then fault blocked else ok (record m { mmvm_lock = true })) >>= f)
    held true = tt
    held false = h

abbrev IsReleased : Machine → Allocated → Type 0
IsReleased m r = Keeps m r.1

module _ (table : Table) (junk : ℕ → ℕ) (value pid : ℕ) where
  grow-IsReleased :
      (m : Machine) (mm : Mm) (vmaid rgid : ℤ) (size : ℕ)
      → Always (IsReleased m) (grow table junk value pid m mm vmaid rgid size)
  unfolding grow
  grow-IsReleased m mm vmaid rgid size =
      Always->>= (IsReleased m) (get_vma_by_num mm vmaid) _ λ cur.
        Always->>= (IsReleased m) (deref cur) _ λ i.
          Always->>= (IsReleased m) (vma_at mm.mmap i) _ λ vma.
            Always->>= (IsReleased m)
              (syscall table junk value m.os pid 17
                (record { a1 = 2; a2 = to_addr vmaid; a3 = size }))
              _ λ r. Always->>= (IsReleased m) (set_symrg mm rgid _) _ λ mm'. (refl, refl, refl)

  -- Whenever __alloc returns, for any state and arguments, the lock is free, and the kernel points
  -- to the same two devices as before.
  alloc-Keeps :
      (m : Machine) (vmaid rgid : ℤ) (size : ℕ)
      → Always (λ r. Keeps m r.1) (alloc table junk value pid m vmaid rgid size)
  unfolding alloc
  alloc-Keeps m vmaid rgid size = Always-lock (IsReleased m) m _ (
      Always->>= (IsReleased m) (deref m.os.mm) _ λ mm.
        Always->>= (IsReleased m) (get_free_vmrg_area mm vmaid (to_int size) unset) _ λ r.
          Always-if (IsReleased m) (is_zero r.0) _ _
            (Always->>= (IsReleased m) (set_symrg r.1 rgid r.2) _ λ mm'. (refl, refl, refl))
            (grow-IsReleased (record m { mmvm_lock = true }) r.1 vmaid rgid size))

abbrev IsUnlocked : Machine → ℤ × Machine → Type 0
IsUnlocked m r = Keeps m r.1

free_entry-IsUnlocked :
    (m : Machine) (mm : Mm) (rgid : ℤ) → Always (IsUnlocked m) (free_entry m mm rgid)
unfolding free_entry
free_entry-IsUnlocked m mm rgid = Always->>= (IsUnlocked m) (symrg_at mm rgid) _ λ r.
    Always-if (IsUnlocked m) (r.rg_start == 0 && r.rg_end == 0) _ _ (refl, refl, refl)
      (Always->>= (IsUnlocked m) (set_symrg mm rgid _) _ λ cleared.
        Always->>= (IsUnlocked m) (enlist_vm_freerg_list cleared r end) _ λ mm'. (refl, refl, refl))

-- Whenever __free returns, for any state and arguments, the lock is free, and the kernel points to
-- the same two devices as before.
free-Keeps : (m : Machine) (vmaid rgid : ℤ) → Always (λ r. Keeps m r.1) (free m vmaid rgid)
unfolding free
free-Keeps m vmaid rgid = Always-lock (IsUnlocked m) m _ (
    Always-if (IsUnlocked m) (ltb_ℤ rgid (pos 0) || ltb_ℤ (pos paging_max_symtbl_sz) rgid) _ _
      (refl, refl, refl)
      (Always->>= (IsUnlocked m) (deref m.os.mm) _ λ mm.
        Always->>= (IsUnlocked m) (deref (get_symrg_byid mm rgid)) _
          λ entry. free_entry-IsUnlocked (record m { mmvm_lock = true }) mm entry))

-- What an instruction leaves of RAM.
pub liballoc-ram :
    (table : Table) (junk : ℕ → ℕ) (value pid : ℕ) (m : Machine) (size reg_index : ℕ)
    → Always (λ r. r.1.os.mram ≡ m.os.mram) (liballoc table junk value pid m size reg_index)
unfolding liballoc
liballoc-ram table junk value pid m size reg_index =
    Always-trans (IsReleased m) (λ r. r.1.os.mram ≡ m.os.mram) _ _
      (alloc-Keeps table junk value pid m (pos 0) (to_int reg_index) size) λ r kept. kept.1

pub libfree-ram :
    (m : Machine) (reg_index : ℕ) → Always (λ r. r.1.os.mram ≡ m.os.mram) (libfree m reg_index)
unfolding libfree
libfree-ram m reg_index =
    Always-trans (IsUnlocked m) (λ r. r.1.os.mram ≡ m.os.mram) _ _
      (free-Keeps m (pos 0) (to_int reg_index))
      λ r kept. Always-if (λ r. r.1.os.mram ≡ m.os.mram) (is_failure r.0) _ _ kept.1 kept.1
