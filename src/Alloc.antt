-- ===== src/Alloc.antt =====
-- src/libmem.c: __alloc, __free, liballoc and libfree, under the lock `mmvm_lock`.
-- `table`, `junk` and `value` are those of the system calls (Syscall.antt).
pub mod Locks
pub mod Ready
pub mod Balance
pub mod Disjoint
pub mod History
pub mod Grow
pub mod Reuse
pub mod Errors
use hk252_co2017_nhom2_btl.Prelude.{
  Outcome, add64, deref, end, failure, if◌then◌else◌, is_failure, is_zero, ltb_ℤ, ok, pos, success,
  to_addr, to_int, ℕ, ℤ, ◌&&◌, ◌==◌, ◌>>=◌, ◌>>◌, ◌||◌,
}
use hk252_co2017_nhom2_btl.Mm.{
  Region, Vma, Mm, Krnl, Machine, lock, unlock, with_mm, vma_at, symrg_at, set_symrg,
  paging_max_symtbl_sz,
}
use hk252_co2017_nhom2_btl.Vma.{get_vma_by_num}
use hk252_co2017_nhom2_btl.FreeList.{
  unset, get_free_vmrg_area, enlist_vm_freerg_list, get_symrg_byid,
}
use hk252_co2017_nhom2_btl.Syscall.{Table, syscall}

-- A call that returns an `int`, the new state and an address.
abbrev pub Allocated : Type 0
Allocated = ℤ × Machine × ℕ

module _ (table : Table) (junk : ℕ → ℕ) (value : ℕ) (pid : ℕ) where
  -- __alloc where get_free_vmrg_area has failed: SYSMEM_INC_OP by system call 17, then the region
  -- from the old break, which is held in an `int`. The result of the call is dropped.
  pub grow : Machine → Mm → ℤ → ℤ → ℕ → Outcome Allocated
  grow m mm vmaid rgid size = do
    cur ← get_vma_by_num mm vmaid
    i ← deref cur
    vma ← vma_at mm.mmap i
    let old_sbrk = to_addr (to_int vma.sbrk)
    _ ← syscall table junk value m.os pid 17 (record { a1 = 2; a2 = to_addr vmaid; a3 = size })
    mm' ← set_symrg mm rgid (record { rg_start = old_sbrk; rg_end = add64 old_sbrk size })
    ok (success, unlock (with_mm m mm'), old_sbrk)

  -- __alloc. The local `rgnode` is read only after get_free_vmrg_area has written it.
  pub alloc : Machine → ℤ → ℤ → ℕ → Outcome Allocated
  alloc m0 vmaid rgid size = do
    m ← lock m0
    mm ← deref m.os.mm
    (status, mm', rgnode) ← get_free_vmrg_area mm vmaid (to_int size) unset
    if is_zero status
        then (do
          mm'' ← set_symrg mm' rgid rgnode
          ok (success, unlock (with_mm m mm''), rgnode.rg_start))
        else grow m mm' vmaid rgid size

  -- liballoc, without its dump of the page table, which has no effect.
  pub liballoc : Machine → ℕ → ℕ → Outcome (ℤ × Machine)
  liballoc m size reg_index = do
    (val, m', _) ← alloc m (pos 0) (to_int reg_index) size
    ok (val, m')

-- __free from the test of the entry on.
pub free_entry : Machine → Mm → ℤ → Outcome (ℤ × Machine)
free_entry m mm rgid = do
  rgnode ← symrg_at mm rgid
  if rgnode.rg_start == 0 && rgnode.rg_end == 0 then ok (failure, unlock m) else do
    cleared ← set_symrg mm rgid (record { rg_start = 0; rg_end = 0 })
    (_, mm') ← enlist_vm_freerg_list cleared rgnode end
    ok (success, unlock (with_mm m mm'))

-- __free; the result of enlist_vm_freerg_list is dropped.
pub free : Machine → ℤ → ℤ → Outcome (ℤ × Machine)
free m0 vmaid rgid = do
  m ← lock m0
  if ltb_ℤ rgid (pos 0) || ltb_ℤ (pos paging_max_symtbl_sz) rgid
      then ok (failure, unlock m)
      else do mm ← deref m.os.mm; entry ← deref (get_symrg_byid mm rgid); free_entry m mm entry

pub libfree : Machine → ℕ → Outcome (ℤ × Machine)
libfree m reg_index = do
  (val, m') ← free m (pos 0) (to_int reg_index)
  if is_failure val then ok (failure, m') else ok (success, m')
