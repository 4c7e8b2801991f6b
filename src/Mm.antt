-- ===== src/Mm.antt =====
-- The structures of include/os-mm.h and the kernel of include/common.h, as far as the memory
-- management reads or writes them, and the accesses through their pointers. The level pointers
-- p4d to pt and the cache pools of `mm_struct` are never used. A pointer to a node of a list that
-- the code updates is the node's position.
use hk252_co2017_nhom2_btl.Prelude.{
  Bool, Chain, List, Outcome, Ptr, ap, arith, blocked, dangling, end, false, fault, get_elem?,
  if◌then◌else◌, length, ltb, negsuc, node, none, null_deref, ok, out_of_bounds, pos, ptr, refl,
  set, some, suc, true, uninitialised, zero, ℕ, ℤ, ◌≡◌,
}
use hk252_co2017_nhom2_btl.Memphy.{Memphy}

-- PAGING_MAX_SYMTBL_SZ
abbrev pub paging_max_symtbl_sz : ℕ
paging_max_symtbl_sz = 30

-- `struct vm_rg_struct`; its link is the chain that holds it, and `vmaid` is never used.
pub record Region : Type 0 where
  pub rg_start : ℕ
  pub rg_end : ℕ

-- `struct vm_area_struct`; the back pointer `vm_mm` is never used.
pub record Vma : Type 0 where
  pub vm_id : ℕ
  pub vm_start : ℕ
  pub vm_end : ℕ
  pub sbrk : ℕ
  pub vm_freerg_list : Chain Region

-- `struct mm_struct`; `symrgtbl` has `paging_max_symtbl_sz` entries.
pub record Mm : Type 0 where
  pub pgd : Ptr (List ℕ)
  pub mmap : Chain Vma
  pub symrgtbl : List Region
  pub fifo_pgn : Chain ℕ

-- `struct krnl_t`
pub record Krnl : Type 0 where
  pub mm : Ptr Mm
  pub mram : Ptr Memphy
  pub active_mswp : Ptr Memphy

-- The kernel and the static lock of libmem.c.
pub record Machine : Type 0 where
  pub os : Krnl
  pub mmvm_lock : Bool

-- pthread_mutex_lock and pthread_mutex_unlock on `mmvm_lock`, by one thread: taking the lock while
-- it is held waits for ever.
abbrev pub lock : Machine → Outcome Machine
lock m = if m.mmvm_lock then fault blocked else ok (record m { mmvm_lock = true })

abbrev pub unlock : Machine → Machine
unlock m = record m { mmvm_lock = false }

abbrev pub with_mm : Machine → Mm → Machine
with_mm m mm = record m { os = record m.os { mm = ptr mm } }

-- The accesses `vma->...` and `vma->vm_freerg_list = list` at position `i` of `mmap`.
abbrev pub vma_at : Chain Vma → ℕ → Outcome Vma
vma_at end i = fault null_deref
vma_at dangling i = fault uninitialised
vma_at (node v rest) zero = ok v
vma_at (node v rest) (suc i) = vma_at rest i

abbrev pub set_freerg : Chain Vma → ℕ → Chain Region → Chain Vma
set_freerg end i list = end
set_freerg dangling i list = dangling
set_freerg (node v rest) zero list = node (record v { vm_freerg_list = list }) rest
set_freerg (node v rest) (suc i) list = node v (set_freerg rest i list)

-- The accesses `mm->symrgtbl[rgid]`.
abbrev pub symrg_at : Mm → ℤ → Outcome Region
symrg_at mm (negsuc i) = fault out_of_bounds
symrg_at mm (pos i) = elim (get_elem? mm.symrgtbl i) [ none ↦ fault out_of_bounds | some r ↦ ok r ]

abbrev pub set_symrg : Mm → ℤ → Region → Outcome Mm
set_symrg mm (negsuc i) r = fault out_of_bounds
set_symrg mm (pos i) r =
    if ltb i (length mm.symrgtbl)
    then ok (record mm { symrgtbl = set mm.symrgtbl i r })
    else fault out_of_bounds

pub set_freerg_self :
    (vs : Chain Vma) (i : ℕ) (v : Vma) → vma_at vs i ≡ ok v → set_freerg vs i v.vm_freerg_list ≡ vs
set_freerg_self end i v e = refl
set_freerg_self dangling i v e = refl
set_freerg_self (node w rest) zero v e = ground arith
set_freerg_self (node w rest) (suc i) v e = ap (node w) (set_freerg_self rest i v e)
