-- ===== src/FreeList.antt =====
-- src/libmem.c: the free regions of an area (get_free_vmrg_area, enlist_vm_freerg_list) and the
-- symbol table's entries (get_symrg_byid).
pub mod Cover
pub mod Serve
use hk252_co2017_nhom2_btl.Prelude.{
  Chain, Outcome, Ptr, add64, dangling, deref, end, failure, fault, if◌then◌else◌, leb, ltb, ltb_ℤ,
  node, null, ok, pos, ptr, success, to_addr, uninitialised, ℕ, ℤ, ◌-◌, ◌==◌, ◌>>=◌, ◌>>◌, ◌^◌,
  ◌||◌,
}
use hk252_co2017_nhom2_btl.Mm.{Region, Vma, Mm, vma_at, set_freerg, paging_max_symtbl_sz}
use hk252_co2017_nhom2_btl.Vma.{get_vma_by_num}

-- `newrg->rg_start = newrg->rg_end = -1`
abbrev pub unset : Region
unset = record { rg_start = 2 ^ 64 - 1; rg_end = 2 ^ 64 - 1 }

-- The chosen region is used up: the next node is copied over it and dropped, or at the end of the
-- list a region of size 0 stays.
pub remove_region : Region → Chain Region → Outcome (Chain Region)
remove_region r end = ok (node (record r { rg_start = r.rg_end }) end)
remove_region r dangling = fault uninitialised
remove_region r (node next rest) = ok (node next rest)

-- The `while` of get_free_vmrg_area, on a request of `size` bytes: the list after the loop, and
-- `newrg`.
pub scan : ℕ → Chain Region → Region → Outcome (Chain Region × Region)
scan size end newrg = ok (end, newrg)
scan size dangling newrg = fault uninitialised
scan size (node r rest) newrg =
    let chosen : Region = record { rg_start = r.rg_start; rg_end = add64 r.rg_start size } in
    let later = scan size rest newrg >>= λ (o : Chain Region × Region). ok (node r o.0, o.1) in
    if leb (add64 r.rg_start size) r.rg_end
    then (if ltb (add64 r.rg_start size) r.rg_end
        then ok (node (record r { rg_start = add64 r.rg_start size }) rest, chosen)
        else remove_region r rest >>= λ rest'. ok (rest', chosen))
    else later

-- get_free_vmrg_area once the list of the area at position `i` is known.
pub serve_from : Mm → ℕ → ℤ → Region → Chain Region → Outcome (ℤ × Mm × Region)
serve_from mm i size newrg end = ok (failure, mm, newrg)
serve_from mm i size newrg dangling = fault uninitialised
serve_from mm i size newrg (node r rest) = do
  (list, found) ← scan (to_addr size) (node r rest) unset
  ok (
    if found.rg_start == 2 ^ 64 - 1 then failure else success,
    record mm { mmap = set_freerg mm.mmap i list },
    found,
  )

-- `newrg` is written only where the list has a node.
pub get_free_vmrg_area : Mm → ℤ → ℤ → Region → Outcome (ℤ × Mm × Region)
get_free_vmrg_area mm vmaid size newrg = do
  cur ← get_vma_by_num mm vmaid
  i ← deref cur
  vma ← vma_at mm.mmap i
  serve_from mm i size newrg vma.vm_freerg_list

unfoldable pub enlist_vm_freerg_list : Mm → Region → Chain Region → Outcome (ℤ × Mm)
enlist_vm_freerg_list mm rg_elmt rg_next = do
  vma ← vma_at mm.mmap 0
  if leb rg_elmt.rg_end rg_elmt.rg_start then ok (failure, mm) else do
    next ← elim vma.vm_freerg_list [
      | end ↦ ok rg_next
      | dangling ↦ fault uninitialised
      | node r rest ↦ ok (node r rest)
    ]
    ok (success, record mm { mmap = set_freerg mm.mmap 0 (node rg_elmt next) })

-- get_symrg_byid: the position of the entry. The bound admits `paging_max_symtbl_sz` itself, one
-- past the last entry.
unfoldable pub get_symrg_byid : Mm → ℤ → Ptr ℤ
get_symrg_byid mm rgid =
    if ltb_ℤ rgid (pos 0) || ltb_ℤ (pos paging_max_symtbl_sz) rgid then null else ptr rgid
