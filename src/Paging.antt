-- ===== src/Paging.antt =====
-- src/libmem.c and src/mm64.c: page table access, page faults and the FIFO of pages, and the
-- reads and writes of regions that rest on them.
-- `byte` is the value behind an out-parameter; where the source leaves it uninitialised it is an
-- argument. An `int` that holds an address is its 32-bit pattern.
pub mod Fifo
pub mod Fault
pub mod Access
pub mod Release
use hk252_co2017_nhom2_btl.Prelude.{
  Chain, List, Option, Outcome, Ptr, add64, bit_and, char_to_u32, dangling, deref, end, failure,
  fault, get_elem?, if◌then◌else◌, is_failure, is_zero, length, ltb, node, none, null, null_deref,
  ok, out_of_bounds, pos, ptr, set, some, suc, success, to_int, uninitialised, wild, zero, ℕ, ℤ,
  ◌%◌, ◌+◌, ◌-◌, ◌/◌, ◌==◌, ◌>>=◌, ◌>>◌, ◌^◌,
}
use hk252_co2017_nhom2_btl.Memphy.{Memphy, get_freefp, put_freefp}
use hk252_co2017_nhom2_btl.Pte.{
  genmask, page_present, paging_fpn, paging_swp, setbit, clrbit, setval, get_pd_from_pagenum,
  pte_present_mask, pte_swapped_mask, pte_fpn_mask, pte_swptyp_mask, pte_swpoff_mask,
}
use hk252_co2017_nhom2_btl.Mm.{Region, Mm, Krnl, Machine, lock, unlock, symrg_at}
use hk252_co2017_nhom2_btl.Vma.{get_vma_by_num, enlist_pgn_node}
use hk252_co2017_nhom2_btl.FreeList.{get_symrg_byid}

-- pte_set_swap and pte_set_fpn write a cell from malloc, which held `cell` and is then lost; the
-- third result is the cell's new content.
pub pte_set_swap : ℕ → Krnl → ℕ → ℕ → ℕ → ℤ × Krnl × ℕ
pte_set_swap cell krnl pgn swptyp swpoff =
    let (_, _) = get_pd_from_pagenum pgn in
    let flagged = setbit (setbit cell pte_present_mask) pte_swapped_mask in
    (success, krnl, setval (setval flagged swptyp pte_swptyp_mask 0) swpoff pte_swpoff_mask 5)

pub pte_set_fpn : ℕ → Krnl → ℕ → ℕ → ℤ × Krnl × ℕ
pte_set_fpn cell krnl pgn fpn =
    let (_, _) = get_pd_from_pagenum pgn in
    let flagged = clrbit (setbit cell pte_present_mask) pte_swapped_mask in
    (success, krnl, setval flagged fpn pte_fpn_mask 0)

pub pte_get_entry : Krnl → ℕ → ℕ
pte_get_entry krnl pgn = let (_, _) = get_pd_from_pagenum pgn in 0

pub pte_set_entry : Krnl → ℕ → ℕ → Outcome (ℤ × Krnl)
pte_set_entry krnl pgn pte_val = do
  mm ← deref krnl.mm
  pgd ← deref mm.pgd
  if ltb pgn (length pgd)
      then ok (success, record krnl { mm = ptr (record mm { pgd = ptr (set pgd pgn pte_val) }) })
      else fault out_of_bounds

-- The walk of find_victim_page once `prev` is set: the last page, and the list without it.
pub take_last : ℕ → Chain ℕ → Outcome (ℕ × Chain ℕ)
take_last pg end = ok (pg, end)
take_last pg dangling = fault uninitialised
take_last pg (node next rest) = do (last, list) ← take_last next rest; ok (last, node pg list)

-- Where the list has one page only, `prev` is still NULL when its link is written.
pub victim_of : Mm → Chain ℕ → ℕ → Outcome (ℤ × Mm × ℕ)
victim_of mm end retpgn = ok (failure, mm, retpgn)
victim_of mm dangling retpgn = fault uninitialised
victim_of mm (node pg end) retpgn = fault null_deref
victim_of mm (node pg dangling) retpgn = fault uninitialised
victim_of mm (node pg (node next rest)) retpgn = do
  (last, list) ← take_last next rest
  ok (success, record mm { fifo_pgn = node pg list }, last)

pub find_victim_page : Mm → ℕ → Outcome (ℤ × Mm × ℕ)
find_victim_page mm retpgn = victim_of mm mm.fifo_pgn retpgn

-- The body of the page fault in pg_getpage: the status is -1 where the function returns early.
-- `vicpgn` and `swpfpn` are the uninitialised locals.
pub page_fault : ℕ → ℕ → Krnl → ℕ → Outcome (ℤ × Krnl)
page_fault vicpgn swpfpn krnl pgn = do
  mm ← deref krnl.mm
  (found, mm', _) ← find_victim_page mm vicpgn
  if is_failure found then ok (failure, record krnl { mm = ptr mm' }) else do
    mswp ← deref krnl.active_mswp
    (status, mswp', _) ← get_freefp mswp swpfpn
    let (_, fifo) = enlist_pgn_node mm'.fifo_pgn pgn
    ok (
        if is_failure status
        then (failure, record krnl { mm = ptr mm'; active_mswp = ptr mswp' })
        else (
          success,
          record krnl { mm = ptr (record mm' { fifo_pgn = fifo }); active_mswp = ptr mswp' },
        ))

-- pg_getpage; `fpn` is the old content of its out-parameter.
pub pg_getpage : ℕ → ℕ → Krnl → ℕ → ℕ → Outcome (ℤ × Krnl × ℕ)
pg_getpage vicpgn swpfpn krnl pgn fpn =
    if page_present (pte_get_entry krnl pgn) == 0
    then (do
      (status, krnl') ← page_fault vicpgn swpfpn krnl pgn
      ok (
          if is_failure status
          then (failure, krnl', fpn)
          else (success, krnl', paging_fpn (pte_get_entry krnl' pgn))))
    else ok (success, krnl, paging_fpn (pte_get_entry krnl pgn))

-- PAGING_PGN of include/mm.h: bits 8 to 21, for pages of 256 bytes.
pub paging_pgn : ℕ → ℕ
paging_pgn addr = bit_and addr (genmask 21 8) / 2 ^ 8

-- The uninitialised locals of pg_getval, pg_setval and pg_getpage.
pub record Locals : Type 0 where
  pub fpn : ℕ
  pub vicpgn : ℕ
  pub swpfpn : ℕ

pub pg_getval : Locals → Krnl → ℕ → ℕ → Outcome (ℤ × Krnl × ℕ)
pg_getval u krnl addr byte = do
  (status, krnl', _) ← pg_getpage u.vicpgn u.swpfpn krnl (paging_pgn addr) u.fpn
  ok (if is_zero status then success else failure, krnl', byte)

pub pg_setval : Locals → Krnl → ℕ → ℕ → Outcome (ℤ × Krnl)
pg_setval u krnl addr value = do
  (status, krnl', _) ← pg_getpage u.vicpgn u.swpfpn krnl (paging_pgn addr) u.fpn
  ok (if is_zero status then success else failure, krnl')

-- __read; the status of pg_getval is dropped, and no lock is taken.
pub read : Locals → Machine → ℤ → ℤ → ℕ → ℕ → Outcome (ℤ × Machine × ℕ)
read u m vmaid rgid offset byte = do
  mm ← deref m.os.mm
  entry ← deref (get_symrg_byid mm rgid)
  currg ← symrg_at mm entry
  (_, krnl, byte') ← pg_getval u m.os (add64 currg.rg_start offset % 2 ^ 32) byte
  ok (success, record m { os = krnl }, byte')

-- libread: `*destination` gets the local byte, which holds `byte` before the call.
pub libread : Locals → ℕ → Machine → ℕ → ℕ → Outcome (ℤ × Machine × ℕ)
libread u byte m source offset = do
  (val, m', byte') ← read u m (pos 0) (to_int source) offset byte
  ok (val, m', char_to_u32 byte')

-- __write from the test of the two pointers on.
pub write_region : Locals → Machine → Mm → Ptr ℤ → Ptr ℕ → ℕ → ℕ → Outcome (ℤ × Machine)
write_region u m mm null cur_vma offset value = ok (failure, m)
write_region u m mm wild cur_vma offset value = fault uninitialised
write_region u m mm (ptr entry) null offset value = ok (failure, m)
write_region u m mm (ptr entry) wild offset value = fault uninitialised
write_region u m mm (ptr entry) (ptr i) offset value = do
  currg ← symrg_at mm entry
  (_, krnl) ← pg_setval u m.os (add64 currg.rg_start offset % 2 ^ 32) value
  ok (success, record m { os = krnl })

-- __write between its lock and its unlock; the status of pg_setval is dropped.
pub write_held : Locals → Machine → ℤ → ℤ → ℕ → ℕ → Outcome (ℤ × Machine)
write_held u m vmaid rgid offset value = do
  mm ← deref m.os.mm
  cur_vma ← get_vma_by_num mm vmaid
  write_region u m mm (get_symrg_byid mm rgid) cur_vma offset value

pub write : Locals → Machine → ℤ → ℤ → ℕ → ℕ → Outcome (ℤ × Machine)
write u m0 vmaid rgid offset value = do
  m ← lock m0
  (status, m') ← write_held u m vmaid rgid offset value
  ok (status, unlock m')

pub libwrite : Locals → Machine → ℕ → ℕ → ℕ → Outcome (ℤ × Machine)
libwrite u m value destination offset = do
  (val, m') ← write u m (pos 0) (to_int destination) offset value
  ok (if is_failure val then (failure, m') else (val, m'))

-- PAGING_MAX_PGN
abbrev pub paging_max_pgn : ℕ
paging_max_pgn = (2 ^ 22 + 256 - 1) / 256

-- One round of free_pcb_memph on `mm->pgd[pagenum]`, which is cut to 32 bits.
pub free_page : Option ℕ → Ptr Memphy → Ptr Memphy → Outcome (Ptr Memphy × Ptr Memphy)
free_page none mram mswp = fault out_of_bounds
free_page (some entry) mram mswp =
    if page_present (entry % 2 ^ 32) == 0
    then (do mp ← deref mswp; ok (mram, ptr (put_freefp mp (paging_swp (entry % 2 ^ 32))).1))
    else (do mp ← deref mram; ok (ptr (put_freefp mp (paging_fpn (entry % 2 ^ 32))).1, mswp))

-- The `for` of free_pcb_memph, with `left` pages to go.
pub free_loop : ℕ → ℕ → List ℕ → Ptr Memphy → Ptr Memphy → Outcome (Ptr Memphy × Ptr Memphy)
free_loop zero pagenum pgd mram mswp = ok (mram, mswp)
free_loop (suc left) pagenum pgd mram mswp = do
  (mram', mswp') ← free_page (get_elem? pgd pagenum) mram mswp
  free_loop left (pagenum + 1) pgd mram' mswp'

-- free_pcb_memph
pub free_pcb_memph : Machine → Outcome (ℤ × Machine)
free_pcb_memph m0 = do
  m ← lock m0
  mm ← deref m.os.mm
  pgd ← deref mm.pgd
  (mram, mswp) ← free_loop paging_max_pgn 0 pgd m.os.mram m.os.active_mswp
  ok (success, unlock (record m { os = record m.os { mram = mram; active_mswp = mswp } }))
