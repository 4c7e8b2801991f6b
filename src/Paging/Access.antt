-- ===== src/Paging/Access.antt =====
-- __read and __write: what they do to memory, what they report, and the lock.
use hk252_co2017_nhom2_btl.Vma.Lookup.{get_vma_by_num-zero}
use hk252_co2017_nhom2_btl.Alloc.Ready.{IsReady}
use hk252_co2017_nhom2_btl.Vma.{get_vma_by_num}
use hk252_co2017_nhom2_btl.Pte.{page_present}
use hk252_co2017_nhom2_btl.FreeList.{get_symrg_byid}
use hk252_co2017_nhom2_btl.Memphy.{get_freefp}
use hk252_co2017_nhom2_btl.Prelude.{
  Always, Always->>=, Always-if, Always-trans, Chain, List, Ptr, add64, ap, arith, deref, end,
  failure, false, get_elem?, if◌then◌else◌, is_failure, lt-length_of_get_elem?, null, ok, pos, ptr,
  refl, some, success, to_int, true, wild, ℕ, ℤ, ◌%◌, ◌==◌, ◌^◌, ◌∙◌, ◌≡◌,
}
use hk252_co2017_nhom2_btl.Mm.{Region, Vma, Mm, Krnl, Machine, lock, symrg_at}
use hk252_co2017_nhom2_btl.Paging.{
  libwrite, libread, victim_of, get_vma_by_num, pte_get_entry, page_present, paging_pgn,
  get_symrg_byid, get_freefp, Locals, find_victim_page, page_fault, pg_getpage, pg_getval,
  pg_setval, read, write, write_held, write_region,
}

-- The RAM device is the one of `krnl`.
abbrev SameRam : Krnl → ℤ × Krnl × ℕ → Type 0
SameRam krnl r = r.1.mram ≡ krnl.mram

page_fault-ram :
    (vic swp : ℕ) (krnl : Krnl) (pgn : ℕ)
    → Always (λ r. r.1.mram ≡ krnl.mram) (page_fault vic swp krnl pgn)
unfolding page_fault
page_fault-ram vic swp krnl pgn = Always->>= _ (deref krnl.mm) _ λ mm.
    Always->>= _ (find_victim_page mm vic) _ λ v. Always-if _ (is_failure v.0) _ _ refl (
      Always->>= _ (deref krnl.active_mswp) _
        λ mswp. Always->>= _ (get_freefp mswp swp) _ λ g. ground arith)

pg_getpage-ram :
    (vic swp : ℕ) (krnl : Krnl) (pgn fpn : ℕ)
    → Always (SameRam krnl) (pg_getpage vic swp krnl pgn fpn)
unfolding pg_getpage
pg_getpage-ram vic swp krnl pgn fpn =
    Always-if (SameRam krnl) (page_present (pte_get_entry krnl pgn) == 0) _ _
      (Always-trans (λ r. r.1.mram ≡ krnl.mram) (SameRam krnl) (page_fault vic swp krnl pgn) _
        (page_fault-ram vic swp krnl pgn) λ r same. ground (arith, same))
      refl

getval-ram :
    (u : Locals) (krnl : Krnl) (addr byte : ℕ)
    → Always (λ r. (r.1.mram ≡ krnl.mram) × (r.2 ≡ byte)) (pg_getval u krnl addr byte)
unfolding pg_getval
getval-ram u krnl addr byte =
    Always-trans (SameRam krnl) _ (pg_getpage u.vicpgn u.swpfpn krnl (paging_pgn addr) u.fpn) _
      (pg_getpage-ram u.vicpgn u.swpfpn krnl (paging_pgn addr) u.fpn) λ r same. (same, refl)

setval-ram :
    (u : Locals) (krnl : Krnl) (addr value : ℕ)
    → Always (λ r. r.1.mram ≡ krnl.mram) (pg_setval u krnl addr value)
unfolding pg_setval
setval-ram u krnl addr value =
    Always-trans (SameRam krnl) _ (pg_getpage u.vicpgn u.swpfpn krnl (paging_pgn addr) u.fpn) _
      (pg_getpage-ram u.vicpgn u.swpfpn krnl (paging_pgn addr) u.fpn) λ r same. same

-- What `__read` leaves of the state and of the byte that it was to fill.
abbrev pub IsInert : Machine → ℕ → ℤ × Machine × ℕ → Type 0
IsInert m byte r =
    (r.0 ≡ success) × (r.1.os.mram ≡ m.os.mram) × (r.2 ≡ byte) × (r.1.mmvm_lock ≡ m.mmvm_lock)

-- Whenever __read returns, for any state and arguments, it reports success, RAM and the lock are as
-- before, and the byte for the result is what it was before the call.
pub read-IsInert :
    (u : Locals) (m : Machine) (vmaid rgid : ℤ) (offset byte : ℕ)
    → Always (IsInert m byte) (read u m vmaid rgid offset byte)
unfolding read pg_getval
read-IsInert u m vmaid rgid offset byte = Always->>= _ (deref m.os.mm) _ λ mm.
    Always->>= _ (deref (get_symrg_byid mm rgid)) _ λ entry.
      Always->>= _ (symrg_at mm entry) _ λ currg.
        Always-trans (λ r. (r.1.mram ≡ m.os.mram) × (r.2 ≡ byte)) (IsInert m byte)
          (pg_getval u m.os (add64 currg.rg_start offset % 2 ^ 32) byte) _
          (getval-ram u m.os (add64 currg.rg_start offset % 2 ^ 32) byte)
          λ r same. (refl, same.0, same.1, refl)

abbrev SameRamOf : Machine → ℤ × Machine → Type 0
SameRamOf m r = r.1.os.mram ≡ m.os.mram

write_region-ram :
    (u : Locals) (m : Machine) (mm : Mm) (entry : Ptr ℤ) (vma : Ptr ℕ) (offset value : ℕ)
    → Always (SameRamOf m) (write_region u m mm entry vma offset value)
unfolding write_region
write_region-ram u m mm null vma offset value = refl
write_region-ram u m mm wild vma offset value = tt
write_region-ram u m mm (ptr e) null offset value = refl
write_region-ram u m mm (ptr e) wild offset value = tt
write_region-ram u m mm (ptr e) (ptr i) offset value =
    Always->>= (SameRamOf m) (symrg_at mm e) _ λ currg.
      Always-trans (λ r. r.1.mram ≡ m.os.mram) (SameRamOf m)
        (pg_setval u m.os (add64 currg.rg_start offset % 2 ^ 32) value) _
        (setval-ram u m.os (add64 currg.rg_start offset % 2 ^ 32) value) λ r same. same

write_held-ram :
    (u : Locals) (m : Machine) (vmaid rgid : ℤ) (offset value : ℕ)
    → Always (SameRamOf m) (write_held u m vmaid rgid offset value)
unfolding write_held
write_held-ram u m vmaid rgid offset value = Always->>= (SameRamOf m) (deref m.os.mm) _ λ mm.
    Always->>= (SameRamOf m) (get_vma_by_num mm vmaid) _
      λ vma. write_region-ram u m mm (get_symrg_byid mm rgid) vma offset value

-- Whenever __write returns, for any state and arguments, RAM is as before and the lock is free.
write-keeps_ram :
    (u : Locals) (m : Machine) (vmaid rgid : ℤ) (offset value : ℕ)
    → Always
        (λ r. (r.1.os.mram ≡ m.os.mram) × (r.1.mmvm_lock ≡ false))
        (write u m vmaid rgid offset value)
unfolding write
write-keeps_ram u m vmaid rgid offset value =
    Always-trans (λ held. held.os ≡ m.os) _ (lock m) _
      (Always-if (λ held. held.os ≡ m.os) m.mmvm_lock _ _ tt refl)
      λ held same.
        Always-trans (SameRamOf held) _ (write_held u held vmaid rgid offset value) _
          (write_held-ram u held vmaid rgid offset value)
          λ r kept. (kept ∙ ap (λ (k : Krnl). k.mram) same, refl)

-- On a machine between two calls where no page is in use, the access of pg_setval to a region that
-- the symbol table holds fails, and __write to that region reports success, with the machine as it
-- was.
write-unreported :
    (u : Locals) (m : Machine) (v : Vma) (rest : Chain Vma) (free_list syms : List Region)
    (i offset value : ℕ) (r : Region) (ready : IsReady m v rest free_list syms)
    → get_elem? syms i ≡ some r
    → ready.mm.fifo_pgn ≡ end
    → (pg_setval u m.os (add64 r.rg_start offset % 2 ^ 32) value ≡ ok (failure, m.os))
      × (write u m (pos 0) (pos i) offset value ≡ ok (success, m))
unfolding write write_held write_region pg_setval pg_getpage page_fault find_victim_page victim_of
    pte_get_entry page_present get_symrg_byid
write-unreported u m v rest fl syms i offset value r ready e f = (
  ground (arith, ready.at_mm, f),
  ground (
    arith,
    ready.unlocked,
    ready.at_mm,
    ready.table,
    ready.full_table,
    lt-length_of_get_elem? syms i e,
    get_vma_by_num-zero ready.mm v rest ready.first_area ready.numbered,
    e,
    f,
  ),
)

-- What an instruction leaves of RAM.
pub libread-ram :
    (u : Locals) (byte : ℕ) (m : Machine) (source offset : ℕ)
    → Always (λ r. r.1.os.mram ≡ m.os.mram) (libread u byte m source offset)
unfolding libread
libread-ram u byte m source offset =
    Always-trans (IsInert m byte) (λ r. r.1.os.mram ≡ m.os.mram) _ _
      (read-IsInert u m (pos 0) (to_int source) offset byte) λ r inert. inert.1

pub libwrite-ram :
    (u : Locals) (m : Machine) (value destination offset : ℕ)
    → Always (SameRamOf m) (libwrite u m value destination offset)
unfolding libwrite
libwrite-ram u m value destination offset =
    Always-trans (λ r. (r.1.os.mram ≡ m.os.mram) × (r.1.mmvm_lock ≡ false)) (SameRamOf m) _ _
      (write-keeps_ram u m (pos 0) (to_int destination) offset value)
      λ r kept.
        elim (is_failure r.0) as (λ b. (if b then (failure, r.1) else r).1.os.mram ≡ m.os.mram) [
          | true ↦ kept.0
          | false ↦ kept.0
        ]
