-- ===== src/Syscall.antt =====
-- src/syscall.c, src/sys_mem.c, src/sys_listsyscall.c and src/libstd.c: the system calls.
-- The build makes the cases of `_syscall` from syscall.tbl; they are the parameter `table`, a list
-- of call numbers with their entry points. Output is not modelled.
pub mod Dispatch
use hk252_co2017_nhom2_btl.Prelude.{
  List, Option, Outcome, [], char_to_arg, if◌then◌else◌, negsuc, none, ok, pos, some, success,
  to_int, wild, ℕ, ℤ, ◌%◌, ◌==◌, ◌>>=◌, ◌>>◌, ◌∷◌,
}
use hk252_co2017_nhom2_btl.Memphy
use hk252_co2017_nhom2_btl.Memphy.{Memphy}
use hk252_co2017_nhom2_btl.Mm.{Krnl}
use hk252_co2017_nhom2_btl.Vma.{mm_swap_page, inc_vma_limit}

-- `struct sc_regs`, of which the code uses three fields.
pub record Regs : Type 0 where
  pub a1 : ℕ
  pub a2 : ℕ
  pub a3 : ℕ

-- The entry points that the repository implements.
pub data Entry : Type 0 where
  listsyscall memmap : Entry

abbrev pub Table : Type 0
Table = List (ℕ × Entry)

-- vmap_pgd_memset
pub vmap_pgd_memset : Krnl → ℕ → ℤ → ℤ × Krnl
vmap_pgd_memset krnl addr pgnum = (success, krnl)

-- `malloc(sizeof(struct krnl_t))`: no pointer of the dummy kernel is ever set.
abbrev pub dummy_krnl : Krnl
dummy_krnl = record { mm = wild; mram = wild; active_mswp = wild }

-- The SYSMEM_ codes of include/libmem.h.
pub data MemOp : Type 0 where
  map_op inc_op swp_op io_read io_write other_op : MemOp

unfoldable pub mem_op : ℤ → MemOp
mem_op (negsuc n) = other_op
mem_op (pos n) =
    if n == 1
    then map_op
    else if n == 2
    then inc_op
    else if n == 3
    then swp_op
    else if n == 4
    then io_read
    else if n == 5
    then io_write
    else other_op

-- The `switch` of __sys_memmap. Every operation works on the dummy caller's kernel, which is
-- dropped; `value` and `junk` are uninitialised bytes.
pub memmap_op : (ℕ → ℕ) → ℕ → Regs → MemOp → Outcome Regs
memmap_op junk value regs map_op =
    let (_, _) = vmap_pgd_memset dummy_krnl regs.a2 (to_int regs.a3) in ok regs
memmap_op junk value regs inc_op =
    let (_, _) = inc_vma_limit dummy_krnl (to_int regs.a2) regs.a3 in ok regs
memmap_op junk value regs swp_op = do _ ← mm_swap_page junk dummy_krnl regs.a2 regs.a3; ok regs
memmap_op junk value regs io_read = do
  (_, _, byte) ← Memphy.read dummy_krnl.mram regs.a2 value
  ok (record regs { a3 = char_to_arg byte })
memmap_op junk value regs io_write = do
  _ ← Memphy.write dummy_krnl.mram regs.a2 (regs.a3 % 256)
  ok regs
memmap_op junk value regs other_op = ok regs

-- __sys_memmap: the kernel of the caller is not touched.
pub sys_memmap : (ℕ → ℕ) → ℕ → Krnl → ℕ → Regs → Outcome (ℤ × Regs)
sys_memmap junk value krnl pid regs = do
  regs' ← memmap_op junk value regs (mem_op (to_int regs.a1))
  ok (success, regs')

-- __sys_listsyscall prints the table.
pub sys_listsyscall : Krnl → ℕ → Regs → ℤ × Regs
sys_listsyscall krnl pid regs = (success, regs)

-- __sys_ni_syscall
pub sys_ni_syscall : Krnl → Regs → ℤ × Regs
sys_ni_syscall krnl regs = (success, regs)

unfoldable pub entry_at : Table → ℕ → Option Entry
entry_at [] nr = none
entry_at ((n, e) ∷ table) nr = if n == nr then some e else entry_at table nr

-- _syscall
pub syscall : Table → (ℕ → ℕ) → ℕ → Krnl → ℕ → ℕ → Regs → Outcome (ℤ × Regs)
syscall table junk value krnl pid nr regs = elim (entry_at table nr) [
  | none ↦ ok (sys_ni_syscall krnl regs)
  | some listsyscall ↦ ok (sys_listsyscall krnl pid regs)
  | some memmap ↦ sys_memmap junk value krnl pid regs
]

pub libsyscall : Table → (ℕ → ℕ) → ℕ → Krnl → ℕ → ℕ → ℕ → ℕ → ℕ → Outcome ℤ
libsyscall table junk value krnl pid syscall_idx a1 a2 a3 = do
  (status, _) ← syscall table junk value krnl pid syscall_idx (record { a1 = a1; a2 = a2; a3 = a3 })
  ok status
