-- ===== src/Syscall/Dispatch.antt =====
-- What a program gets from each system call.
use hk252_co2017_nhom2_btl.Prelude.{
  Bool, arith, false, fault, if◌then◌else◌, ok, refl, some, success, to_int, true, uninitialised, ℕ,
  ◌%◌, ◌≡◌, ◌≢◌,
}
use hk252_co2017_nhom2_btl.Memphy.Storage.{read-wild, write-wild}
use hk252_co2017_nhom2_btl.Mm.{Krnl}
use hk252_co2017_nhom2_btl.Vma.Lookup.{mm_swap_page-wild}
use hk252_co2017_nhom2_btl.Syscall.{
  vmap_pgd_memset, Regs, memmap, Table, MemOp, map_op, inc_op, swp_op, io_read, io_write, other_op,
  mem_op, dummy_krnl, memmap_op, sys_memmap, sys_listsyscall, sys_ni_syscall, entry_at, syscall,
  libsyscall,
}

-- The operations of memmap that reach a device: SYSMEM_SWP_OP, SYSMEM_IO_READ, SYSMEM_IO_WRITE.
abbrev pub reaches_device : MemOp → Bool
reaches_device swp_op = true
reaches_device io_read = true
reaches_device io_write = true
reaches_device _ = false

memmap_op_lem :
    (junk : ℕ → ℕ) (value : ℕ) (regs : Regs) (op : MemOp)
    → memmap_op junk value regs op ≡ (if reaches_device op then fault uninitialised else ok regs)
unfolding memmap_op
memmap_op_lem junk value regs map_op = refl
memmap_op_lem junk value regs inc_op = refl
memmap_op_lem junk value regs swp_op = rw (mm_swap_page-wild junk dummy_krnl regs.a2 regs.a3 refl)
memmap_op_lem junk value regs io_read = rw (read-wild regs.a2 value)
memmap_op_lem junk value regs io_write = rw (write-wild regs.a2 (regs.a3 % 256))
memmap_op_lem junk value regs other_op = refl

-- A call whose number stands for memmap, with the operation for swapping, reading or writing,
-- follows a device pointer that was never set; with every other operation, an unknown one included,
-- it reports success and leaves its arguments as they were.
syscall-memmap :
    (table : Table) (junk : ℕ → ℕ) (value : ℕ) (krnl : Krnl) (pid nr : ℕ) (regs : Regs)
    → entry_at table nr ≡ some memmap
    → syscall table junk value krnl pid nr regs ≡ (
        if reaches_device (mem_op (to_int regs.a1))
        then fault uninitialised
        else ok (success, regs))
unfolding syscall sys_memmap
syscall-memmap table junk value krnl pid nr regs e =
    ground (arith, e, memmap_op_lem junk value regs (mem_op (to_int regs.a1)))

-- libsyscall reports success for every number that does not stand for memmap, one that is missing
-- from the table included.
libsyscall-unknown :
    (table : Table) (junk : ℕ → ℕ) (value : ℕ) (krnl : Krnl) (pid nr a1 a2 a3 : ℕ)
    → entry_at table nr ≢ some memmap
    → libsyscall table junk value krnl pid nr a1 a2 a3 ≡ ok success
unfolding libsyscall syscall sys_listsyscall sys_ni_syscall
libsyscall-unknown table junk value krnl pid nr a1 a2 a3 h = ground arith

-- SYSMEM_INC_OP succeeds without an effect, whatever entry the table has for the number.
pub syscall-inc :
    (table : Table) (junk : ℕ → ℕ) (value : ℕ) (krnl : Krnl) (pid nr a2 a3 : ℕ)
    → syscall table junk value krnl pid nr (record { a1 = 2; a2 = a2; a3 = a3 })
      ≡ ok (success, record { a1 = 2; a2 = a2; a3 = a3 })
unfolding syscall sys_memmap sys_listsyscall sys_ni_syscall memmap_op mem_op vmap_pgd_memset
syscall-inc table junk value krnl pid nr a2 a3 = ground arith
