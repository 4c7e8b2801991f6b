-- ===== src/Cpu.antt =====
-- src/cpu.c under MM_PAGING, with the instructions and the process of include/common.h: one step
-- of a process.
pub mod Step
pub mod Program
use hk252_co2017_nhom2_btl.Prelude.{
  List, Outcome, fault, get_elem?, if◌then◌else◌, leb, none, ok, out_of_bounds, pos, some, success,
  ℕ, ℤ, ◌%◌, ◌+◌, ◌>>=◌, ◌>>◌, ◌^◌,
}
use hk252_co2017_nhom2_btl.Mm.{Machine}
use hk252_co2017_nhom2_btl.Syscall.{Table, libsyscall}
use hk252_co2017_nhom2_btl.Alloc.{liballoc, libfree}
use hk252_co2017_nhom2_btl.Paging.{Locals, libread, libwrite}
use hk252_co2017_nhom2_btl.Kmem.{
  libkmem_malloc, libkmem_cache_pool_create, libkmem_cache_alloc, libkmem_copy_from_user,
  libkmem_copy_to_user,
}

-- `enum ins_opcode_t`
pub data Opcode : Type 0 where
  calc alloc free read write kmalloc kmem_cache_create kmem_cache_alloc : Opcode
  copy_from_user copy_to_user syscall : Opcode

-- `struct inst_t`, with 64-bit arguments
pub record Inst : Type 0 where
  pub opcode : Opcode
  pub arg_0 : ℕ
  pub arg_1 : ℕ
  pub arg_2 : ℕ
  pub arg_3 : ℕ

-- `struct pcb_t` with its code segment, as far as `run` uses it; `size` is the segment's own count
-- of its instructions, and the kernel that the process points to is the machine.
pub record Pcb : Type 0 where
  pub pid : ℕ
  pub text : List Inst
  pub size : ℕ
  pub pc : ℕ
  pub regs : List ℕ

-- The conversion of an argument to `uint32_t`.
abbrev pub u32 : ℕ → ℕ
u32 n = n % 2 ^ 32

-- What an instruction may find: the table of system calls, and the uninitialised bytes and locals
-- of the functions that it reaches.
pub record Surroundings : Type 0 where
  pub table : Table
  pub junk : ℕ → ℕ
  pub byte : ℕ
  pub locals : Locals

-- The `switch` of `run`. libread stores into the local copy of the instruction, which is dropped.
pub execute : Surroundings → ℕ → Machine → Inst → Opcode → Outcome (ℤ × Machine)
execute s pid m ins calc = ok (success, m)
execute s pid m ins alloc = liballoc s.table s.junk s.byte pid m ins.arg_0 (u32 ins.arg_1)
execute s pid m ins kmalloc = ok (libkmem_malloc m (u32 ins.arg_0) (u32 ins.arg_1))
execute s pid m ins kmem_cache_create =
    ok (libkmem_cache_pool_create m (u32 ins.arg_0) (u32 ins.arg_1) (u32 ins.arg_2))
execute s pid m ins kmem_cache_alloc = ok (libkmem_cache_alloc m (u32 ins.arg_0) (u32 ins.arg_1))
execute s pid m ins copy_from_user =
    ok (libkmem_copy_from_user m (u32 ins.arg_0) (u32 ins.arg_1) (u32 ins.arg_2) (u32 ins.arg_3))
execute s pid m ins copy_to_user =
    ok (libkmem_copy_to_user m (u32 ins.arg_0) (u32 ins.arg_1) (u32 ins.arg_2) (u32 ins.arg_3))
execute s pid m ins free = libfree m (u32 ins.arg_0)
execute s pid m ins read = do
  (stat, m', arg_2) ← libread s.locals s.byte m (u32 ins.arg_0) ins.arg_1
  ok (stat, m')
execute s pid m ins write = libwrite s.locals m (ins.arg_0 % 256) (u32 ins.arg_1) ins.arg_2
execute s pid m ins syscall = do
  stat ← libsyscall s.table s.junk s.byte m.os pid (u32 ins.arg_0) ins.arg_1 ins.arg_2 ins.arg_3
  ok (stat, m)

-- The instruction at the program counter; the array of the code segment is not checked.
pub fetch : Pcb → Outcome Inst
fetch proc = elim (get_elem? proc.text proc.pc) [ none ↦ fault out_of_bounds | some i ↦ ok i ]

pub run : Surroundings → Pcb → Machine → Outcome (ℤ × Pcb × Machine)
run s proc m = if leb proc.size proc.pc then ok (pos 1, proc, m) else do
  ins ← fetch proc
  (stat, m') ← execute s proc.pid m ins ins.opcode
  ok (stat, record proc { pc = (proc.pc + 1) % 2 ^ 32 }, m')
