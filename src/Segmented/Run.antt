-- ===== src/Segmented/Run.antt =====
-- `run` of src/cpu.c in the build without MM_PAGING: one step of a process, on the memory of
-- src/mem.c.
pub mod Steps
use hk252_co2017_nhom2_btl.Prelude.{
  List, Outcome, fault, get_elem?, if◌then◌else◌, leb, none, ok, out_of_bounds, pos, some, success,
  ℕ, ℤ, ◌%◌, ◌+◌, ◌>>=◌, ◌>>◌, ◌^◌,
}
use hk252_co2017_nhom2_btl.Mm.{Krnl}
use hk252_co2017_nhom2_btl.Cpu.{Inst, Opcode, calc, syscall, u32}
use hk252_co2017_nhom2_btl.Syscall.{Table, libsyscall}
use hk252_co2017_nhom2_btl.Segmented.{Memory, SegPcb, alloc, free_data, read, write}
use hk252_co2017_nhom2_btl.Cpu

-- `struct pcb_t` as far as `run` uses it; `size` is the code segment's own count of its
-- instructions.
pub record SegProc : Type 0 where
  pub pid : ℕ
  pub text : List Inst
  pub size : ℕ
  pub pc : ℕ
  pub krnl : Krnl
  pub seg : SegPcb

-- The table of system calls, and what the locals hold that the functions do not initialise: for
-- system calls, for the physical address, and for the byte of a read.
pub record SegSurroundings : Type 0 where
  pub table : Table
  pub junk : ℕ → ℕ
  pub value : ℕ
  pub physical : ℕ
  pub byte : ℕ

-- The `switch` of `run`; the instructions of the kernel memory have no case of their own.
pub seg_execute : SegSurroundings → SegProc → Memory → Inst → Opcode → Outcome (ℤ × SegPcb × Memory)
seg_execute s proc m ins calc = ok (success, proc.seg, m)
seg_execute s proc m ins Cpu.alloc = do
  (stat, m', seg) ← alloc m proc.seg (u32 ins.arg_0) (u32 ins.arg_1)
  ok (stat, seg, m')
seg_execute s proc m ins Cpu.free = do
  stat ← free_data proc.seg (u32 ins.arg_0)
  ok (stat, proc.seg, m)
seg_execute s proc m ins Cpu.read = do
  (stat, seg) ← read m s.physical s.byte proc.seg (u32 ins.arg_0) (u32 ins.arg_1) (u32 ins.arg_2)
  ok (stat, seg, m)
seg_execute s proc m ins Cpu.write = do
  (stat, m') ← write m s.physical proc.seg (ins.arg_0 % 256) (u32 ins.arg_1) (u32 ins.arg_2)
  ok (stat, proc.seg, m')
seg_execute s proc m ins syscall = do
  stat ←
      libsyscall s.table s.junk s.value proc.krnl proc.pid (u32 ins.arg_0) ins.arg_1 ins.arg_2
        ins.arg_3
  ok (stat, proc.seg, m)
seg_execute s proc m ins Cpu.kmalloc = ok (pos 1, proc.seg, m)
seg_execute s proc m ins Cpu.kmem_cache_create = ok (pos 1, proc.seg, m)
seg_execute s proc m ins Cpu.kmem_cache_alloc = ok (pos 1, proc.seg, m)
seg_execute s proc m ins Cpu.copy_from_user = ok (pos 1, proc.seg, m)
seg_execute s proc m ins Cpu.copy_to_user = ok (pos 1, proc.seg, m)

-- `run`; the array of the code segment is not checked.
pub seg_run : SegSurroundings → SegProc → Memory → Outcome (ℤ × SegProc × Memory)
seg_run s proc m = if leb proc.size proc.pc then ok (pos 1, proc, m) else do
  ins ← elim (get_elem? proc.text proc.pc) [ none ↦ fault out_of_bounds | some i ↦ ok i ]
  (stat, seg, m') ← seg_execute s proc m ins ins.opcode
  ok (stat, record proc { pc = (proc.pc + 1) % 2 ^ 32; seg = seg }, m')
