-- ===== src/Cpu/Step.antt =====
-- One instruction: the program counter, the registers, and RAM.
use hk252_co2017_nhom2_btl.Kmem.{
  libkmem_copy_to_user, libkmem_copy_from_user, libkmem_cache_alloc, libkmem_cache_pool_create,
  libkmem_malloc,
}
use hk252_co2017_nhom2_btl.Prelude.{
  Always, Always->>=, Always-else, Always-if, Always-trans, ap, arith, get_elem?, leb, lt→not_leb,
  ok, pos, refl, some, success, ℕ, ℤ, ◌%◌, ◌+◌, ◌<◌, ◌^◌, ◌≡◌, ◌≤◌,
}
use hk252_co2017_nhom2_btl.Mm.{Machine}
use hk252_co2017_nhom2_btl.Syscall.{libsyscall}
use hk252_co2017_nhom2_btl.Alloc.Locks.{liballoc-ram, libfree-ram}
use hk252_co2017_nhom2_btl.Paging.Access.{libread-ram, libwrite-ram}
use hk252_co2017_nhom2_btl.Cpu.{
  fetch, Inst, calc, libkmem_copy_to_user, libkmem_copy_from_user, libkmem_cache_alloc,
  libkmem_cache_pool_create, libkmem_malloc, calc, alloc, free, read, write, kmalloc,
  kmem_cache_create, kmem_cache_alloc, copy_from_user, copy_to_user, syscall, u32, fetch, fetch,
  Opcode, Pcb, Inst, Surroundings, execute, run,
}

-- `run` past the last instruction.
pub run-finished :
    (s : Surroundings) (proc : Pcb) (m : Machine)
    → proc.size ≤ proc.pc
    → run s proc m ≡ ok (pos 1, proc, m)
unfolding run
run-finished s proc m h = ground arith

abbrev SameRam : Machine → ℤ × Machine → Type 0
SameRam m r = r.1.os.mram ≡ m.os.mram

execute-ram :
    (s : Surroundings) (pid : ℕ) (m : Machine) (ins : Inst) (op : Opcode)
    → Always (SameRam m) (execute s pid m ins op)
unfolding execute libkmem_malloc libkmem_cache_pool_create libkmem_cache_alloc
    libkmem_copy_from_user libkmem_copy_to_user
execute-ram s pid m ins calc = refl
execute-ram s pid m ins alloc = liballoc-ram s.table s.junk s.byte pid m ins.arg_0 (u32 ins.arg_1)
execute-ram s pid m ins kmalloc = refl
execute-ram s pid m ins kmem_cache_create = refl
execute-ram s pid m ins kmem_cache_alloc = refl
execute-ram s pid m ins copy_from_user = refl
execute-ram s pid m ins copy_to_user = refl
execute-ram s pid m ins free = libfree-ram m (u32 ins.arg_0)
execute-ram s pid m ins read =
    Always-trans (λ r. r.1.os.mram ≡ m.os.mram) (SameRam m) _ _
      (libread-ram s.locals s.byte m (u32 ins.arg_0) ins.arg_1) λ r kept. kept
execute-ram s pid m ins write = libwrite-ram s.locals m (ins.arg_0 % 256) (u32 ins.arg_1) ins.arg_2
execute-ram s pid m ins syscall =
    Always->>= (SameRam m)
      (libsyscall s.table s.junk s.byte m.os pid (u32 ins.arg_0) ins.arg_1 ins.arg_2 ins.arg_3) _
      λ stat. refl

-- What an instruction that is not the last one of the process leaves.
abbrev pub HasAdvanced : Pcb → Machine → ℤ × Pcb × Machine → Type 0
HasAdvanced proc m r = (r.1 ≡ record proc { pc = proc.pc + 1 }) × (r.2.os.mram ≡ m.os.mram)

-- Whenever an instruction before the end of a process of fewer than 2 ^ 32 returns, whatever it is
-- and whatever its status, the program counter has moved by one, nothing else of the process has
-- changed, its registers included, and neither has RAM.
pub run-advances :
    (s : Surroundings) (proc : Pcb) (m : Machine)
    → proc.pc < proc.size
    → proc.size < 2 ^ 32
    → Always (HasAdvanced proc m) (run s proc m)
unfolding run
run-advances s proc m h k =
    Always-else (HasAdvanced proc m) (leb proc.size proc.pc) _ _ (lt→not_leb proc.size proc.pc h) (
      Always->>= (HasAdvanced proc m) (fetch proc) _ λ ins.
        Always-trans (SameRam m) (HasAdvanced proc m) (execute s proc.pid m ins ins.opcode) _
          (execute-ram s proc.pid m ins ins.opcode)
          λ r kept. (ap (λ (n : ℕ). record proc { pc = n }) low, kept))
  where
    low : (proc.pc + 1) % 2 ^ 32 ≡ proc.pc + 1
    low = omega arith

-- An instruction changes nothing of a process but its counter.
abbrev pub SameProgram : Pcb → Pcb → Type 0
SameProgram p q = (c : ℕ) → record p { pc = c } ≡ record q { pc = c }

pub run-SameProgram :
    (s : Surroundings) (proc : Pcb) (m : Machine)
    → Always (λ r. SameProgram r.1 proc) (run s proc m)
unfolding run
run-SameProgram s proc m =
    Always-if (λ r. SameProgram r.1 proc) (leb proc.size proc.pc) _ _ (λ c. refl)
      (Always->>= (λ r. SameProgram r.1 proc) (fetch proc) _
        λ ins.
          Always->>= (λ r. SameProgram r.1 proc) (execute s proc.pid m ins ins.opcode) _
            λ r c. refl)

-- A calc instruction does nothing but move the counter.
pub run-calc :
    (s : Surroundings) (proc : Pcb) (m : Machine) (ins : Inst)
    → proc.pc < proc.size
    → get_elem? proc.text proc.pc ≡ some ins
    → ins.opcode ≡ calc
    → run s proc m ≡ ok (success, record proc { pc = (proc.pc + 1) % 2 ^ 32 }, m)
unfolding run fetch execute
run-calc s proc m ins lt e f = ground (arith, lt, e, f)
