-- ===== src/Cpu/Program.antt =====
-- A process run to its end, instruction by instruction.
use hk252_co2017_nhom2_btl.Prelude.{
  Always, Always-mono, Always-trans, Outcome, ap, arith, dec_lt, ok, refl, suc, zero, ℕ, ℤ, ◌+◌,
  ◌<◌, ◌>>=◌, ◌^◌, ◌∙◌, ◌≡◌, ◌≤◌,
}
use hk252_co2017_nhom2_btl.Mm.{Machine}
use hk252_co2017_nhom2_btl.Cpu.{Pcb, Surroundings, run}
use hk252_co2017_nhom2_btl.Cpu.Step.{run-finished, HasAdvanced, run-advances}

-- The calls of `run` on one process, `n` times in a row, statuses dropped.
pub run_times : Surroundings → ℕ → Pcb → Machine → Outcome (Pcb × Machine)
run_times s zero proc m = ok (proc, m)
run_times s (suc n) proc m = do (_, proc', m') ← run s proc m; run_times s n proc' m'

abbrev pub HasEnded : Pcb → Machine → Pcb × Machine → Type 0
HasEnded proc m r = (r.0 ≡ record proc { pc = proc.size }) × (r.1.os.mram ≡ m.os.mram)

-- When a process of fewer than 2 ^ 32 instructions, whose program counter is not past the end, has
-- run at least as many times as it has instructions left, without a fault, its counter is exactly
-- at the end, nothing else of the process has changed, and neither has RAM.
pub run_times-ends :
    (s : Surroundings) (n : ℕ) (proc : Pcb) (m : Machine)
    → proc.pc ≤ proc.size
    → proc.size ≤ proc.pc + n
    → proc.size < 2 ^ 32
    → Always (HasEnded proc m) (run_times s n proc m)
unfolding run_times
run_times-ends s zero proc m inside enough k =
    (ap (λ (n : ℕ). record proc { pc = n }) (omega arith), refl)
run_times-ends s (suc n) proc m inside enough k = elim (dec_lt proc.pc proc.size) [
  | yes more ↦
      Always-trans (HasAdvanced proc m) (HasEnded proc m) (run s proc m) _
        (run-advances s proc m more k)
        λ r step.
          Always-mono (HasEnded r.1 r.2) (HasEnded proc m) (run_times s n r.1 r.2)
            (run_times-ends s n r.1 r.2 (still_inside r.1 more step.0) (still_enough r.1 step.0)
              (kept r.1 step.0))
            (later r step)
  | no over ↦
      rw (run-finished s proc m (omega arith)) (run_times-ends s n proc m inside (omega arith) k)
]
  where
    still_inside :
        (p : Pcb) → proc.pc < proc.size → p ≡ record proc { pc = proc.pc + 1 } → p.pc ≤ p.size
    still_inside p more same = ground (arith, more, same)

    still_enough : (p : Pcb) → p ≡ record proc { pc = proc.pc + 1 } → p.size ≤ p.pc + n
    still_enough p same = ground (arith, enough, same)

    kept : (p : Pcb) → p ≡ record proc { pc = proc.pc + 1 } → p.size < 2 ^ 32
    kept p same = ground (arith, k, same)

    later :
        (r : ℤ × Pcb × Machine)
        → HasAdvanced proc m r
        → (q : Pcb × Machine) → HasEnded r.1 r.2 q
        → HasEnded proc m q
    later r step q over =
        (over.0 ∙ ap (λ (p : Pcb). record p { pc = p.size }) step.0, over.1 ∙ step.1)
