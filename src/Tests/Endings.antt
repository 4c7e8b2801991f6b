-- ===== src/Tests/Endings.antt =====
-- A run of the whole program with one CPU and one process, to the end of main (src/os.c).
use hk252_co2017_nhom2_btl.Prelude.{
  List, [], arith, refl, suc, zero, ℕ, ◌*◌, ◌+◌, ◌<◌, ◌≡◌, ◌≤◌, ◌⊎◌,
}
use hk252_co2017_nhom2_btl.Tests.WholeRun.{lifted, main_run, threads_run}
use hk252_co2017_nhom2_btl.Tests.Machines.{machine}
use hk252_co2017_nhom2_btl.Tests.Pages.{device}
use hk252_co2017_nhom2_btl.Tests.Concurrent.{block, setting, shared, one, whole_run}
use hk252_co2017_nhom2_btl.Threads.{CpuPlace}
use hk252_co2017_nhom2_btl.Main.{Program, Run, created, joins_cpu, returned}
use hk252_co2017_nhom2_btl.Threads.Steps.{started}
use hk252_co2017_nhom2_btl.Main.Progress.{CanProceed}
use hk252_co2017_nhom2_btl.Main.Finish.{Run_finishes}

abbrev ended_run :
    (k : ℕ) × Run setting 1
      (created 1 shared one)
      k
      (record { sim = whole_run.0; main = joins_cpu 0 })
ended_run = lifted setting 1 (started 1 shared one) (joins_cpu 0) whole_run.1

halted : (i : ℕ) → i < 1 → whole_run.0.cpu i ≡ CpuPlace.halted
unfolding threads_run
halted zero lt = refl
halted (suc i) lt = absurd (omega (arith, lt))

abbrev main_end :
    (k : ℕ) × (p : Program (List ℕ)) × Run setting 1
      (record { sim = whole_run.0; main = joins_cpu 0 })
      k
      p
main_end = main_run setting.load device device machine [] 0 block 2 refl

Run_finishes_example :
    (main_end.0 ≤ 6 * 1 + 18) × (CanProceed setting 1 main_end.1 ⊎ (main_end.1.main ≡ returned))
unfolding threads_run main_run
Run_finishes_example = Run_finishes setting 1 shared one ended_run.1 (halted, refl) main_end.2
