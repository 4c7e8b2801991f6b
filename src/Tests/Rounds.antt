-- ===== src/Tests/Rounds.antt =====
-- A CPU with the scheduler of src/sched.c (src/os.c).
use hk252_co2017_nhom2_btl.Prelude.{arith, end, false, pos, refl, ℕ, ◌<◌, ◌≡◌, ◌≤◌, ◌⊎◌}
use hk252_co2017_nhom2_btl.Sched.{Sched}
use hk252_co2017_nhom2_btl.Sched.Deadlock.{get_proc-deadlock}
use hk252_co2017_nhom2_btl.Os.Idle.{mlq}
use hk252_co2017_nhom2_btl.Threads.Idling.{as_written}
use hk252_co2017_nhom2_btl.Main.{MainPlace, joins_cpu, returned}
use hk252_co2017_nhom2_btl.Main.Stuck.{Run_stalled}
use hk252_co2017_nhom2_btl.Tests.WholeRun.{lifted, short}
use hk252_co2017_nhom2_btl.Threads.{Shared, Sim, Setting, loads, misses_first}
use hk252_co2017_nhom2_btl.Threads.Steps.{cpu_moves, loader_moves, started, Reach, start, later}
use hk252_co2017_nhom2_btl.Threads.Owners.{owns}
use hk252_co2017_nhom2_btl.Tests.Machines.{machine, mm}
use hk252_co2017_nhom2_btl.Tests.Pages.{device}
use hk252_co2017_nhom2_btl.Tests.Programs.{sched, surroundings}
use hk252_co2017_nhom2_btl.Tests.Concurrent.{setting, one}
use hk252_co2017_nhom2_btl.Main.Live.{CallIsStuck, Run_live}
use hk252_co2017_nhom2_btl.Main.Progress.{CanProceed}

abbrev pub setting_as_written : Setting Sched
setting_as_written = record {
  sched = mlq;
  surroundings = surroundings;
  time_slot = pos 2;
  load = setting.load;
  blank_mm = λ h. mm;
  freerg = end;
  mram = device;
  active_mswp = device;
}

abbrev pub shared_as_written : Shared Sched
shared_as_written = record {
  world = record {
    queues = sched;
    procs = λ h. short;
    prio = λ h. 0;
    machine = machine;
    done = false;
  };
  next = 0;
  avail_pid = 1;
}

-- The CPU has found no process.
abbrev refused :
    (s : Sim Sched) × Reach (as_written setting_as_written) 1 (started 1 shared_as_written one) s
refused = (
  _,
  later (later start (loader_moves (loads refl)))
      (cpu_moves 0 (omega arith) (misses_first (get_proc-deadlock sched refl).1)),
)

Run_stalled_example :
    (◌≡◌ {A = MainPlace} (joins_cpu 0) (joins_cpu 0))
    × ((i : ℕ) → i < 1 → (j : ℕ) → owns (refused.0.cpu i) j ≡ 0)
    × (refused.0.shared.next ≤ 1)
    × (refused.0.clock.ended ≤ 1)
Run_stalled_example =
    Run_stalled setting_as_written 1 (omega arith) shared_as_written one refl
      (lifted setting_as_written 1 (started 1 shared_as_written one) (joins_cpu 0) refused.1).1

Run_live_example :
    CanProceed setting_as_written 1 (record { sim = refused.0; main = joins_cpu 0 })
    ⊎ (◌≡◌ {A = MainPlace} (joins_cpu 0) returned)
    ⊎ CallIsStuck setting_as_written 1 (record { sim = refused.0; main = joins_cpu 0 })
Run_live_example =
    Run_live setting_as_written 1 shared_as_written one
      (lifted setting_as_written 1 (started 1 shared_as_written one) (joins_cpu 0) refused.1).1
