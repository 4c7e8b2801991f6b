-- ===== src/Tests/Concurrent.antt =====
-- Runs of the threads of the loader, of the timer and of one or two CPUs (src/os.c, src/timer.c).
use hk252_co2017_nhom2_btl.Prelude.{List, [], end, false, ok, pos, refl, ℕ, ◌+◌, ◌∷◌}
use hk252_co2017_nhom2_btl.Threads.Clock.{Coupled, Reach-Coupled}
use hk252_co2017_nhom2_btl.Os.{LdArg}
use hk252_co2017_nhom2_btl.Threads.{Shared, Sim, Setting}
use hk252_co2017_nhom2_btl.Threads.Steps.{started, Reach}
use hk252_co2017_nhom2_btl.Tests.Machines.{machine, mm}
use hk252_co2017_nhom2_btl.Tests.WholeRun.{short, threads_run}
use hk252_co2017_nhom2_btl.Loader.{Loaded}
use hk252_co2017_nhom2_btl.Tests.Pages.{device}
use hk252_co2017_nhom2_btl.Tests.Programs.{surroundings}
use hk252_co2017_nhom2_btl.Tests.Simulation.{one_list}

abbrev pub setting : Setting (List ℕ)
setting = record {
  sched = one_list;
  surroundings = surroundings;
  time_slot = pos 2;
  load = λ pid path. ok (record { pcb = short; priority = 0; bp = 1024; path = path }, pid + 1);
  blank_mm = λ h. mm;
  freerg = end;
  mram = device;
  active_mswp = device;
}

abbrev pub shared : Shared (List ℕ)
shared = record {
  world = record {
    queues = [];
    procs = λ h. short;
    prio = λ h. 0;
    machine = machine;
    done = false;
  };
  next = 0;
  avail_pid = 1;
}

abbrev pub one : List LdArg
one = record { path = []; start_time = 0; prio = 0 } ∷ []

abbrev pub block : Loaded
block = record { pcb = short; priority = 0; bp = 1024; path = [] }

-- One CPU runs the process to its end and stops.
abbrev pub whole_run : (s : Sim (List ℕ)) × Reach setting 1 (started 1 shared one) s
whole_run = threads_run setting.load device device machine [] 0 block 2 refl

Reach-Coupled_example : Coupled 1 whole_run.0
Reach-Coupled_example = Reach-Coupled whole_run.1
