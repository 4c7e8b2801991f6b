-- ===== src/Tests/Launches.antt =====
-- main of src/os.c from its arguments to a state of its threads, with one CPU and one process.
use hk252_co2017_nhom2_btl.Sched.Deadlock.{get_proc-deadlock}
use hk252_co2017_nhom2_btl.Timer.{start, later}
use hk252_co2017_nhom2_btl.Prelude.{
  List, Option, [], arith, end, if◌then◌else◌, length, ok, refl, some, ℕ, ◌<◌, ◌==◌, ◌∷◌, ◌≡◌, ◌≤◌,
}
use hk252_co2017_nhom2_btl.Cpu.{calc}
use hk252_co2017_nhom2_btl.Sched.{Sched}
use hk252_co2017_nhom2_btl.Loader.{Loaded, codes, load}
use hk252_co2017_nhom2_btl.Loader.Load.{all_short, filled, load-Spells, spells_end, spells_next}
use hk252_co2017_nhom2_btl.Config.{Config}
use hk252_co2017_nhom2_btl.Config.Read.{
  Entry, all_fit, arg_of, args_of, entries_end, entries_next, numbers_end, numbers_next,
}
use hk252_co2017_nhom2_btl.Launch.{Host, launch, launched, shared_of}
use hk252_co2017_nhom2_btl.Main.{MainPlace, joins_cpu}
use hk252_co2017_nhom2_btl.Tests.Loading.{Token, number, tokens, word}
use hk252_co2017_nhom2_btl.Tests.Machines.{mm}
use hk252_co2017_nhom2_btl.Tests.Pages.{device}
use hk252_co2017_nhom2_btl.Tests.Programs.{process, sched, surroundings}
use hk252_co2017_nhom2_btl.Tests.Simulation.{step}
use hk252_co2017_nhom2_btl.Tests.WholeRun.{lifted, short}
use hk252_co2017_nhom2_btl.Threads.Steps.{start, later, Reach, cpu_moves, loader_moves, started}
use hk252_co2017_nhom2_btl.Launch.Stalled.{launch_stalled, mlq_program, mlq_setting, config_of}
use hk252_co2017_nhom2_btl.Threads.{Sim, loads, misses_first}
use hk252_co2017_nhom2_btl.Os.Idle.{mlq}
use hk252_co2017_nhom2_btl.Threads.Owners.{owns}
use hk252_co2017_nhom2_btl.Boot.Devices.{boot-queue_lock}

-- The file "2 1 1", "2048 512 0 0 0", "0 s0 0".
abbrev config_file : List Token
config_file =
    number 2
    ∷ number 1
    ∷ number 1
    ∷ number 2048
    ∷ number 512
    ∷ number 0
    ∷ number 0
    ∷ number 0
    ∷ number 0
    ∷ word (codes "s0")
    ∷ number 0
    ∷ []

-- The file "0 1", "calc".
abbrev program_file : List Token
program_file = number 0 ∷ number 1 ∷ word (codes "calc") ∷ []

abbrev entries : List Entry
entries = record { start_time = 0; name = codes "s0"; prio = 0 } ∷ []

-- "input/c" and "input/proc/s0" have different lengths.
abbrev opened : List ℕ → Option (List Token)
opened path = if length path == 7 then some config_file else some program_file

abbrev old : Loaded
old = record { pcb = process; priority = 0; bp = 0; path = [] }

abbrev host : Host (List Token)
host = record {
  scanner = tokens;
  fopen = opened;
  blank_arg = λ i. record { path = []; start_time = 9; prio = 9 };
  old = λ pid. old;
  blank = λ pid i. step;
  procs = λ h. short;
  prio = λ h. 0;
  surroundings = surroundings;
  blank_mm = λ h. mm;
  freerg = end;
  old_ram = device;
  old_swp = λ i. device;
  old_sched = sched;
}

abbrev block : Loaded
block = record { pcb = short; priority = 0; bp = 1024; path = codes "input/proc/s0" }

loads_short :
    load tokens old (λ i. step) 1 (codes "input/proc/s0") (some program_file) ≡ ok (block, 2)
unfolding all_short filled
loads_short =
    load-Spells tokens old (λ i. step) 1 0 (codes "input/proc/s0") program_file _ ((calc, []) ∷ [])
      refl (spells_next refl (refl, refl) spells_end)

abbrev cfg : Config
cfg = config_of 2 1 2048 512 (0 ∷ 0 ∷ 0 ∷ []) entries

-- The loader has loaded the process, and the CPU has found none.
abbrev looked :
    (s : Sim Sched) × Reach
      (mlq_setting host cfg 512)
      1
      (started 1 (shared_of host mlq (λ s. s) cfg) (args_of entries))
      s
unfolding args_of arg_of
looked = (
  _,
  later (later start (loader_moves (loads loads_short))) (
      cpu_moves 0 (omega arith)
        (misses_first (get_proc-deadlock _ (boot-queue_lock cfg device (λ i. device) sched)).1)),
)

launch_stalled_example :
    (launch host mlq (λ s. s) (codes "c" ∷ [])
      ≡ ok (launched (mlq_setting host cfg 512) 1 (mlq_program host cfg)))
    × (◌≡◌ {A = MainPlace} (joins_cpu 0) (joins_cpu 0))
    × ((i : ℕ) → i < 1 → (j : ℕ) → owns (looked.0.cpu i) j ≡ 0)
    × (looked.0.shared.next ≤ 1)
    × (looked.0.clock.ended ≤ 1)
unfolding all_fit
launch_stalled_example =
    launch_stalled host (codes "c") config_file _ _ _ 2 1 2048 512 (0 ∷ 0 ∷ 0 ∷ []) entries
      (omega arith) refl refl
      (numbers_next refl
        (numbers_next refl (numbers_next refl (numbers_next refl (numbers_next refl numbers_end)))))
      refl (entries_next refl refl refl entries_end) refl (omega arith) (omega arith) (omega arith)
      (omega arith)
      (lifted (mlq_setting host cfg 512) 1
        (started 1 (shared_of host mlq (λ s. s) cfg) (args_of entries)) (joins_cpu 0) looked.1).1
