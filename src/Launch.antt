-- ===== src/Launch.antt =====
-- main of src/os.c from its arguments to the threads: the path of the configuration file,
-- read_config, what main sets up, and the threads that it creates.
pub mod Stalled
use hk252_co2017_nhom2_btl.Prelude.{
  Chain, List, Option, Outcome, [], false, fault, if◌then◌else◌, length, ltb, null, ok,
  out_of_bounds, pos_part, ℕ, ◌++◌, ◌>>=◌, ◌>>◌, ◌∷◌,
}
use hk252_co2017_nhom2_btl.Memphy.{Memphy}
use hk252_co2017_nhom2_btl.Mm.{Machine, Mm, Region}
use hk252_co2017_nhom2_btl.Sched.{Sched}
use hk252_co2017_nhom2_btl.Cpu.{Inst, Pcb, Surroundings}
use hk252_co2017_nhom2_btl.Loader.{Loaded, Scanner, codes, load}
use hk252_co2017_nhom2_btl.Os.{LdArg, Scheduler}
use hk252_co2017_nhom2_btl.Config.{Config, read_config}
use hk252_co2017_nhom2_btl.Boot.{Booted, boot}
use hk252_co2017_nhom2_btl.Threads.{Setting, Shared}
use hk252_co2017_nhom2_btl.Main.{Program, created}

-- What the program gets from stdio, from malloc, and in variables that are not initialised. `old` and
-- `blank` are the blocks of the call of load for a process number, and `procs` and `prio` stand at the
-- handles that no process has yet.
pub record Host (S : Type 0) : Type 0 where
  pub scanner : Scanner S
  pub fopen : List ℕ → Option S
  pub blank_arg : ℕ → LdArg
  pub old : ℕ → Loaded
  pub blank : ℕ → ℕ → Inst
  pub procs : ℕ → Pcb
  pub prio : ℕ → ℕ
  pub surroundings : Surroundings
  pub blank_mm : ℕ → Mm
  pub freerg : Chain Region
  pub old_ram : Memphy
  pub old_swp : ℕ → Memphy
  pub old_sched : Sched

-- main prints its usage, or has created the threads of `num_cpus` CPUs, of the loader and of the timer.
pub data Launched (Q : Type 0) : Type 0 where
  usage : Launched Q
  launched : (env : Setting Q) (num_cpus : ℕ) (program : Program Q) → Launched Q

-- `char path[100]`, with the final 0
pub config_path : List ℕ → Outcome (List ℕ)
config_path name =
    if ltb (length (codes "input/" ++ name)) 100
    then ok (codes "input/" ++ name)
    else fault out_of_bounds

-- `&mswp[0]`
pub first_device : List Memphy → Outcome Memphy
first_device [] = fault out_of_bounds
first_device (mp ∷ mps) = ok mp

-- `os` and `mmvm_lock` at the start
pub static_machine : Machine
static_machine = record {
  os = record { mm = null; mram = null; active_mswp = null };
  mmvm_lock = false;
}

module _ {S Q : Type 0} (h : Host S) (sched : Scheduler Q) (queues_of : Sched → Q) where
  abbrev pub booted : Config → Booted
  booted cfg = boot cfg h.old_ram h.old_swp h.old_sched

  -- What the threads find that does not change
  abbrev pub setting_of : Config → Memphy → Setting Q
  setting_of cfg active_mswp = record {
    sched = sched;
    surroundings = h.surroundings;
    time_slot = cfg.time_slot;
    load = λ pid path. load h.scanner (h.old pid) (h.blank pid) pid path (h.fopen path);
    blank_mm = h.blank_mm;
    freerg = h.freerg;
    mram = (booted cfg).mram;
    active_mswp = active_mswp;
  }

  -- What they share at the start: the queues that init_scheduler leaves, and the static variables
  abbrev pub shared_of : Config → Shared Q
  shared_of cfg = record {
    world = record {
      queues = queues_of (booted cfg).sched;
      procs = h.procs;
      prio = h.prio;
      machine = static_machine;
      done = false;
    };
    next = 0;
    avail_pid = 1;
  }

  abbrev pub program_of : Config → Program Q
  program_of cfg = created (pos_part cfg.num_cpus) (shared_of cfg) cfg.ld_processes

  -- main, on its arguments after the name of the program
  pub launch : List (List ℕ) → Outcome (Launched Q)
  launch [] = ok usage
  launch (name ∷ []) = do
    path ← config_path name
    cfg ← read_config h.scanner h.blank_arg (h.fopen path)
    active ← first_device (booted cfg).mswp
    ok (launched (setting_of cfg active) (pos_part cfg.num_cpus) (program_of cfg))
  launch (name ∷ more ∷ rest) = ok usage
