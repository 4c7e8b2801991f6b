-- ===== src/Tests/Simulation.antt =====
-- The threads of a CPU and of the loader, with a scheduler that keeps one list (src/os.c).
use hk252_co2017_nhom2_btl.Prelude.{
  List, Outcome, Ptr, [], arith, false, null, ok, pos, ptr, refl, true, ℕ, ◌++◌, ◌+◌, ◌∷◌,
}
use hk252_co2017_nhom2_btl.Loader.{Loaded}
use hk252_co2017_nhom2_btl.Os.{Scheduler, World, LdArg, LdState}
use hk252_co2017_nhom2_btl.Cpu.{Inst, calc}
use hk252_co2017_nhom2_btl.Config.{Config}
use hk252_co2017_nhom2_btl.Boot.{boot}
use hk252_co2017_nhom2_btl.Boot.Devices.{IsBooted, boot-IsBooted}
use hk252_co2017_nhom2_btl.Tests.Programs.{sched, process}
use hk252_co2017_nhom2_btl.Tests.Machines.{machine}
use hk252_co2017_nhom2_btl.Tests.Pages.{device}

abbrev first_out : List ℕ → Outcome (Ptr ℕ × List ℕ)
first_out [] = ok (null, [])
first_out (h ∷ q) = ok (ptr h, q)

abbrev pub one_list : Scheduler (List ℕ)
one_list = record {
  get_proc = first_out;
  put_proc = λ q h prio. ok (q ++ h ∷ []);
  add_proc = λ q h prio. ok (q ++ h ∷ []);
}

abbrev world : List ℕ → World (List ℕ)
world q = record { queues = q; procs = λ h. process; prio = λ h. 0; machine = machine; done = true }

abbrev pub step : Inst
step = record { opcode = calc; arg_0 = 0; arg_1 = 0; arg_2 = 0; arg_3 = 0 }

abbrev load_any : ℕ → List ℕ → Outcome (Loaded × ℕ)
load_any pid path =
    ok
      (record { pcb = record process { pid = pid }; priority = 0; bp = 1024; path = path }, pid + 1)

abbrev two : List LdArg
two =
    record { path = []; start_time = 3; prio = 0 }
    ∷ record { path = []; start_time = 1; prio = 2 }
    ∷ []

abbrev before : LdState (List ℕ)
before = record { now = 0; next = 0; avail_pid = 1; world = record (world []) { done = false } }

abbrev config : Config
config = record {
  time_slot = pos 2;
  num_cpus = pos 1;
  num_processes = pos 2;
  memramsz = 2048;
  memswpsz = 512 ∷ 0 ∷ 0 ∷ 0 ∷ [];
  ld_processes = two;
}

boot-IsBooted_example : IsBooted 1 2048 512 (boot config device (λ i. device) sched)
boot-IsBooted_example =
    boot-IsBooted config device (λ i. device) sched 1 512 (0 ∷ 0 ∷ 0 ∷ []) refl refl (omega arith)
      (omega arith) (omega arith) (omega arith)
