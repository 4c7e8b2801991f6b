-- ===== src/Tests/Programs.antt =====
-- A scheduler and a program of three instructions (src/sched.c, src/cpu.c).
use hk252_co2017_nhom2_btl.Prelude.{
  Always, [], arith, blocked, false, fault, null, ok, pos, refl, replicate, ℕ, ◌∷◌, ◌≡◌,
}
use hk252_co2017_nhom2_btl.Sched.{Sched, Queue, add_proc, get_proc, put_proc}
use hk252_co2017_nhom2_btl.Cpu.{alloc, write, free, Pcb, Surroundings}
use hk252_co2017_nhom2_btl.Tests.Machines.{machine, calls}
use hk252_co2017_nhom2_btl.Cpu.Program.{HasEnded, run_times, run_times-ends}
use hk252_co2017_nhom2_btl.Sched.Deadlock.{get_proc-deadlock}

abbrev queue : Queue
queue = record { proc = []; size = pos 0 }

abbrev pub sched : Sched
sched = record {
  ready_queue = queue;
  run_queue = queue;
  running_list = queue;
  mlq_ready_queue = replicate 140 queue;
  slot = [];
  queue_lock = false;
  krnl = record { ready_queue = null; mlq_ready_queue = null; running_list = null };
}

abbrev pub surroundings : Surroundings
surroundings = record {
  table = calls;
  junk = λ i. i;
  byte = 0;
  locals = record { fpn = 0; vicpgn = 0; swpfpn = 0 };
}

-- alloc 40 3; write 9 3 2; free 3
abbrev pub process : Pcb
process = record {
  pid = 1;
  text =
      record { opcode = alloc; arg_0 = 40; arg_1 = 3; arg_2 = 0; arg_3 = 0 }
      ∷ record { opcode = write; arg_0 = 9; arg_1 = 3; arg_2 = 2; arg_3 = 0 }
      ∷ record { opcode = free; arg_0 = 3; arg_1 = 0; arg_2 = 0; arg_3 = 0 }
      ∷ [];
  size = 3;
  pc = 0;
  regs = replicate 10 0;
}

run_times-ends_example :
    Always (HasEnded process machine) (run_times surroundings 5 process machine)
run_times-ends_example =
    run_times-ends surroundings 5 process machine (omega arith) (omega arith) (omega arith)

get_proc-deadlock_example :
    (s' : Sched) × (get_proc sched ≡ ok (null, s'))
    × (get_proc s' ≡ fault blocked)
    × ((proc prio : ℕ) → put_proc s' proc prio ≡ fault blocked)
    × ((proc prio : ℕ) → add_proc s' proc prio ≡ fault blocked)
get_proc-deadlock_example = get_proc-deadlock sched refl
