-- ===== src/Os.antt =====
-- src/os.c: the threads of a CPU and of the loader. A process is known by its handle, an index of the
-- table `procs`; the scheduler is an interface. Output is not modelled, and neither is free: a handle
-- that was freed is not used again.
pub mod Idle
pub mod Arrivals
mod Kernel
use hk252_co2017_nhom2_btl.Prelude.{
  Bool, Chain, List, Outcome, Ptr, [], fault, if◌then◌else◌, is_zero, ltb, negsuc, null, ok,
  out_of_fuel, pos, ptr, suc, true, uninitialised, update, wild, zero, ℕ, ℤ, ◌%◌, ◌+◌, ◌==◌, ◌>>=◌,
  ◌>>◌, ◌^◌, ◌∷◌,
}
use hk252_co2017_nhom2_btl.Mm.{Region, Mm, Krnl, Machine}
use hk252_co2017_nhom2_btl.Vma.{init_mm}
use hk252_co2017_nhom2_btl.Memphy.{Memphy}
use hk252_co2017_nhom2_btl.Cpu.{Pcb, Surroundings, run}
use hk252_co2017_nhom2_btl.Loader.{Loaded}

-- include/sched.h: what a CPU and the loader ask of the scheduler; `mlq` of Os/Idle has the functions
-- of src/sched.c. add_proc and put_proc take the handle and the priority of the process.
pub record Scheduler (Q : Type 0) : Type 0 where
  pub get_proc : Q → Outcome (Ptr ℕ × Q)
  pub put_proc : Q → ℕ → ℕ → Outcome Q
  pub add_proc : Q → ℕ → ℕ → Outcome Q

-- What the threads share: the queues, the processes with their priorities, the machine, and `done`.
pub record World (Q : Type 0) : Type 0 where
  pub queues : Q
  pub procs : ℕ → Pcb
  pub prio : ℕ → ℕ
  pub machine : Machine
  pub done : Bool

-- The locals of cpu_routine
pub record CpuState : Type 0 where
  pub proc : Ptr ℕ
  pub time_left : ℤ

-- How one round of its loop ends: with next_slot and `continue`, with next_slot after an
-- instruction, or with `break` and detach_event.
pub data Event : Type 0 where
  skipped ran stopped : Event

-- `time_left--`
abbrev pub pred : ℤ → ℤ
pred (pos zero) = negsuc 0
pred (pos (suc n)) = pos n
pred (negsuc n) = negsuc (suc n)

module _ {Q : Type 0} (sched : Scheduler Q) (surroundings : Surroundings) (time_slot : ℤ) where
  -- The end of a round: run, `time_left--`, next_slot.
  unfoldable pub run_slot : ℕ → ℤ → World Q → Outcome (Event × CpuState × World Q)
  run_slot h time_left w = do
    (_, p, m) ← run surroundings (w.procs h) w.machine
    ok (
      ran,
      record { proc = ptr h; time_left = pred time_left },
      record w { procs = update w.procs h p; machine = m },
    )

  -- The round from the second check of `proc` on
  unfoldable pub dispatch : Ptr ℕ → ℤ → World Q → Outcome (Event × CpuState × World Q)
  dispatch null time_left w =
      ok (if w.done then stopped else skipped, record { proc = null; time_left = time_left }, w)
  dispatch wild time_left w = fault uninitialised
  dispatch (ptr h) time_left w = run_slot h (if is_zero time_left then time_slot else time_left) w

  -- The head of the round where no process is running
  unfoldable pub first_load : Ptr ℕ → ℤ → World Q → Outcome (Event × CpuState × World Q)
  first_load null time_left w = ok (skipped, record { proc = null; time_left = time_left }, w)
  first_load wild time_left w = fault uninitialised
  first_load (ptr h) time_left w = dispatch (ptr h) time_left w

  -- The head of the round where process `h` is running
  unfoldable pub recheck : ℕ → ℤ → World Q → Outcome (Event × CpuState × World Q)
  recheck h time_left w =
      if (w.procs h).pc == (w.procs h).size
      then (do (proc, q) ← sched.get_proc w.queues; dispatch proc (pos 0) (record w { queues = q }))
      else if is_zero time_left
      then (do
        q ← sched.put_proc w.queues h (w.prio h)
        (proc, q') ← sched.get_proc q
        dispatch proc time_left (record w { queues = q' }))
      else dispatch (ptr h) time_left w

  -- One round of the `while` of cpu_routine
  unfoldable pub cpu_round : CpuState → World Q → Outcome (Event × CpuState × World Q)
  cpu_round c w = elim c.proc [
    | null ↦ do
      (proc, q) ← sched.get_proc w.queues
      first_load proc c.time_left (record w { queues = q })
    | wild ↦ fault uninitialised
    | ptr h ↦ recheck h c.time_left w
  ]

  -- `n` rounds, or fewer if one of them stops: the events, and the state after them. The other
  -- threads do not act in between.
  pub cpu_rounds : ℕ → CpuState → World Q → Outcome (List Event × CpuState × World Q)
  cpu_rounds zero c w = ok ([], c, w)
  cpu_rounds (suc n) c w = do
    (event, c', w') ← cpu_round c w
    let rest = cpu_rounds n c' w'
    elim event [
      | stopped ↦ ok (stopped ∷ [], c', w')
      | skipped ↦ do (events, c'', w'') ← rest; ok (skipped ∷ events, c'', w'')
      | ran ↦ do (events, c'', w'') ← rest; ok (ran ∷ events, c'', w'')
    ]

-- The locals before the loop
abbrev pub cpu_start : CpuState
cpu_start = record { proc = null; time_left = pos 0 }

-- `ld_processes`: one entry for each process of the configuration
pub record LdArg : Type 0 where
  pub path : List ℕ
  pub start_time : ℕ
  pub prio : ℕ

-- The loader's view of the shared state: the time, which is the number of its calls of next_slot that
-- have returned (Timer.antt), and the next handle.
pub record LdState (Q : Type 0) : Type 0 where
  pub now : ℕ
  pub next : ℕ
  pub avail_pid : ℕ
  pub world : World Q

-- `while (current_time() < start_time) next_slot()`: the time after it
pub wait_start : ℕ → ℕ → ℕ → Outcome ℕ
wait_start zero start_time now = if ltb now start_time then fault out_of_fuel else ok now
wait_start (suc fuel) start_time now =
    let later = wait_start fuel start_time (now + 1) in if ltb now start_time then later else ok now

-- The pointer to a device after its address is assigned: the first time, the device is as main left
-- it; then the pointer has that address already, and the device its present content.
abbrev pub point_to : Ptr Memphy → Memphy → Ptr Memphy
point_to null device = ptr device
point_to wild device = ptr device
point_to (ptr now) device = ptr now

-- What a process that is loaded sets in the kernel; `mswp` is never used.
abbrev pub set_kernel : Krnl → Mm → Memphy → Memphy → Krnl
set_kernel krnl mm mram active_mswp = record krnl {
  mm = ptr mm;
  mram = point_to krnl.mram mram;
  active_mswp = point_to krnl.active_mswp active_mswp;
}

module _ {Q : Type 0} (sched : Scheduler Q) (load : ℕ → List ℕ → Outcome (Loaded × ℕ))
    (blank_mm : ℕ → Mm) (freerg : Chain Region) (mram active_mswp : Memphy) where
  -- One round of the `while` of ld_routine; `proc->prio` is a `uint32_t`. Its process arrives at the time that is returned. The
  -- block for the memory map holds `blank_mm h` from malloc; the kernel is the same for all
  -- processes.
  pub ld_round : LdArg → LdState Q → Outcome (ℕ × LdState Q)
  ld_round arg st = do
    (loaded, avail_pid) ← load st.avail_pid arg.path
    now ← wait_start arg.start_time arg.start_time st.now
    let (_, mm, _) = init_mm (blank_mm st.next) freerg
    let h = st.next
    let prio = arg.prio % 2 ^ 32
    q ← sched.add_proc st.world.queues h prio
    ok (
      now,
      record {
        now = now + 1;
        next = h + 1;
        avail_pid = avail_pid;
        world = record st.world {
          queues = q;
          procs = update st.world.procs h loaded.pcb;
          prio = update st.world.prio h prio;
          machine = record st.world.machine {
            os = set_kernel st.world.machine.os mm mram active_mswp;
          };
        };
      },
    )

  -- The `while`, and `done = 1`: the times at which the processes arrive
  pub ld_routine : List LdArg → LdState Q → Outcome (List ℕ × LdState Q)
  ld_routine [] st = ok ([], record st { world = record st.world { done = true } })
  ld_routine (arg ∷ args) st = do
    (time, st') ← ld_round arg st
    (times, st'') ← ld_routine args st'
    ok (time ∷ times, st'')
