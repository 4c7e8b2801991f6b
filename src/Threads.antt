-- ===== src/Threads.antt =====
-- src/os.c with src/timer.c: the threads of the CPUs and of the loader, in any order of their steps,
-- with the timer. A step of a thread is one call of the scheduler, one test, one instruction, one
-- half of next_slot, or detach_event; a call that faults or waits for ever is no step. The loader has
-- device 0 of the timer, and CPU `i` here device `i + 1`: attach_event puts a new device in front,
-- so that it is CPU `num_cpus - 1 - i` of main.
pub mod Steps
pub mod Clock
pub mod Owners
pub mod Enabled
pub mod Progress
pub mod Idling
pub mod Stalled
pub mod Due
pub mod Timely
use hk252_co2017_nhom2_btl.Prelude.{
  Chain, List, Option, Outcome, [], false, if◌then◌else◌, is_zero, ltb, none, null, ok, pos, ptr,
  some, true, update, ℕ, ℤ, ◌%◌, ◌+◌, ◌^◌, ◌∷◌, ◌≡◌, ◌≢◌,
}
use hk252_co2017_nhom2_btl.Mm.{Region, Mm, Krnl, Machine}
use hk252_co2017_nhom2_btl.Memphy.{Memphy}
use hk252_co2017_nhom2_btl.Vma.{init_mm}
use hk252_co2017_nhom2_btl.Cpu.{Pcb, Surroundings, run}
use hk252_co2017_nhom2_btl.Loader.{Loaded}
use hk252_co2017_nhom2_btl.Timer
use hk252_co2017_nhom2_btl.Timer.{System, attached, start_timer, reported, returned, detached_from}
use hk252_co2017_nhom2_btl.Os.{Scheduler, World, LdArg, set_kernel, pred}

-- Where a CPU stands in its work of a slot, with `proc` and `time_left`: at the `while`, after
-- put_proc, before the test of `done` with no process, or before run.
pub data CpuWork : Type 0 where
  head : (proc : Option ℕ) (time_left : ℤ) → CpuWork
  put_back : (time_left : ℤ) → CpuWork
  checking : (time_left : ℤ) → CpuWork
  ready : (proc : ℕ) (time_left : ℤ) → CpuWork

-- At work, before next_slot, between its halves, before detach_event, or after it
pub data CpuPlace : Type 0 where
  works : CpuWork → CpuPlace
  due : (proc : Option ℕ) (time_left : ℤ) → CpuPlace
  asleep : (proc : Option ℕ) (time_left : ℤ) → CpuPlace
  stopping : CpuPlace
  halted : CpuPlace

-- Where the loader stands: at its `while`, at the inner `while` with a process loaded, or before
-- add_proc.
pub data LdWork : Type 0 where
  at_head : (args : List LdArg) → LdWork
  at_wait : (arg : LdArg) (args : List LdArg) (loaded : Loaded) → LdWork
  at_add : (arg : LdArg) (args : List LdArg) (loaded : Loaded) → LdWork

pub data LdPlace : Type 0 where
  works : LdWork → LdPlace
  due : LdWork → LdPlace
  asleep : LdWork → LdPlace
  stopping : LdPlace
  halted : LdPlace

-- What the CPUs share with the loader, and its `avail_pid` and next handle
pub record Shared (Q : Type 0) : Type 0 where
  pub world : World Q
  pub next : ℕ
  pub avail_pid : ℕ

pub record Sim (Q : Type 0) : Type 0 where
  pub clock : System
  pub shared : Shared Q
  pub cpu : ℕ → CpuPlace
  pub loader : LdPlace

-- What does not change: the scheduler, what an instruction may find, `time_slot`, load, and what
-- ld_routine gets from malloc and from main
pub record Setting (Q : Type 0) : Type 0 where
  pub sched : Scheduler Q
  pub surroundings : Surroundings
  pub time_slot : ℤ
  pub load : ℕ → List ℕ → Outcome (Loaded × ℕ)
  pub blank_mm : ℕ → Mm
  pub freerg : Chain Region
  pub mram : Memphy
  pub active_mswp : Memphy

-- A process that is dispatched gets a new time slice where none is left.
abbrev pub dispatched : ℤ → ℕ → ℤ → CpuPlace
dispatched time_slot h time_left =
    CpuPlace.works (ready h (if is_zero time_left then time_slot else time_left))

module _ {Q : Type 0} (env : Setting Q) where
  open env use {sched, surroundings, time_slot, load, blank_mm, freerg, mram, active_mswp}
  open sched use {get_proc, put_proc, add_proc}

  -- A step of a CPU between two calls of next_slot
  pub data CpuMove (w : World Q) : CpuPlace → World Q → CpuPlace → Type 0 where
    gets_first :
        {t : ℤ} {h : ℕ} {q : Q}
        → get_proc w.queues ≡ ok (ptr h, q)
        → CpuMove w
            (CpuPlace.works (head none t))
            (record w { queues = q })
            (dispatched time_slot h t)
    misses_first :
        {t : ℤ} {q : Q}
        → get_proc w.queues ≡ ok (null, q)
        → CpuMove w (CpuPlace.works (head none t)) (record w { queues = q }) (CpuPlace.due none t)
    -- The process is at its end: another is taken, or none.
    replaces :
        {t : ℤ} {h k : ℕ} {q : Q}
        → (w.procs h).pc ≡ (w.procs h).size
        → get_proc w.queues ≡ ok (ptr k, q)
        → CpuMove w
            (CpuPlace.works (head (some h) t))
            (record w { queues = q })
            (dispatched time_slot k (pos 0))
    drops :
        {t : ℤ} {h : ℕ} {q : Q}
        → (w.procs h).pc ≡ (w.procs h).size
        → get_proc w.queues ≡ ok (null, q)
        → CpuMove w
            (CpuPlace.works (head (some h) t))
            (record w { queues = q })
            (CpuPlace.works (checking (pos 0)))
    -- Its time slice is over.
    puts :
        {t : ℤ} {h : ℕ} {q : Q}
        → (w.procs h).pc ≢ (w.procs h).size
        → is_zero t ≡ true
        → put_proc w.queues h (w.prio h) ≡ ok q
        → CpuMove w
            (CpuPlace.works (head (some h) t))
            (record w { queues = q })
            (CpuPlace.works (put_back t))
    gets_next :
        {t : ℤ} {h : ℕ} {q : Q}
        → get_proc w.queues ≡ ok (ptr h, q)
        → CpuMove w
            (CpuPlace.works (put_back t))
            (record w { queues = q })
            (dispatched time_slot h t)
    misses_next :
        {t : ℤ} {q : Q}
        → get_proc w.queues ≡ ok (null, q)
        → CpuMove w
            (CpuPlace.works (put_back t))
            (record w { queues = q })
            (CpuPlace.works (checking t))
    keeps :
        {t : ℤ} {h : ℕ}
        → (w.procs h).pc ≢ (w.procs h).size
        → is_zero t ≡ false
        → CpuMove w (CpuPlace.works (head (some h) t)) w (CpuPlace.works (ready h t))
    breaks : {t : ℤ} → w.done ≡ true → CpuMove w (CpuPlace.works (checking t)) w CpuPlace.stopping
    skips :
        {t : ℤ} → w.done ≡ false → CpuMove w (CpuPlace.works (checking t)) w (CpuPlace.due none t)
    runs :
        {t stat : ℤ} {h : ℕ} {p : Pcb} {m : Machine}
        → run surroundings (w.procs h) w.machine ≡ ok (stat, p, m)
        → CpuMove w
            (CpuPlace.works (ready h t))
            (record w { procs = update w.procs h p; machine = m })
            (CpuPlace.due (some h) (pred t))

  -- A step of the loader between two calls of next_slot, at the time `now`
  pub data LdMove (now : ℕ) (x : Shared Q) : LdPlace → Shared Q → LdPlace → Type 0 where
    loads :
        {arg : LdArg} {args : List LdArg} {loaded : Loaded} {pid : ℕ}
        → load x.avail_pid arg.path ≡ ok (loaded, pid)
        → LdMove now x
            (LdPlace.works (at_head (arg ∷ args)))
            (record x { avail_pid = pid })
            (LdPlace.works (at_wait arg args loaded))
    waits :
        {arg : LdArg} {args : List LdArg} {loaded : Loaded}
        → ltb now arg.start_time ≡ true
        → LdMove now x
            (LdPlace.works (at_wait arg args loaded))
            x
            (LdPlace.due (at_wait arg args loaded))
    sets_kernel :
        {arg : LdArg} {args : List LdArg} {loaded : Loaded}
        → ltb now arg.start_time ≡ false
        → LdMove now x
            (LdPlace.works (at_wait arg args loaded))
            (record x {
              world = record x.world {
                machine = record x.world.machine {
                  os =
                      set_kernel x.world.machine.os
                        (init_mm (blank_mm x.next) freerg).1
                        mram
                        active_mswp;
                };
              };
            })
            (LdPlace.works (at_add arg args loaded))
    adds :
        {arg : LdArg} {args : List LdArg} {loaded : Loaded} {q : Q}
        → add_proc x.world.queues x.next (arg.prio % 2 ^ 32) ≡ ok q
        → LdMove now x
            (LdPlace.works (at_add arg args loaded))
            (record x {
              next = x.next + 1;
              world = record x.world {
                queues = q;
                procs = update x.world.procs x.next loaded.pcb;
                prio = update x.world.prio x.next (arg.prio % 2 ^ 32);
              };
            })
            (LdPlace.due (at_head args))
    finishes :
        LdMove now x
          (LdPlace.works (at_head []))
          (record x { world = record x.world { done = true } })
          LdPlace.stopping
