-- ===== src/Tests/WholeRun.antt =====
-- A run of the program with one CPU and one process of one instruction, to the end of main (src/os.c,
-- src/timer.c), whatever load is, if it returns this process.
use hk252_co2017_nhom2_btl.Cpu.{Pcb, run}
use hk252_co2017_nhom2_btl.Cpu.Step.{run-calc}
use hk252_co2017_nhom2_btl.Loader.{Loaded}
use hk252_co2017_nhom2_btl.Main.{
  MainPlace, Program, Run, begin, cpu_joined, cpus_joined, joins_cpu, loader_joined, next,
  node_freed, returns, stops, threads_move, timer_joined,
}
use hk252_co2017_nhom2_btl.Memphy.{Memphy}
use hk252_co2017_nhom2_btl.Mm.{Machine}
use hk252_co2017_nhom2_btl.Os.{LdArg}
use hk252_co2017_nhom2_btl.Prelude.{
  List, Outcome, [], ap, arith, end, false, ok, pos, refl, suc, ℕ, ◌+◌, ◌∷◌, ◌≡◌,
}
use hk252_co2017_nhom2_btl.Tests.Machines.{mm}
use hk252_co2017_nhom2_btl.Tests.Programs.{process, surroundings}
use hk252_co2017_nhom2_btl.Tests.Simulation.{one_list, step}
use hk252_co2017_nhom2_btl.Threads.{
  Setting, Shared, Sim, adds, breaks, drops, finishes, gets_first, loads, runs, sets_kernel,
}
use hk252_co2017_nhom2_btl.Threads.Steps.{
  Reach, cpu_detaches, cpu_moves, cpu_sleeps, cpu_wakes, later, loader_detaches, loader_moves,
  loader_sleeps, loader_wakes, start, started, timer_moves,
}
use hk252_co2017_nhom2_btl.Timer.{
  TimerPc, attach_event, attached, passes, resumes, slot_begins, slot_ends, slot_refused,
  start_timer, ticks,
}
use hk252_co2017_nhom2_btl.Threads.Steps

abbrev pub rank : TimerPc → ℕ
rank TimerPc.head = 0
rank (TimerPc.collect k fsh event) = 1 + k
rank (TimerPc.resume k fsh event) = 10 + k
rank TimerPc.exited = 20

-- A process of one instruction
abbrev pub short : Pcb
short = record process { text = step ∷ []; size = 1 }

-- The threads take steps while main stands still.
pub lifted :
    {Q : Type 0} (env : Setting Q) (n : ℕ) (s0 : Sim Q) (m : MainPlace) {s : Sim Q}
    → Steps.Reach env n s0 s
    → (k : ℕ) × Run env n (record { sim = s0; main = m }) k (record { sim = s; main = m })
lifted env n s0 m Steps.start = (0, begin)
lifted env n s0 m (Steps.later r step) =
    let (k, run) = lifted env n s0 m r in (suc k, next run (threads_move step))

pub joined :
    {Q : Type 0} {env : Setting Q} {n : ℕ} {p : Program Q} {j : ℕ} {q : Program Q}
    → Run env n p j q
    → {k : ℕ} {r : Program Q} → Run env n q k r
    → (l : ℕ) × Run env n p l r
joined first begin = (_, first)
joined first (next rest step) = let (l, run) = joined first rest in (suc l, next run step)

module _ (load : ℕ → List ℕ → Outcome (Loaded × ℕ)) (mram active_mswp : Memphy) (m : Machine)
    (path : List ℕ) (prio : ℕ) (block : Loaded) (pid : ℕ)
    (loads_short : load 1 path ≡ ok (record block { pcb = short }, pid)) where
  abbrev given_setting : Setting (List ℕ)
  given_setting = record {
    sched = one_list;
    surroundings = surroundings;
    time_slot = pos 2;
    load = load;
    blank_mm = λ h. mm;
    freerg = end;
    mram = mram;
    active_mswp = active_mswp;
  }

  abbrev given_shared : Shared (List ℕ)
  given_shared = record {
    world = record { queues = []; procs = λ h. short; prio = λ h. 0; machine = m; done = false };
    next = 0;
    avail_pid = 1;
  }

  abbrev given_args : List LdArg
  given_args = record { path = path; start_time = 0; prio = prio } ∷ []

  -- One CPU runs the process to its end and stops.
  unfoldable pub threads_run :
      (s : Sim (List ℕ)) × Reach given_setting 1 (started 1 given_shared given_args) s
  unfolding start_timer attached attach_event
  threads_run = (
    _,
    later
        (later
          (later
            (later
              (later (later (later first_slot.1 (loader_wakes refl refl)) (loader_moves finishes))
                (cpu_wakes 0 (omega arith) refl refl))
              (cpu_moves 0 (omega arith) (drops refl refl)))
            (cpu_moves 0 (omega arith) (breaks refl)))
          (cpu_detaches 0 (omega arith) refl))
        (loader_detaches refl),
  )
    where
      loaded : (s : Sim (List ℕ)) × Reach given_setting 1 (started 1 given_shared given_args) s
      loaded = (
        _,
        later
            (later
              (later (later start (loader_moves (loads loads_short)))
                (loader_moves (sets_kernel refl)))
              (loader_moves (adds refl)))
            (loader_sleeps refl),
      )

      ran_once : (s : Sim (List ℕ)) × Reach given_setting 1 (started 1 given_shared given_args) s
      ran_once = (
        _,
        later
            (later (later loaded.1 (cpu_moves 0 (omega arith) (gets_first refl))) (
              cpu_moves 0 (omega arith)
                (runs {h = 0} (run-calc surroundings short _ step (omega arith) refl refl))))
            (cpu_sleeps 0 (omega arith) refl),
      )

      first_slot : (s : Sim (List ℕ)) × Reach given_setting 1 (started 1 given_shared given_args) s
      first_slot = (
        _,
        later
            (later
              (later
                (later
                  (later
                    (later
                      (later ran_once.1 (
                        timer_moves (slot_begins refl refl)
                          (λ e. absurd (omega (arith, ap rank e)))))
                      (timer_moves (passes refl (omega arith) refl)
                        (λ e. absurd (omega (arith, ap rank e)))))
                    (timer_moves (passes refl (omega arith) refl)
                      (λ e. absurd (omega (arith, ap rank e)))))
                  (timer_moves (ticks refl refl) (λ e. absurd (omega (arith, ap rank e)))))
                (timer_moves (resumes refl (omega arith)) (λ e. absurd (omega (arith, ap rank e)))))
              (timer_moves (resumes refl (omega arith)) (λ e. absurd (omega (arith, ap rank e)))))
            (timer_moves (slot_ends refl refl) (λ e. absurd (omega (arith, ap rank e)))),
      )

  unfoldable pub main_run :
      (k : ℕ) × (p : Program (List ℕ)) × Run given_setting 1
        (record { sim = threads_run.0; main = joins_cpu 0 })
        k
        p
  unfolding threads_run start_timer attached attach_event
  main_run = (
    _,
    _,
    next
        (next
          (next
            (next
              (next
                (next
                  (next
                    (next (next begin (cpu_joined refl (omega arith) refl)) (cpus_joined refl refl))
                    (loader_joined refl refl))
                  (stops refl))
                (threads_move
                  (timer_moves (slot_refused refl refl) (λ e. absurd (omega (arith, ap rank e))))))
              (timer_joined refl refl))
            (node_freed refl))
          (node_freed refl))
        (returns refl),
  )
