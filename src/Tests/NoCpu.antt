-- ===== src/Tests/NoCpu.antt =====
-- A run of the program with the scheduler of src/sched.c, one process and no CPU, to the end of main
-- (src/os.c, src/timer.c).
use hk252_co2017_nhom2_btl.Prelude.{ap, arith, get_elem?, refl, some, ℕ, ◌<◌, ◌≡◌}
use hk252_co2017_nhom2_btl.Tests.Rounds.{setting_as_written, shared_as_written}
use hk252_co2017_nhom2_btl.Threads.Progress.{AllHalted}
use hk252_co2017_nhom2_btl.Threads.Due.{HasCome, IsProcessOf}
use hk252_co2017_nhom2_btl.Os.{LdArg}
use hk252_co2017_nhom2_btl.Main.{
  stops, Program, Run, begin, cpus_joined, joins_cpu, loader_joined, next, node_freed, returns,
  threads_move, timer_joined,
}
use hk252_co2017_nhom2_btl.Threads.Steps.{
  Reach, later, loader_detaches, loader_moves, loader_sleeps, loader_wakes, start, started,
  timer_moves,
}
use hk252_co2017_nhom2_btl.Threads.Timely.{Reach_timely}
use hk252_co2017_nhom2_btl.Main.Returned.{Run_returned}
use hk252_co2017_nhom2_btl.Sched.{Sched}
use hk252_co2017_nhom2_btl.Sched.Init.{add_proc-lost}
use hk252_co2017_nhom2_btl.Threads.{Sim, adds, finishes, loads, sets_kernel}
use hk252_co2017_nhom2_btl.Timer.{
  attach_event, attached, exited, passes, resumes, slot_begins, slot_ends, slot_refused,
  start_timer, ticks,
}
use hk252_co2017_nhom2_btl.Tests.WholeRun.{joined, lifted, rank}
use hk252_co2017_nhom2_btl.Tests.Concurrent.{one}
use hk252_co2017_nhom2_btl.Tests.Programs.{sched}

abbrev entered : Sim Sched
entered = started 0 shared_as_written one

-- The loader has handed over the process of the configuration.
abbrev handed : (s : Sim Sched) × Reach setting_as_written 0 entered s
unfolding start_timer attached attach_event
handed = (
  _,
  later (later (later start (loader_moves (loads refl))) (loader_moves (sets_kernel refl)))
      (loader_moves (adds (add_proc-lost sched 0 0 refl (omega arith)).1)),
)

Reach_timely_example : HasCome setting_as_written one handed.0 0
unfolding handed
Reach_timely_example = Reach_timely setting_as_written one handed.1 refl 0 (omega arith)

-- One slot, after which the loader ends
unfoldable loader_run : (s : Sim Sched) × Reach setting_as_written 0 entered s
unfolding start_timer attached attach_event
loader_run = (
  _,
  later
      (later
        (later
          (later
            (later
              (later
                (later
                  (later (later handed.1 (loader_sleeps refl))
                    (timer_moves (slot_begins refl refl) (λ e. absurd (omega (arith, ap rank e)))))
                  (timer_moves (passes refl (omega arith) refl)
                    (λ e. absurd (omega (arith, ap rank e)))))
                (timer_moves (ticks refl refl) (λ e. absurd (omega (arith, ap rank e)))))
              (timer_moves (resumes refl (omega arith)) (λ e. absurd (omega (arith, ap rank e)))))
            (timer_moves (slot_ends refl refl) (λ e. absurd (omega (arith, ap rank e)))))
          (loader_wakes refl refl))
        (loader_moves finishes))
      (loader_detaches refl),
)

unfoldable main_returns :
    (k : ℕ) × (p : Program Sched) × Run setting_as_written 0
      (record { sim = loader_run.0; main = joins_cpu 0 })
      k
      p
unfolding loader_run start_timer attached attach_event
main_returns = (
  _,
  _,
  next
      (next
        (next
          (next
            (next (next (next begin (cpus_joined refl refl)) (loader_joined refl refl))
              (stops refl))
            (threads_move
              (timer_moves (slot_refused refl refl) (λ e. absurd (omega (arith, ap rank e))))))
          (timer_joined refl refl))
        (node_freed refl))
      (returns refl),
)

Run_returned_example :
    (main_returns.1.sim.shared.next ≡ 1)
    × ((j : ℕ)
        → j < 1
        → (arg : LdArg) × (get_elem? one j ≡ some arg)
          × IsProcessOf setting_as_written arg
              (main_returns.1.sim.shared.world.procs j)
              (main_returns.1.sim.shared.world.prio j))
    × AllHalted 0 main_returns.1.sim
    × (main_returns.1.sim.clock.timer ≡ exited)
unfolding loader_run main_returns
Run_returned_example =
    Run_returned setting_as_written 0 shared_as_written one refl
      (joined (lifted setting_as_written 0 entered (joins_cpu 0) loader_run.1).1 main_returns.2).1
      refl
