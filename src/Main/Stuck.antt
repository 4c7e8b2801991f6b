-- ===== src/Main/Stuck.antt =====
-- main of src/os.c with the scheduler of src/sched.c, whose get_proc keeps `queue_lock`.
use hk252_co2017_nhom2_btl.Prelude.{List, arith, refl, suc, zero, ℕ, ◌<◌, ◌≡◌, ◌≢◌, ◌≤◌}
use hk252_co2017_nhom2_btl.Sched.{Sched}
use hk252_co2017_nhom2_btl.Os.{LdArg}
use hk252_co2017_nhom2_btl.Threads.{CpuPlace, Setting, Shared, Sim}
use hk252_co2017_nhom2_btl.Threads.Steps.{started}
use hk252_co2017_nhom2_btl.Threads.Owners.{owns}
use hk252_co2017_nhom2_btl.Threads.Idling.{as_written}
use hk252_co2017_nhom2_btl.Threads.Stalled.{Reach-running, Reach_stalled}
use hk252_co2017_nhom2_btl.Main.{
  MainPlace, Program, Run, created, frees, joins_cpu, joins_loader, joins_timer, returned,
  stops_timer,
}
use hk252_co2017_nhom2_btl.Main.Phases.{Phase}
use hk252_co2017_nhom2_btl.Main.Returned.{Run-Phase, at_place}
use hk252_co2017_nhom2_btl.Threads.Steps

module _ (env : Setting Sched) (n : ℕ) (some_cpu : 0 < n) (shared : Shared Sched)
    (args : List LdArg) (none_yet : shared.next ≡ 0) where
  running :
      {s : Sim Sched}
      → Steps.Reach (as_written env) n (started n shared args) s
      → s.cpu 0 ≢ CpuPlace.halted
  running r = Reach-running n some_cpu env r none_yet

  -- main is at its first join, since any other place wants that CPU 0 has ended.
  at_first_join :
      (m : MainPlace) (s : Sim Sched)
      → Phase (as_written env) n (started n shared args) m s
      → m ≡ joins_cpu 0
  at_first_join (joins_cpu zero) s h = refl
  at_first_join (joins_cpu (suc i)) s (r, le, before) = absurd (running r (before 0 (omega arith)))
  at_first_join joins_loader s (r, ended) = absurd (running r (ended 0 some_cpu))
  at_first_join stops_timer s (r, all) = absurd (running r (all.0 0 some_cpu))
  at_first_join joins_timer s o = absurd (running o.reached (o.all.0 0 some_cpu))
  at_first_join (frees left) s (o, gone, le) = absurd (running o.reached (o.all.0 0 some_cpu))
  at_first_join returned s (o, rest) = absurd (running o.reached (o.all.0 0 some_cpu))

  -- With the scheduler of src/sched.c, whose get_proc keeps `queue_lock`, at least one CPU, and no
  -- process loaded at the start, in every state that the program can reach main waits at its join
  -- of the first CPU, so that it never returns; no CPU holds a process, so that no instruction of
  -- any process is ever run; at most one process has been handed to the scheduler, and at most one
  -- time slot has ended.
  pub Run_stalled :
      {k : ℕ} {p : Program Sched}
      → Run (as_written env) n (created n shared args) k p
      → (p.main ≡ joins_cpu 0)
        × ((i : ℕ) → i < n → (j : ℕ) → owns (p.sim.cpu i) j ≡ 0)
        × (p.sim.shared.next ≤ 1)
        × (p.sim.clock.ended ≤ 1)
  Run_stalled {p = p} run =
      let h = Run-Phase (as_written env) n shared args run in
      let e = at_first_join p.main p.sim h in
      let (r, le, before) =
        at_place (as_written env) n (started n shared args) p (joins_cpu 0) e h in
      let (idle, few, slots) = Reach_stalled n some_cpu env r none_yet in (e, idle, few, slots)
