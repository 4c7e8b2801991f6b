-- ===== src/Main/Finish.antt =====
-- main of src/os.c and the timer of src/timer.c after all other threads have ended.
use hk252_co2017_nhom2_btl.Prelude.{
  List, arith, inr, refl, suc, sym, ℕ, ◌*◌, ◌+◌, ◌<◌, ◌≡◌, ◌≤◌, ◌⊎◌,
}
use mathlib.Core.Path.{subst}
use hk252_co2017_nhom2_btl.Threads.Progress.{AllHalted}
use hk252_co2017_nhom2_btl.Main.Progress.{CanProceed, proceeds}
use hk252_co2017_nhom2_btl.Main.Returned.{HasPhase, Run-Phase, Step-Phase}
use hk252_co2017_nhom2_btl.Os.{LdArg}
use hk252_co2017_nhom2_btl.Main.{
  MainPlace, Program, Run, Step, begin, cpu_joined, cpus_joined, created, frees, joins_cpu,
  joins_loader, joins_timer, loader_joined, next, node_freed, returned, stops_timer, threads_move,
  timer_joined,
}
use hk252_co2017_nhom2_btl.Main.Phases.{Phase, halted_devices, halted-Step}
use hk252_co2017_nhom2_btl.Threads.Clock.{Reach-Coupled}
use hk252_co2017_nhom2_btl.Timer.Invariant.{Reach-Inv}
use hk252_co2017_nhom2_btl.Threads.{Sim, Setting, Shared}
use hk252_co2017_nhom2_btl.Timer.{detached}
use hk252_co2017_nhom2_btl.Main.Countdown.{main_left, timer_counts, timer_left, timer_left_bounds}
use hk252_co2017_nhom2_btl.Threads.Steps.{started}
use hk252_co2017_nhom2_btl.Timer
use hk252_co2017_nhom2_btl.Main

module _ {Q : Type 0} (env : Setting Q) (n : ℕ) (shared : Shared Q) (args : List LdArg) where
  -- The clock of the program is that of a timer that can be reached, at every place of main.
  Phase-clock :
      (m : MainPlace) (s : Sim Q)
      → Phase env n (started n shared args) m s
      → Timer.Reach (suc n) s.clock
  Phase-clock (joins_cpu i) s (r, le, before) = (Reach-Coupled r).clock
  Phase-clock joins_loader s (r, before) = (Reach-Coupled r).clock
  Phase-clock stops_timer s h = (Reach-Coupled h.0).clock
  Phase-clock joins_timer s o = o.clock
  Phase-clock (frees left) s (o, gone, le) = o.clock
  Phase-clock returned s (o, gone) = o.clock

  Phase-detached :
      (m : MainPlace) (s : Sim Q)
      → Phase env n (started n shared args) m s
      → AllHalted n s
      → (k : ℕ) → k < suc n
      → (s.clock.device k).pc ≡ detached
  Phase-detached (joins_cpu i) s (r, le, before) all = halted_devices (Reach-Coupled r) all
  Phase-detached joins_loader s (r, before) all = halted_devices (Reach-Coupled r) all
  Phase-detached stops_timer s h all = halted_devices (Reach-Coupled h.0) all
  Phase-detached joins_timer s o all = o.devices
  Phase-detached (frees left) s (o, gone, le) all = o.devices
  Phase-detached returned s (o, gone) all = o.devices

  -- How many steps are left
  abbrev steps_left : Program Q → ℕ
  steps_left p = main_left n p.main + timer_left (suc n) p.sim.clock.timer

  main_left_bounds :
      (m : MainPlace) (s : Sim Q)
      → Phase env n (started n shared args) m s
      → main_left n m ≤ 2 * n + 6
  main_left_bounds (joins_cpu i) s h = omega arith
  main_left_bounds joins_loader s h = omega arith
  main_left_bounds stops_timer s h = omega arith
  main_left_bounds joins_timer s h = omega arith
  main_left_bounds (frees left) s (o, gone, le) = omega (arith, le)
  main_left_bounds returned s h = omega arith

  -- Each step is one less.
  Step-steps_left :
      {p q : Program Q}
      → Step env n p q
      → HasPhase env n (started n shared args) p
      → AllHalted n p.sim
      → (steps_left q < steps_left p) × AllHalted n q.sim
  Step-steps_left {p} (threads_move step) h all =
      let (c, move, ne, e) = halted-Step step all in
      let less =
        timer_counts
          (λ k lt.
            ((Reach-Inv (Phase-clock p.main p.sim h)).devices k lt).detached_fsh
              (Phase-detached p.main p.sim h all k lt))
          move ne in
      subst
        (λ (t : Sim Q).
          (main_left n p.main + timer_left (suc n) t.clock.timer < steps_left p) × AllHalted n t)
        (sym e) (omega (arith, less), all)
  Step-steps_left (cpu_joined {i} e lt ended) h all = (ground (arith, e, lt), all)
  Step-steps_left (cpus_joined {i} e last) h all = (ground (arith, e, last), all)
  Step-steps_left (loader_joined e ended) h all = (ground (arith, e), all)
  Step-steps_left (Main.stops e) h all = (ground (arith, e), all)
  Step-steps_left (timer_joined e gone) h all = (ground (arith, e), all)
  Step-steps_left (node_freed {left} e) h all = (ground (arith, e), all)
  Step-steps_left (Main.returns e) h all = (ground (arith, e), all)

  Run-steps_left :
      {p : Program Q} {k : ℕ} {q : Program Q}
      → HasPhase env n (started n shared args) p
      → AllHalted n p.sim
      → Run env n p k q
      → (k + steps_left q ≤ steps_left p)
        × AllHalted n q.sim
        × HasPhase env n (started n shared args) q
  Run-steps_left h all begin = (omega arith, all, h)
  Run-steps_left h all (next r step) =
      let (count, all', h') = Run-steps_left h all r in
      let (less, all'') = Step-steps_left step h' all' in
      (
        omega (arith, count, less),
        all'',
        Step-Phase env n (started n shared args) (λ s. Reach-Coupled) step h',
      )

  -- When the program, with `n` CPUs, has come to a state in which every CPU and the loader have
  -- ended, it takes at most 6 * n + 18 more steps, in whatever order main and the timer take them,
  -- and where none of them can take another one main has returned.
  pub Run_finishes :
      {j k : ℕ} {p q : Program Q}
      → Run env n (created n shared args) j p
      → AllHalted n p.sim
      → Run env n p k q
      → (k ≤ 6 * n + 18) × (CanProceed env n q ⊎ (q.main ≡ returned))
  Run_finishes {p = p} {q = q} before all r =
      let h = Run-Phase env n shared args before in
      let (count, all', h') = Run-steps_left h all r in
      (
        omega (
          arith,
          count,
          main_left_bounds p.main p.sim h,
          timer_left_bounds (suc n) p.sim.clock.timer,
        ),
        proceeds env n shared args q q.main refl h' (λ reached. inr all'),
      )
