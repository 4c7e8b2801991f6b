-- ===== src/Main/Returned.antt =====
-- What is done when main of src/os.c returns.
use hk252_co2017_nhom2_btl.Prelude.{
  List, ap, arith, get_elem?, length, refl, some, suc, sym, ℕ, ℕ_discrete, ◌<◌, ◌∙◌, ◌≡◌, ◌≢◌,
}
use mathlib.Core.Path.{subst}
use hk252_co2017_nhom2_btl.Threads.Progress.{AllHalted}
use hk252_co2017_nhom2_btl.Threads.Clock.{Coupled, own_steps, Reach-Coupled}
use hk252_co2017_nhom2_btl.Main.Phases.{
  Over, Over-AllHalted, exited_timer, halted-Step, Phase, halted_moves, loader_halted_moves,
  halted_devices,
}
use hk252_co2017_nhom2_btl.Threads.{Sim, Setting, Shared}
use hk252_co2017_nhom2_btl.Timer.{System, detached, exited}
use hk252_co2017_nhom2_btl.Main.{
  returned, stopped_timer, MainPlace, Program, Step, cpu_joined, cpus_joined, frees, joins_cpu,
  joins_loader, joins_timer, loader_joined, node_freed, stops_timer, threads_move, timer_joined,
  Run, begin, created, next,
}
use hk252_co2017_nhom2_btl.Threads.Due.{IsProcessOf}
use hk252_co2017_nhom2_btl.Threads.Timely.{Reach_all_come, Reach_timely}
use hk252_co2017_nhom2_btl.Os.{LdArg}
use hk252_co2017_nhom2_btl.Threads.Steps.{started}
use hk252_co2017_nhom2_btl.Timer
use hk252_co2017_nhom2_btl.Main
use hk252_co2017_nhom2_btl.Threads.Steps

module _ {Q : Type 0} (env : Setting Q) (n : ℕ) (s0 : Sim Q) where
  -- main sets `timer_stop`.
  stopped-Over :
      {s : Sim Q}
      → Steps.Reach env n s0 s
      → Coupled n s
      → AllHalted n s
      → Over env n s0 (stopped_timer s)
  stopped-Over {s} r c all = record {
    last = s;
    reached = r;
    all = all;
    same = refl;
    clock = Timer.later c.clock Timer.stops;
    devices = halted_devices c all;
  }

  timer_moves-Over :
      {s : Sim Q} {c : System}
      → Over env n s0 s
      → Timer.Step (suc n) s.clock c
      → c.timer ≢ s.clock.timer
      → Over env n s0 (record s { clock = c })
  timer_moves-Over {s} {c} o step ne = record {
    last = o.last;
    reached = o.reached;
    all = o.all;
    same = ap (λ (t : Sim Q). record t { clock = c }) o.same;
    clock = Timer.later o.clock step;
    devices = λ k lt. (own_steps step ne k).0 ∙ o.devices k lt;
  }

  -- A step of a thread after that is one of the timer,
  Step-Over : {s t : Sim Q} → Steps.Step env n s t → Over env n s0 s → Over env n s0 t
  Step-Over {s} {t} step o =
      let (c, move, ne, e) = halted-Step step (Over-AllHalted env n s0 o) in
      subst (Over env n s0) (sym e) (timer_moves-Over o move ne)

  -- and none when the timer has exited.
  exited-Step : {s t : Sim Q} → Steps.Step env n s t → AllHalted n s → s.clock.timer ≡ exited → ⊥
  exited-Step step all gone =
      let (c, move, ne, e) = halted-Step step all in exited_timer move ne gone

  abbrev pub HasPhase : Program Q → Type 0
  HasPhase p = Phase env n s0 p.main p.sim

  -- What the threads do leaves main where it is,
  threads-Phase :
      (m : MainPlace) {s t : Sim Q} → Steps.Step env n s t → Phase env n s0 m s → Phase env n s0 m t
  threads-Phase (joins_cpu i) step (r, le, ended) =
      (Steps.later r step, le, λ j lt. halted_moves step j (ended j lt))
  threads-Phase joins_loader step (r, ended) =
      (Steps.later r step, λ j lt. halted_moves step j (ended j lt))
  threads-Phase stops_timer step (r, (ended, last)) = (
    Steps.later r step,
    ((λ j lt. halted_moves step j (ended j lt)), loader_halted_moves step last),
  )
  threads-Phase joins_timer step o = Step-Over step o
  threads-Phase (frees left) step (o, gone, le) =
      absurd (exited-Step step (Over-AllHalted env n s0 o) gone)
  threads-Phase returned step (o, gone) = absurd (exited-Step step (Over-AllHalted env n s0 o) gone)

  pub at_place : (p : Program Q) (m : MainPlace) → p.main ≡ m → HasPhase p → Phase env n s0 m p.sim
  at_place p m e h = subst (λ k. Phase env n s0 k p.sim) e h

  -- and so does each step of main.
  pub Step-Phase :
      ((s : Sim Q) → Steps.Reach env n s0 s → Coupled n s)
      → {p q : Program Q} → Step env n p q
      → HasPhase p
      → HasPhase q
  Step-Phase coupled {p} (threads_move step) h = threads-Phase p.main step h
  Step-Phase coupled {p} (cpu_joined {i} e lt ended) h =
      let (r, le, before) = at_place p (joins_cpu i) e h in
      (
        r,
        omega (arith, lt),
        λ j l. elim (ℕ_discrete j i) [
          | yes same ↦ ap p.sim.cpu same ∙ ended
          | no other ↦ before j (omega (arith, l, other))
        ],
      )
  Step-Phase coupled {p} (cpus_joined {i} e last) h =
      let (r, le, before) = at_place p (joins_cpu i) e h in
      (r, λ j l. before j (omega (arith, l, last)))
  Step-Phase coupled {p} (loader_joined e ended) h =
      let (r, before) = at_place p joins_loader e h in (r, (before, ended))
  Step-Phase coupled {p} (Main.stops e) h =
      let (r, all) = at_place p stops_timer e h in stopped-Over r (coupled p.sim r) all
  Step-Phase coupled {p} (timer_joined e gone) h = (at_place p joins_timer e h, gone, omega arith)
  Step-Phase coupled {p} (node_freed {left} e) h =
      let (o, gone, le) = at_place p (frees (suc left)) e h in (o, gone, omega (arith, le))
  Step-Phase coupled {p} (Main.returns e) h =
      let (o, gone, le) = at_place p (frees 0) e h in (o, gone)

module _ {Q : Type 0} (env : Setting Q) (n : ℕ) (shared : Shared Q) (args : List LdArg) where
  pub Run-Phase :
      {k : ℕ} {p : Program Q}
      → Run env n (created n shared args) k p
      → HasPhase env n (started n shared args) p
  Run-Phase begin = (Steps.start, omega arith, λ j lt. absurd (omega (arith, lt)))
  Run-Phase (next r step) =
      Step-Phase env n (started n shared args) (λ s. Reach-Coupled) step (Run-Phase r)

  -- Let the program start with no process loaded, whatever its scheduler. In whatever order the
  -- timer, the CPUs, the loader and main take their steps, when main has returned, every process of
  -- the configuration has been handed to the scheduler, in the order of the configuration: each is
  -- one that load returned for the path of its entry, but for its program counter, and has the
  -- priority of the entry, modulo 2 ^ 32. Every CPU and the loader have ended, and the timer has
  -- exited.
  pub Run_returned :
      shared.next ≡ 0
      → {k : ℕ} {p : Program Q} → Run env n (created n shared args) k p
      → p.main ≡ returned
      → (p.sim.shared.next ≡ length args)
        × ((j : ℕ)
            → j < length args
            → (arg : LdArg) × (get_elem? args j ≡ some arg)
              × IsProcessOf env arg (p.sim.shared.world.procs j) (p.sim.shared.world.prio j))
        × AllHalted n p.sim
        × (p.sim.clock.timer ≡ exited)
  Run_returned none_yet {p = p} r e =
      let (o, gone) = at_place env n (started n shared args) p returned e (Run-Phase r) in
      let all_come = Reach_all_come env args o.reached none_yet o.all.1 in
      let same : p.sim.shared ≡ o.last.shared = ap (λ (t : Sim Q). t.shared) o.same in
      (
        ap (λ (x : Shared Q). x.next) same ∙ all_come,
        λ j lt.
            let (arg, at, early, of) =
              Reach_timely env args o.reached none_yet j (omega (arith, lt, all_come)) in
            (
              arg,
              at,
              subst (λ (x : Shared Q). IsProcessOf env arg (x.world.procs j) (x.world.prio j))
                  (sym same) of,
            ),
        Over-AllHalted env n (started n shared args) o,
        gone,
      )
