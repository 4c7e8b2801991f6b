-- ===== src/Main/Progress.antt =====
-- Whether main of src/os.c waits for ever at a join.
use hk252_co2017_nhom2_btl.Prelude.{List, arith, dec_lt, inl, inr, suc, zero, ℕ, ◌≡◌, ◌≢◌, ◌⊎◌}
use hk252_co2017_nhom2_btl.Threads.Progress.{AllHalted, has_exited}
use hk252_co2017_nhom2_btl.Threads.Enabled.{CanStep}
use hk252_co2017_nhom2_btl.Os.{LdArg}
use hk252_co2017_nhom2_btl.Main.{
  MainPlace, Program, Run, Step, cpu_joined, cpus_joined, created, frees, joins_cpu, joins_loader,
  joins_timer, loader_joined, node_freed, returned, stops_timer, threads_move, timer_joined,
}
use hk252_co2017_nhom2_btl.Main.Phases.{Over, Phase}
use hk252_co2017_nhom2_btl.Timer.Lockstep.{Reach-Moves}
use hk252_co2017_nhom2_btl.Threads.{Sim, Setting, Shared}
use hk252_co2017_nhom2_btl.Timer.{exited}
use hk252_co2017_nhom2_btl.Threads.Steps.{started, timer_moves}
use hk252_co2017_nhom2_btl.Main
use hk252_co2017_nhom2_btl.Threads.Steps

-- A thread or main can take a step.
abbrev pub CanProceed : {Q : Type 0} → Setting Q → ℕ → Program Q → Type 0
CanProceed {Q} env n p = (q : Program Q) × Step env n p q

module _ {Q : Type 0} (env : Setting Q) (n : ℕ) (shared : Shared Q) (args : List LdArg) where
  -- The threads can go on, or all have ended.
  abbrev pub ThreadsGo : Sim Q → Type 0
  ThreadsGo s = CanStep env n s ⊎ AllHalted n s

  -- After stop_timer has begun, the timer can go on to its end.
  timer_goes :
      (s : Sim Q) → Over env n (started n shared args) s → s.clock.timer ≢ exited → CanStep env n s
  timer_goes s o on = elim (Reach-Moves o.clock on) [
    | inl (c, step, ne) ↦ (_, timer_moves step ne)
    | inr (k, lt, inl out) ↦ absurd (cc (o.devices k lt, out))
    | inr (k, lt, inr (inside, free)) ↦ absurd (cc (o.devices k lt, inside))
  ]

  pub proceeds :
      (p : Program Q) (m : MainPlace)
      → p.main ≡ m
      → Phase env n (started n shared args) m p.sim
      → (Steps.Reach env n (started n shared args) p.sim → ThreadsGo p.sim)
      → CanProceed env n p ⊎ (p.main ≡ returned)
  proceeds p (joins_cpu i) e (r, le, before) go = elim (go r) [
    | inl (t, step) ↦ inl (_, threads_move step)
    | inr all ↦ elim (dec_lt i n) [
      | yes lt ↦ inl (_, cpu_joined e lt (all.0 i lt))
      | no last ↦ inl (_, cpus_joined e (omega (arith, le, last)))
    ]
  ]
  proceeds p joins_loader e (r, before) go = elim (go r) [
    | inl (t, step) ↦ inl (_, threads_move step)
    | inr all ↦ inl (_, loader_joined e all.1)
  ]
  proceeds p stops_timer e h go = inl (_, Main.stops e)
  proceeds p joins_timer e o go = elim (has_exited p.sim.clock.timer) [
    | inl gone ↦ inl (_, timer_joined e gone)
    | inr on ↦ let (t, step) = timer_goes p.sim o on in inl (_, threads_move step)
  ]
  proceeds p (frees zero) e h go = inl (_, Main.returns e)
  proceeds p (frees (suc left)) e h go = inl (_, node_freed e)
  proceeds p returned e h go = inr e
