-- ===== src/Threads/Progress.antt =====
-- Whether the threads of src/os.c and src/timer.c wait for each other.
use hk252_co2017_nhom2_btl.Prelude.{
  List, arith, false, inl, inr, refl, suc, sym, true, ℕ, ◌<◌, ◌∙◌, ◌≡◌, ◌≢◌, ◌⊎◌,
}
use hk252_co2017_nhom2_btl.Timer
use hk252_co2017_nhom2_btl.Timer.{
  TimerPc, Device, DevicePc, System, exited, outside, waiting, detached, slot_begins, stops,
  start_timer,
}
use hk252_co2017_nhom2_btl.Timer.Pace.{DeviceInv}
use hk252_co2017_nhom2_btl.Threads.Clock.{Reach-Coupled, cpu_pc, loader_pc, Coupled}
use hk252_co2017_nhom2_btl.Threads.Steps.{
  timer_moves, cpu_moves, cpu_sleeps, cpu_wakes, cpu_detaches, loader_moves, loader_sleeps,
  loader_wakes, loader_detaches, started, Reach, start, later,
}
use hk252_co2017_nhom2_btl.Os.{LdArg}
use hk252_co2017_nhom2_btl.Threads.{CpuPlace, LdPlace, Shared, Sim, Setting}
use hk252_co2017_nhom2_btl.Timer.Lockstep.{Reach-Moves, Reach-exited}
use hk252_co2017_nhom2_btl.Timer.Invariant.{Reach-Inv}
use hk252_co2017_nhom2_btl.Threads.Enabled.{CpuReturns, LoaderReturns, CanStep, Awaited-CanStep}

detached_device :
    {t : TimerPc} {ended i : ℕ} {d : Device}
    → DeviceInv t ended i d
    → d.id.fsh ≡ true
    → (pc : DevicePc) → d.pc ≡ pc
    → pc ≡ detached
detached_device inv gone outside e = absurd (cc ((inv.outside_idle e).1, gone))
detached_device inv gone waiting e = absurd (cc (inv.waiting_live e, gone))
detached_device inv gone detached e = refl

detached_cpu : (p : CpuPlace) → cpu_pc p ≡ detached → p ≡ CpuPlace.halted
detached_cpu (CpuPlace.works work) e = absurd (cc e)
detached_cpu (CpuPlace.due proc t) e = absurd (cc e)
detached_cpu (CpuPlace.asleep proc t) e = absurd (cc e)
detached_cpu CpuPlace.stopping e = absurd (cc e)
detached_cpu CpuPlace.halted e = refl

detached_loader : (p : LdPlace) → loader_pc p ≡ detached → p ≡ LdPlace.halted
detached_loader (LdPlace.works work) e = absurd (cc e)
detached_loader (LdPlace.due work) e = absurd (cc e)
detached_loader (LdPlace.asleep work) e = absurd (cc e)
detached_loader LdPlace.stopping e = absurd (cc e)
detached_loader LdPlace.halted e = refl

pub has_exited : (t : TimerPc) → (t ≡ exited) ⊎ (t ≢ exited)
has_exited TimerPc.head = inr (λ e. absurd (cc e))
has_exited (TimerPc.collect k f e) = inr (λ q. absurd (cc q))
has_exited (TimerPc.resume k f e) = inr (λ q. absurd (cc q))
has_exited TimerPc.exited = inl refl

-- No thread but main calls stop_timer.
own_steps-timer_stop :
    {m : ℕ} {c c' : System} → Timer.Step m c c' → c'.timer ≢ c.timer → c'.timer_stop ≡ c.timer_stop
own_steps-timer_stop (slot_begins e f) ne = refl
own_steps-timer_stop stops ne = absurd (ne refl)
own_steps-timer_stop step ne = refl

Reach-timer_stop :
    {Q : Type 0} {env : Setting Q} {n : ℕ} {shared : Shared Q} {args : List LdArg} {s : Sim Q}
    → Reach env n (started n shared args) s
    → s.clock.timer_stop ≡ false
unfolding start_timer
Reach-timer_stop start = refl
Reach-timer_stop (later r (timer_moves step ne)) = own_steps-timer_stop step ne ∙ Reach-timer_stop r
Reach-timer_stop (later r (cpu_moves i lt move)) = Reach-timer_stop r
Reach-timer_stop (later r (cpu_sleeps i lt e)) = Reach-timer_stop r
Reach-timer_stop (later r (cpu_wakes i lt e f)) = Reach-timer_stop r
Reach-timer_stop (later r (cpu_detaches i lt e)) = Reach-timer_stop r
Reach-timer_stop (later r (loader_moves move)) = Reach-timer_stop r
Reach-timer_stop (later r (loader_sleeps e)) = Reach-timer_stop r
Reach-timer_stop (later r (loader_wakes e f)) = Reach-timer_stop r
Reach-timer_stop (later r (loader_detaches e)) = Reach-timer_stop r

-- All threads have called detach_event.
abbrev pub AllHalted : {Q : Type 0} → ℕ → Sim Q → Type 0
AllHalted n s = ((i : ℕ) → i < n → s.cpu i ≡ CpuPlace.halted) × (s.loader ≡ LdPlace.halted)

module _ {Q : Type 0} (env : Setting Q) (n : ℕ) where
  exited-AllHalted :
      (s : Sim Q)
      → Coupled n s
      → s.clock.timer ≡ exited
      → s.clock.timer_stop ≡ false
      → AllHalted n s
  exited-AllHalted s c gone on = (
    λ i lt. detached_cpu (s.cpu i) (sym (c.cpus i lt) ∙ all (suc i) (omega (arith, lt))),
    detached_loader s.loader (sym c.loader ∙ all 0 (omega arith)),
  )
    where
      all : (k : ℕ) → k < suc n → (s.clock.device k).pc ≡ detached
      all k lt =
          detached_device ((Reach-Inv c.clock).devices k lt) (Reach-exited c.clock gone on k lt) _
            refl

  -- Where the call that each CPU and the loader makes next returns, some thread can take a step,
  -- unless all have called detach_event.
  pub Reach_progress :
      {shared : Shared Q} {args : List LdArg} {s : Sim Q}
      → Reach env n (started n shared args) s
      → ((i : ℕ) → i < n → CpuReturns env s.shared.world (s.cpu i))
      → LoaderReturns env s.shared s.loader
      → CanStep env n s ⊎ AllHalted n s
  Reach_progress {s = s} r safe ld_safe = elim (has_exited s.clock.timer) [
    | inl gone ↦ inr (exited-AllHalted s (Reach-Coupled r) gone (Reach-timer_stop r))
    | inr on ↦ elim (Reach-Moves (Reach-Coupled r).clock on) [
      | inl (c, step, ne) ↦ inl (_, timer_moves step ne)
      | inr (k, lt, a) ↦ inl (Awaited-CanStep env n s (Reach-Coupled r) safe ld_safe k lt a)
    ]
  ]
