-- ===== src/Main/Phases.antt =====
-- What holds at each place of main in src/os.c.
use hk252_co2017_nhom2_btl.Prelude.{
  ap, arith, refl, suc, update_other, zero, ℕ, ◌<◌, ◌∙◌, ◌≡◌, ◌≢◌, ◌≤◌,
}
use hk252_co2017_nhom2_btl.Timer.{
  exited, detached, System, detaches, passes, reports, resumes, returns, slot_begins, slot_ends,
  slot_refused, stops, ticks,
}
use hk252_co2017_nhom2_btl.Threads.Clock.{
  loader_pc, LdMove-outside, cpu_pc, CpuMove-outside, Coupled,
}
use hk252_co2017_nhom2_btl.Threads.Progress.{AllHalted}
use hk252_co2017_nhom2_btl.Main.{
  MainPlace, joins_cpu, joins_loader, stops_timer, joins_timer, frees, returned,
}
use hk252_co2017_nhom2_btl.Threads.{LdPlace, CpuPlace, Sim, Setting}
use hk252_co2017_nhom2_btl.Threads.Steps.{
  timer_moves, cpu_moves, cpu_sleeps, cpu_wakes, cpu_detaches, loader_moves, loader_sleeps,
  loader_wakes, loader_detaches, started, later,
}
use hk252_co2017_nhom2_btl.Timer
use hk252_co2017_nhom2_btl.Threads.Steps

-- A CPU that has ended stays so, and the loader.
pub halted_moves :
    {Q : Type 0} {env : Setting Q} {n : ℕ} {s t : Sim Q}
    → Steps.Step env n s t
    → (j : ℕ) → s.cpu j ≡ CpuPlace.halted
    → t.cpu j ≡ CpuPlace.halted
halted_moves (timer_moves step ne) j e = e
halted_moves {env = env} {s = s} (cpu_moves i {p = p} lt move) j e =
    update_other s.cpu i p j (λ same.
      absurd (cc ((CpuMove-outside env move).0, ap (λ k. cpu_pc (s.cpu k)) same, ap cpu_pc e)))
    ∙ e
halted_moves {s = s} (cpu_sleeps i lt at) j e =
    update_other s.cpu i _ j (λ same. absurd (cc (at, ap s.cpu same, e))) ∙ e
halted_moves {s = s} (cpu_wakes i lt at f) j e =
    update_other s.cpu i _ j (λ same. absurd (cc (at, ap s.cpu same, e))) ∙ e
halted_moves {s = s} (cpu_detaches i lt at) j e =
    update_other s.cpu i _ j (λ same. absurd (cc (at, ap s.cpu same, e))) ∙ e
halted_moves (loader_moves move) j e = e
halted_moves (loader_sleeps at) j e = e
halted_moves (loader_wakes at f) j e = e
halted_moves (loader_detaches at) j e = e

pub loader_halted_moves :
    {Q : Type 0} {env : Setting Q} {n : ℕ} {s t : Sim Q}
    → Steps.Step env n s t
    → s.loader ≡ LdPlace.halted
    → t.loader ≡ LdPlace.halted
loader_halted_moves (timer_moves step ne) e = e
loader_halted_moves (cpu_moves i lt move) e = e
loader_halted_moves (cpu_sleeps i lt at) e = e
loader_halted_moves (cpu_wakes i lt at f) e = e
loader_halted_moves (cpu_detaches i lt at) e = e
loader_halted_moves {env = env} (loader_moves move) e =
    absurd (cc ((LdMove-outside env move).0, ap loader_pc e))
loader_halted_moves (loader_sleeps at) e = absurd (cc (at, e))
loader_halted_moves (loader_wakes at f) e = absurd (cc (at, e))
loader_halted_moves (loader_detaches at) e = refl

-- When all have ended, only the timer moves.
pub halted-Step :
    {Q : Type 0} {env : Setting Q} {n : ℕ} {s t : Sim Q}
    → Steps.Step env n s t
    → AllHalted n s
    → (c : System) × Timer.Step (suc n) s.clock c
      × (c.timer ≢ s.clock.timer)
      × (t ≡ record s { clock = c })
halted-Step (timer_moves step ne) all = (_, step, ne, refl)
halted-Step {env = env} (cpu_moves i lt move) all =
    absurd (cc ((CpuMove-outside env move).0, ap cpu_pc (all.0 i lt)))
halted-Step (cpu_sleeps i lt at) all = absurd (cc (at, all.0 i lt))
halted-Step (cpu_wakes i lt at f) all = absurd (cc (at, all.0 i lt))
halted-Step (cpu_detaches i lt at) all = absurd (cc (at, all.0 i lt))
halted-Step {env = env} (loader_moves move) all =
    absurd (cc ((LdMove-outside env move).0, ap loader_pc all.1))
halted-Step (loader_sleeps at) all = absurd (cc (at, all.1))
halted-Step (loader_wakes at f) all = absurd (cc (at, all.1))
halted-Step (loader_detaches at) all = absurd (cc (at, all.1))

module _ {Q : Type 0} (env : Setting Q) (n : ℕ) (s0 : Sim Q) where
  -- Since main has set `timer_stop`: the threads ended as in a state that they reached by
  -- themselves.
  pub record Over (s : Sim Q) : Type 0 where
    pub last : Sim Q
    pub reached : Steps.Reach env n s0 last
    pub all : AllHalted n last
    pub same : s ≡ record last { clock = s.clock }
    pub clock : Timer.Reach (suc n) s.clock
    pub devices : (k : ℕ) → k < suc n → (s.clock.device k).pc ≡ detached

  abbrev pub Phase : MainPlace → Sim Q → Type 0
  Phase (joins_cpu i) s =
      Steps.Reach env n s0 s × (i ≤ n) × ((j : ℕ) → j < i → s.cpu j ≡ CpuPlace.halted)
  Phase joins_loader s = Steps.Reach env n s0 s × ((j : ℕ) → j < n → s.cpu j ≡ CpuPlace.halted)
  Phase stops_timer s = Steps.Reach env n s0 s × AllHalted n s
  Phase joins_timer s = Over s
  Phase (frees left) s = Over s × (s.clock.timer ≡ exited) × (left ≤ suc n)
  Phase returned s = Over s × (s.clock.timer ≡ exited)

  pub Over-AllHalted : {s : Sim Q} → Over s → AllHalted n s
  Over-AllHalted o =
      (λ j lt. ap (λ t. t.cpu j) o.same ∙ o.all.0 j lt, ap (λ t. t.loader) o.same ∙ o.all.1)

-- A timer that has exited takes no step.
pub exited_timer :
    {m : ℕ} {c c' : System} → Timer.Step m c c' → c'.timer ≢ c.timer → c.timer ≡ exited → ⊥
exited_timer (slot_begins e f) ne gone = cc (e, gone)
exited_timer (slot_refused e f) ne gone = cc (e, gone)
exited_timer (passes e lt f) ne gone = cc (e, gone)
exited_timer (ticks e f) ne gone = cc (e, gone)
exited_timer (resumes e lt) ne gone = cc (e, gone)
exited_timer (slot_ends e f) ne gone = cc (e, gone)
exited_timer (reports i lt e) ne gone = ne refl
exited_timer (returns i lt e f) ne gone = ne refl
exited_timer (detaches i lt e) ne gone = ne refl
exited_timer stops ne gone = ne refl

pub halted_devices :
    {Q : Type 0} {n : ℕ} {s : Sim Q}
    → Coupled n s
    → AllHalted n s
    → (k : ℕ) → k < suc n
    → (s.clock.device k).pc ≡ detached
halted_devices c all zero lt = c.loader ∙ ap loader_pc all.1
halted_devices c all (suc i) lt =
    c.cpus i (omega (arith, lt)) ∙ ap cpu_pc (all.0 i (omega (arith, lt)))
