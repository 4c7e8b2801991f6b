-- ===== src/Threads/Clock.antt =====
-- The threads of src/os.c as clients of the timer of src/timer.c.
use hk252_co2017_nhom2_btl.Prelude.{
  List, ap, arith, refl, suc, sym, update, update-all, ℕ, ◌<◌, ◌∙◌, ◌≡◌, ◌≢◌,
}
use hk252_co2017_nhom2_btl.Timer
use hk252_co2017_nhom2_btl.Timer.{
  Device, DevicePc, outside, waiting, detached, System, attached, start_timer, reported, returned,
  detached_from, slot_begins, slot_refused, passes, ticks, resumes, slot_ends, reports, returns,
  detaches, stops,
}
use hk252_co2017_nhom2_btl.Os.{World, LdArg}
use hk252_co2017_nhom2_btl.Threads.{
  CpuPlace, LdPlace, Shared, Sim, Setting, CpuMove, LdMove, gets_first, loads,
}
use hk252_co2017_nhom2_btl.Threads.Steps.{
  timer_moves, cpu_moves, cpu_sleeps, cpu_wakes, cpu_detaches, loader_moves, loader_sleeps,
  loader_wakes, loader_detaches, started, Step, Reach, start, later,
}

-- Where the device of a CPU stands, and that of the loader.
abbrev pub cpu_pc : CpuPlace → DevicePc
cpu_pc (CpuPlace.works w) = outside
cpu_pc (CpuPlace.due p t) = outside
cpu_pc (CpuPlace.asleep p t) = waiting
cpu_pc CpuPlace.stopping = outside
cpu_pc CpuPlace.halted = detached

abbrev pub loader_pc : LdPlace → DevicePc
loader_pc (LdPlace.works w) = outside
loader_pc (LdPlace.due w) = outside
loader_pc (LdPlace.asleep w) = waiting
loader_pc LdPlace.stopping = outside
loader_pc LdPlace.halted = detached

-- The threads stand where their devices do, and the timer is in a state that it can reach.
pub record Coupled {Q : Type 0} (n : ℕ) (s : Sim Q) : Type 0 where
  pub clock : Timer.Reach (suc n) s.clock
  pub cpus : (i : ℕ) → i < n → (s.clock.device (suc i)).pc ≡ cpu_pc (s.cpu i)
  pub loader : (s.clock.device 0).pc ≡ loader_pc s.loader

-- A step of the timer itself leaves the threads where they are, and their turns.
pub own_steps :
    {m : ℕ} {c c' : System}
    → Timer.Step m c c'
    → c'.timer ≢ c.timer
    → (j : ℕ) → ((c'.device j).pc ≡ (c.device j).pc) × ((c'.device j).turns ≡ (c.device j).turns)
own_steps (slot_begins e f) ne j = (refl, refl)
own_steps (slot_refused e f) ne j = (refl, refl)
own_steps (passes e lt f) ne j = (refl, refl)
own_steps (ticks e f) ne j = (refl, refl)
own_steps (resumes e lt) ne j = (ground arith, ground arith)
own_steps (slot_ends e f) ne j = (refl, refl)
own_steps (reports i lt e) ne j = absurd (ne refl)
own_steps (returns i lt e f) ne j = absurd (ne refl)
own_steps (detaches i lt e) ne j = absurd (ne refl)
own_steps stops ne j = absurd (ne refl)

-- A CPU works with its device outside.
pub CpuMove-outside :
    {Q : Type 0} (env : Setting Q) {w w' : World Q} {p p' : CpuPlace}
    → CpuMove env w p w' p'
    → (cpu_pc p ≡ outside) × (cpu_pc p' ≡ outside)
CpuMove-outside env (gets_first e) = (refl, refl)
CpuMove-outside env move = (refl, refl)

pub LdMove-outside :
    {Q : Type 0} (env : Setting Q) {now : ℕ} {x x' : Shared Q} {p p' : LdPlace}
    → LdMove env now x p x' p'
    → (loader_pc p ≡ outside) × (loader_pc p' ≡ outside)
LdMove-outside env (loads e) = (refl, refl)
LdMove-outside env move = (refl, refl)

module _ {Q : Type 0} {n : ℕ} {s : Sim Q} (c : Coupled n s) where
  -- CPU `i` and its device move together.
  cpu-Coupled :
      (i : ℕ) (d : Device) (p : CpuPlace)
      → Timer.Reach (suc n) (record s.clock { device = update s.clock.device (suc i) d })
      → d.pc ≡ cpu_pc p
      → (x : Shared Q)
      → Coupled n (record s {
        clock = record s.clock { device = update s.clock.device (suc i) d };
        shared = x;
        cpu = update s.cpu i p;
      })
  cpu-Coupled i d p r e x = record {
    clock = r;
    cpus = λ j lt. ground (arith, e, c.cpus j lt);
    loader = ground (arith, c.loader);
  }

  loader-Coupled :
      (d : Device) (p : LdPlace)
      → Timer.Reach (suc n) (record s.clock { device = update s.clock.device 0 d })
      → d.pc ≡ loader_pc p
      → Coupled n
          (record s { clock = record s.clock { device = update s.clock.device 0 d }; loader = p })
  loader-Coupled d p r e = record {
    clock = r;
    cpus = λ j lt. ground (arith, c.cpus j lt);
    loader = ground (arith, e);
  }

pub Step-Coupled :
    {Q : Type 0} {env : Setting Q} {n : ℕ} {s t : Sim Q}
    → Step env n s t
    → Coupled n s
    → Coupled n t
Step-Coupled (timer_moves step ne) c = record {
  clock = Timer.later c.clock step;
  cpus = λ i lt. (own_steps step ne (suc i)).0 ∙ c.cpus i lt;
  loader = (own_steps step ne 0).0 ∙ c.loader;
}
Step-Coupled {env = env} {s = s} (cpu_moves i {p = p} lt move) c =
    let at = CpuMove-outside env move in
    record {
      clock = c.clock;
      cpus = λ j l.
          update-all s.cpu i p (λ k a. (s.clock.device (suc k)).pc ≡ cpu_pc a)
            (c.cpus i lt ∙ at.0 ∙ sym at.1) j (λ ne. c.cpus j l);
      loader = c.loader;
    }
Step-Coupled {s = s} (cpu_sleeps i lt e) c =
    cpu-Coupled c i _ _
      (Timer.later c.clock (reports (suc i) (omega arith) (c.cpus i lt ∙ ap cpu_pc e))) refl
      s.shared
Step-Coupled {s = s} (cpu_wakes i lt e f) c =
    cpu-Coupled c i _ _
      (Timer.later c.clock (returns (suc i) (omega arith) (c.cpus i lt ∙ ap cpu_pc e) f)) refl
      s.shared
Step-Coupled {s = s} (cpu_detaches i lt e) c =
    cpu-Coupled c i _ _
      (Timer.later c.clock (detaches (suc i) (omega arith) (c.cpus i lt ∙ ap cpu_pc e))) refl
      s.shared
Step-Coupled {env = env} (loader_moves move) c =
    let at = LdMove-outside env move in
    record { clock = c.clock; cpus = c.cpus; loader = c.loader ∙ at.0 ∙ sym at.1 }
Step-Coupled (loader_sleeps e) c =
    loader-Coupled c _ _ (Timer.later c.clock (reports 0 (omega arith) (c.loader ∙ ap loader_pc e)))
      refl
Step-Coupled (loader_wakes e f) c =
    loader-Coupled c _ _
      (Timer.later c.clock (returns 0 (omega arith) (c.loader ∙ ap loader_pc e) f)) refl
Step-Coupled (loader_detaches e) c =
    loader-Coupled c _ _
      (Timer.later c.clock (detaches 0 (omega arith) (c.loader ∙ ap loader_pc e))) refl

started-Coupled :
    {Q : Type 0} (n : ℕ) (shared : Shared Q) (args : List LdArg) → Coupled n (started n shared args)
unfolding start_timer
started-Coupled n shared args = record { clock = Timer.start; cpus = λ i lt. refl; loader = refl }

-- In every state that the program's threads can reach, the timer and its devices are in a state of
-- the step relation of src/timer.c, with one device for each CPU and one for the loader, and the
-- device of each thread stands where the thread does: in the second half of next_slot exactly when
-- the thread is, and detached exactly when the thread has called detach_event.
pub Reach-Coupled :
    {Q : Type 0} {env : Setting Q} {n : ℕ} {shared : Shared Q} {args : List LdArg} {s : Sim Q}
    → Reach env n (started n shared args) s
    → Coupled n s
Reach-Coupled {n = n} {shared} {args} start = started-Coupled n shared args
Reach-Coupled (later r step) = Step-Coupled step (Reach-Coupled r)
