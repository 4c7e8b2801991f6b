-- ===== src/Threads/Stalled.antt =====
-- The threads of src/os.c with the scheduler of src/sched.c, whose get_proc keeps `queue_lock`.
use hk252_co2017_nhom2_btl.Timer
use hk252_co2017_nhom2_btl.Timer.{System, start_timer, outside}
use hk252_co2017_nhom2_btl.Prelude.{
  List, ap, arith, false, refl, suc, sym, true, update, update-all, ℕ, ◌<◌, ◌∙◌, ◌≡◌, ◌≢◌, ◌≤◌,
}
use hk252_co2017_nhom2_btl.Timer.Lockstep.{Reach-turns}
use hk252_co2017_nhom2_btl.Threads.Clock.{Coupled, Reach-Coupled, own_steps, Step-Coupled}
use hk252_co2017_nhom2_btl.Threads.Steps.{
  timer_moves, cpu_moves, cpu_sleeps, cpu_wakes, cpu_detaches, loader_moves, loader_sleeps,
  loader_wakes, loader_detaches, started, Reach, start, later, resumed, Step,
}
use hk252_co2017_nhom2_btl.Sched.{Sched}
use hk252_co2017_nhom2_btl.Sched.Deadlock.{add_proc-unlocked}
use hk252_co2017_nhom2_btl.Os.{World, LdArg}
use hk252_co2017_nhom2_btl.Threads.{
  LdMove, Shared, System, Sim, CpuPlace, LdPlace, Setting, CpuMove, loads, sets_kernel, adds,
  finishes, waits,
}
use hk252_co2017_nhom2_btl.Threads.Owners.{owns}
use hk252_co2017_nhom2_btl.Threads.Idling.{
  as_written, is_idle, latest, at_work, locked, idle_asleep, idle_head, idle-owns, CpuMove-idle,
  latest_outside, idle_slots,
}

module _ (n : ℕ) (some_cpu : 0 < n) where
  -- Only one call of get_proc has returned, and before it nothing has happened but that one process
  -- may have come.
  record Stalled (s : Sim Sched) : Type 0 where
    pub idle : (i : ℕ) → i < n → is_idle (s.cpu i) ≡ true
    pub turns : (i : ℕ) → i < n → (s.clock.device (suc i)).turns ≤ latest (s.cpu i)
    pub unlocked :
        locked s.shared.world ≡ false
        → (i : ℕ) → i < n
        → (latest (s.cpu i) ≡ 1) × ((s.clock.device (suc i)).turns ≡ 0)
    pub few : s.shared.next ≤ 1
    pub first : locked s.shared.world ≡ false → at_work s.loader ≡ true → s.shared.next ≡ 0

  timer_moves-Stalled :
      (s : Sim Sched) {c : System}
      → Timer.Step (suc n) s.clock c
      → c.timer ≢ s.clock.timer
      → Stalled s
      → Stalled (record s { clock = c })
  timer_moves-Stalled s step ne i = record {
    idle = i.idle;
    turns = λ j l. omega (arith, i.turns j l, (own_steps step ne (suc j)).1);
    unlocked =
        λ e j l. ((i.unlocked e j l).0, (own_steps step ne (suc j)).1 ∙ (i.unlocked e j l).1);
    few = i.few;
    first = i.first;
  }

  cpu_moves-Stalled :
      (env : Setting Sched) (s : Sim Sched) (k : ℕ) {w : World Sched} {p : CpuPlace}
      → k < n
      → CpuMove (as_written env) s.shared.world (s.cpu k) w p
      → Stalled s
      → Stalled (record s { shared = record s.shared { world = w }; cpu = update s.cpu k p })
  cpu_moves-Stalled env s k {w} {p} lt move i =
      let m = CpuMove-idle env move (i.idle k lt) in
      let before = i.unlocked m.0 in
      record {
        idle = λ j l. update-all s.cpu k p (λ j a. is_idle a ≡ true) m.2 j (λ ne. i.idle j l);
        turns = λ j l. omega (arith, (before j l).1);
        unlocked = λ e. absurd (cc (e, m.1));
        few = i.few;
        first = λ e. absurd (cc (e, m.1));
      }

  -- A CPU goes into next_slot or out of it only when the lock is taken.
  cpu_turns-Stalled :
      (s : Sim Sched) (k : ℕ) (p : CpuPlace) (c : System)
      → k < n
      → latest (s.cpu k) ≡ 0
      → is_idle p ≡ is_idle (s.cpu k)
      → (c.device (suc k)).turns ≤ latest p
      → ((j : ℕ) → k ≢ j → (c.device (suc j)).turns ≡ (s.clock.device (suc j)).turns)
      → Stalled s
      → Stalled (record s { clock = c; cpu = update s.cpu k p })
  cpu_turns-Stalled s k p c lt inside same here others i = record {
    idle = λ j l.
        update-all s.cpu k p (λ j a. is_idle a ≡ true) (same ∙ i.idle k lt) j (λ ne. i.idle j l);
    turns = λ j l.
        update-all s.cpu k p (λ j a. (c.device (suc j)).turns ≤ latest a) here j
          (λ ne. omega (arith, others j ne, i.turns j l));
    unlocked = λ e. absurd (omega (arith, (i.unlocked e k lt).0, inside));
    few = i.few;
    first = i.first;
  }

  loader_moves-Stalled :
      (env : Setting Sched) (s : Sim Sched) {x : Shared Sched} {l p : LdPlace}
      → LdMove (as_written env) s.clock.time s.shared l x p
      → Stalled (record s { loader = l })
      → Stalled (record s { shared = x; loader = p })
  loader_moves-Stalled env s (loads e) i = record {
    idle = i.idle;
    turns = i.turns;
    unlocked = i.unlocked;
    few = i.few;
    first = i.first;
  }
  loader_moves-Stalled env s (waits e) i = record {
    idle = i.idle;
    turns = i.turns;
    unlocked = i.unlocked;
    few = i.few;
    first = λ e w. absurd (cc w);
  }
  loader_moves-Stalled env s (sets_kernel e) i = record {
    idle = i.idle;
    turns = i.turns;
    unlocked = i.unlocked;
    few = i.few;
    first = i.first;
  }
  loader_moves-Stalled env s (adds e) i =
      let free = add_proc-unlocked _ _ _ _ e in
      record {
        idle = i.idle;
        turns = i.turns;
        unlocked = λ f. i.unlocked free;
        few = omega (arith, i.first free refl);
        first = λ e w. absurd (cc w);
      }
  loader_moves-Stalled env s finishes i = record {
    idle = i.idle;
    turns = i.turns;
    unlocked = i.unlocked;
    few = i.few;
    first = λ e w. absurd (cc w);
  }

  -- The loader enters next_slot, or detaches.
  loader_rests-Stalled :
      (s : Sim Sched) (p : LdPlace) (c : System)
      → ((i : ℕ) → (c.device (suc i)).turns ≡ (s.clock.device (suc i)).turns)
      → (locked s.shared.world ≡ false → at_work p ≡ true → s.shared.next ≡ 0)
      → Stalled s
      → Stalled (record s { clock = c; loader = p })
  loader_rests-Stalled s p c same first i = record {
    idle = i.idle;
    turns = λ j l. omega (arith, same j, i.turns j l);
    unlocked = λ e j l. ((i.unlocked e j l).0, same j ∙ (i.unlocked e j l).1);
    few = i.few;
    first = first;
  }

  Step-Stalled :
      (env : Setting Sched) {s t : Sim Sched}
      → Step (as_written env) n s t
      → Coupled n s
      → Stalled s
      → Stalled t
  Step-Stalled env {s} (timer_moves step ne) c i = timer_moves-Stalled s step ne i
  Step-Stalled env {s} (cpu_moves k lt move) c i = cpu_moves-Stalled env s k lt move i
  Step-Stalled env {s} (cpu_sleeps k {proc} {t} lt e) c i =
      cpu_turns-Stalled s k (CpuPlace.asleep proc t) _ lt (ap latest e)
        (sym (idle_asleep proc t) ∙ ap is_idle (sym e)) (ground (arith, i.turns k lt, ap latest e))
        (λ j ne. ground arith) i
  Step-Stalled env {s} (cpu_wakes k {proc} {t} lt e f) c i =
      cpu_turns-Stalled s k (resumed proc t) _ lt (ap latest e)
        (sym (idle_head proc t) ∙ ap is_idle (sym e)) (ground (arith, i.turns k lt, ap latest e))
        (λ j ne. ground arith) i
  Step-Stalled env {s} (cpu_detaches k lt e) c i = absurd (cc (i.idle k lt, e))
  Step-Stalled env {s} (loader_moves move) c i = loader_moves-Stalled env s move i
  Step-Stalled env {s} (loader_sleeps {work} e) c i =
      loader_rests-Stalled s (LdPlace.asleep work) _ (λ j. ground arith) (λ f w. absurd (cc w)) i
  -- With the lock free, no CPU has ended its first slot.
  Step-Stalled env {s} (loader_wakes {work} e d) c i =
      loader_rests-Stalled s (LdPlace.works work) _ (λ j. ground arith) (λ f w. absurd (early f)) i
    where
      early : locked s.shared.world ≡ false → ⊥
      early f =
          let after = Step-Coupled {env = as_written env} (loader_wakes e d) c in
          let here = (Reach-turns after.clock 0 (omega (arith, some_cpu)) refl).0 in
          let out =
            c.cpus 0 some_cpu
            ∙ latest_outside (s.cpu 0) (i.idle 0 some_cpu) (i.unlocked f 0 some_cpu).0 in
          omega (
            arith,
            here,
            (i.unlocked f 0 some_cpu).1,
            (Reach-turns c.clock 1 (omega (arith, some_cpu)) out).0,
          )
  Step-Stalled env {s} (loader_detaches e) c i =
      loader_rests-Stalled s LdPlace.halted _ (λ j. ground arith) (λ f w. absurd (cc w)) i

  Reach-Stalled :
      (env : Setting Sched) {shared : Shared Sched} {args : List LdArg} {s : Sim Sched}
      → Reach (as_written env) n (started n shared args) s
      → shared.next ≡ 0
      → Stalled s
  unfolding start_timer
  Reach-Stalled env {shared} start none_yet = record {
    idle = λ j l. refl;
    turns = λ j l. omega arith;
    unlocked = λ e j l. (refl, refl);
    few = omega (arith, none_yet);
    first = λ e w. none_yet;
  }
  Reach-Stalled env (later r step) none_yet =
      Step-Stalled env step (Reach-Coupled r) (Reach-Stalled env r none_yet)

  -- CPU 0 never ends.
  pub Reach-running :
      (env : Setting Sched) {shared : Shared Sched} {args : List LdArg} {s : Sim Sched}
      → Reach (as_written env) n (started n shared args) s
      → shared.next ≡ 0
      → s.cpu 0 ≢ CpuPlace.halted
  Reach-running env r none_yet e = absurd (cc ((Reach-Stalled env r none_yet).idle 0 some_cpu, e))

  -- With the scheduler of src/sched.c, whose get_proc keeps `queue_lock`, at least one CPU, and no
  -- process loaded at the start, in every state that the program's threads can reach no CPU holds a
  -- process, at most one process has been handed to the scheduler, and at most one time slot has
  -- ended; so no instruction of any process is ever run.
  pub Reach_stalled :
      (env : Setting Sched) {shared : Shared Sched} {args : List LdArg} {s : Sim Sched}
      → Reach (as_written env) n (started n shared args) s
      → shared.next ≡ 0
      → ((i : ℕ) → i < n → (j : ℕ) → owns (s.cpu i) j ≡ 0)
        × (s.shared.next ≤ 1)
        × (s.clock.ended ≤ 1)
  Reach_stalled env {s = s} r none_yet = (λ k lt. idle-owns (s.cpu k) (i.idle k lt), i.few, slots)
    where
      i : Stalled s
      i = Reach-Stalled env r none_yet

      slots : s.clock.ended ≤ 1
      slots =
          idle_slots (Reach-Coupled r).clock (omega (arith, some_cpu)) (s.cpu 0)
            ((Reach-Coupled r).cpus 0 some_cpu) (i.idle 0 some_cpu) (i.turns 0 some_cpu)
