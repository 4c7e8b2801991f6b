-- ===== src/Threads/Enabled.antt =====
-- What a thread of src/os.c can do, wherever it stands in its work.
use hk252_co2017_nhom2_btl.Prelude.{
  Bool-cases, Returns, [], arith, false, inl, inr, is_zero, ltb, none, null, ok, ptr, refl, some,
  suc, sym, true, zero, ℕ, ℕ_discrete, ◌%◌, ◌<◌, ◌^◌, ◌∷◌, ◌≡◌, ◌≢◌, ◌⊎◌,
}
use mathlib.Core.Path.{subst}
use hk252_co2017_nhom2_btl.Timer.{Device, DevicePc, outside, waiting}
use hk252_co2017_nhom2_btl.Threads.Clock.{cpu_pc, loader_pc, Coupled}
use hk252_co2017_nhom2_btl.Threads.Steps.{
  cpu_moves, cpu_sleeps, cpu_wakes, cpu_detaches, loader_moves, loader_sleeps, loader_wakes,
  loader_detaches, Step,
}
use hk252_co2017_nhom2_btl.Cpu.{run}
use hk252_co2017_nhom2_btl.Os.{World}
use hk252_co2017_nhom2_btl.Threads.{
  CpuWork, head, put_back, checking, ready, CpuPlace, LdWork, at_head, at_wait, at_add, LdPlace,
  Shared, Sim, Setting, CpuMove, LdMove, gets_first, misses_first, replaces, drops, puts, gets_next,
  misses_next, keeps, breaks, skips, runs, loads, waits, sets_kernel, adds, finishes,
}

module _ {Q : Type 0} (env : Setting Q) where
  open env use {sched}
  open sched use {get_proc, put_proc, add_proc}

  -- A call of get_proc that returns, with NULL or with a process
  abbrev pub Gets : Q → Type 0
  Gets q =
      ((q' : Q) × (get_proc q ≡ ok (null, q')))
      ⊎ ((h : ℕ) × (q' : Q) × (get_proc q ≡ ok (ptr h, q')))

  -- The call that a CPU makes next returns: of the scheduler, or of `run`.
  abbrev pub WorkReturns : World Q → CpuWork → Type 0
  WorkReturns w (head none t) = Gets w.queues
  WorkReturns w (head (some h) t) =
      ((w.procs h).pc ≡ (w.procs h).size → Gets w.queues)
      × ((w.procs h).pc ≢ (w.procs h).size
          → is_zero t ≡ true
          → Returns (put_proc w.queues h (w.prio h)))
  WorkReturns w (put_back t) = Gets w.queues
  WorkReturns w (checking t) = Unit
  WorkReturns w (ready h t) = Returns (run env.surroundings (w.procs h) w.machine)

  abbrev pub CpuReturns : World Q → CpuPlace → Type 0
  CpuReturns w (CpuPlace.works work) = WorkReturns w work
  CpuReturns w (CpuPlace.due proc t) = Unit
  CpuReturns w (CpuPlace.asleep proc t) = Unit
  CpuReturns w CpuPlace.stopping = Unit
  CpuReturns w CpuPlace.halted = Unit

  -- The call that the loader makes next returns: of load, or of add_proc.
  abbrev pub LdWorkReturns : Shared Q → LdWork → Type 0
  LdWorkReturns x (at_head []) = Unit
  LdWorkReturns x (at_head (arg ∷ args)) = Returns (env.load x.avail_pid arg.path)
  LdWorkReturns x (at_wait arg args loaded) = Unit
  LdWorkReturns x (at_add arg args loaded) =
      Returns (add_proc x.world.queues x.next (arg.prio % 2 ^ 32))

  abbrev pub LoaderReturns : Shared Q → LdPlace → Type 0
  LoaderReturns x (LdPlace.works work) = LdWorkReturns x work
  LoaderReturns x (LdPlace.due work) = Unit
  LoaderReturns x (LdPlace.asleep work) = Unit
  LoaderReturns x LdPlace.stopping = Unit
  LoaderReturns x LdPlace.halted = Unit

  -- Some thread can take a step.
  abbrev pub CanStep : ℕ → Sim Q → Type 0
  CanStep n s = (t : Sim Q) × Step env n s t

  -- A thread can return to its work, or is in it.
  abbrev pub Awaited : DevicePc → Device → Type 0
  Awaited pc d = (pc ≡ outside) ⊎ ((pc ≡ waiting) × (d.id.done ≡ false))

module _ {Q : Type 0} (env : Setting Q) where
  -- A CPU in its work of a slot can go on.
  CpuWork-moves :
      (w : World Q) (work : CpuWork)
      → WorkReturns env w work
      → (w' : World Q) × (p' : CpuPlace) × CpuMove env w (CpuPlace.works work) w' p'
  CpuWork-moves w (head none t) safe = elim safe [
    | inl (q, e) ↦ (_, _, misses_first e)
    | inr (h, q, e) ↦ (_, _, gets_first e)
  ]
  CpuWork-moves w (head (some h) t) safe = elim (ℕ_discrete (w.procs h).pc (w.procs h).size) [
    | yes over ↦ elim (safe.0 over) [
      | inl (q, e) ↦ (_, _, drops over e)
      | inr (k, q, e) ↦ (_, _, replaces over e)
    ]
    | no on ↦ elim (Bool-cases (is_zero t)) [
      | inl out ↦ (_, _, puts on out (safe.1 on out).1)
      | inr left ↦ (_, _, keeps on left)
    ]
  ]
  CpuWork-moves w (put_back t) safe = elim safe [
    | inl (q, e) ↦ (_, _, misses_next e)
    | inr (h, q, e) ↦ (_, _, gets_next e)
  ]
  CpuWork-moves w (checking t) safe = elim (Bool-cases w.done) [
    | inl over ↦ (_, _, breaks over)
    | inr on ↦ (_, _, skips on)
  ]
  CpuWork-moves w (ready h t) safe = (_, _, runs safe.1)

  LdWork-moves :
      (now : ℕ) (x : Shared Q) (work : LdWork)
      → LdWorkReturns env x work
      → (x' : Shared Q) × (p' : LdPlace) × LdMove env now x (LdPlace.works work) x' p'
  LdWork-moves now x (at_head []) safe = (_, _, finishes)
  LdWork-moves now x (at_head (arg ∷ args)) safe = (_, _, loads safe.1)
  LdWork-moves now x (at_wait arg args loaded) safe = elim (Bool-cases (ltb now arg.start_time)) [
    | inl early ↦ (_, _, waits early)
    | inr due ↦ (_, _, sets_kernel due)
  ]
  LdWork-moves now x (at_add arg args loaded) safe = (_, _, adds safe.1)

  cpu_steps :
      (n : ℕ) (s : Sim Q) (i : ℕ) (p : CpuPlace)
      → i < n
      → s.cpu i ≡ p
      → CpuReturns env s.shared.world p
      → Awaited env (cpu_pc p) (s.clock.device (suc i))
      → CanStep env n s
  cpu_steps n s i (CpuPlace.works work) lt at safe a =
      let (w', p', move) = CpuWork-moves s.shared.world work safe in
      (_, cpu_moves i lt (subst (λ p. CpuMove env s.shared.world p w' p') (sym at) move))
  cpu_steps n s i (CpuPlace.due proc t) lt at safe a = (_, cpu_sleeps i lt at)
  cpu_steps n s i (CpuPlace.asleep proc t) lt at safe (inl e) = absurd (cc e)
  cpu_steps n s i (CpuPlace.asleep proc t) lt at safe (inr (e, free)) = (_, cpu_wakes i lt at free)
  cpu_steps n s i CpuPlace.stopping lt at safe a = (_, cpu_detaches i lt at)
  cpu_steps n s i CpuPlace.halted lt at safe (inl e) = absurd (cc e)
  cpu_steps n s i CpuPlace.halted lt at safe (inr (e, free)) = absurd (cc e)

  loader_steps :
      (n : ℕ) (s : Sim Q) (p : LdPlace)
      → s.loader ≡ p
      → LoaderReturns env s.shared p
      → Awaited env (loader_pc p) (s.clock.device 0)
      → CanStep env n s
  loader_steps n s (LdPlace.works work) at safe a =
      let (x', p', move) = LdWork-moves s.clock.time s.shared work safe in
      (_, loader_moves (subst (λ p. LdMove env s.clock.time s.shared p x' p') (sym at) move))
  loader_steps n s (LdPlace.due work) at safe a = (_, loader_sleeps at)
  loader_steps n s (LdPlace.asleep work) at safe (inl e) = absurd (cc e)
  loader_steps n s (LdPlace.asleep work) at safe (inr (e, free)) = (_, loader_wakes at free)
  loader_steps n s LdPlace.stopping at safe a = (_, loader_detaches at)
  loader_steps n s LdPlace.halted at safe (inl e) = absurd (cc e)
  loader_steps n s LdPlace.halted at safe (inr (e, free)) = absurd (cc e)

  -- A thread that the timer waits for can go on.
  pub Awaited-CanStep :
      (n : ℕ) (s : Sim Q)
      → Coupled n s
      → ((i : ℕ) → i < n → CpuReturns env s.shared.world (s.cpu i))
      → LoaderReturns env s.shared s.loader
      → (k : ℕ) → k < suc n
      → Awaited env (s.clock.device k).pc (s.clock.device k)
      → CanStep env n s
  Awaited-CanStep n s c safe ld_safe zero lt a =
      loader_steps n s s.loader refl ld_safe
        (subst (λ pc. Awaited env pc (s.clock.device 0)) c.loader a)
  Awaited-CanStep n s c safe ld_safe (suc i) lt a =
      cpu_steps n s i (s.cpu i) (omega (arith, lt)) refl (safe i (omega (arith, lt)))
        (subst (λ pc. Awaited env pc (s.clock.device (suc i))) (c.cpus i (omega (arith, lt))) a)
