-- ===== src/Main/Live.antt =====
-- Where the program of src/os.c can come to a stop.
use hk252_co2017_nhom2_btl.Prelude.{
  Bool-cases, List, Outcome, Ptr, Returns, [], arith, fault, inl, inr, is_zero, none, null, ok, ptr,
  refl, some, suc, sym, wild, zero, ℕ, ℕ_discrete, ◌%◌, ◌<◌, ◌^◌, ◌∷◌, ◌≡◌, ◌⊎◌,
}
use mathlib.Core.Path.{subst}
use hk252_co2017_nhom2_btl.Cpu.{run}
use hk252_co2017_nhom2_btl.Os.{LdArg, World}
use hk252_co2017_nhom2_btl.Threads.{
  CpuPlace, CpuWork, LdPlace, LdWork, Setting, Shared, at_add, at_head, at_wait, checking, head,
  put_back, ready,
}
use hk252_co2017_nhom2_btl.Threads.Enabled.{
  CpuReturns, Gets, LdWorkReturns, LoaderReturns, WorkReturns,
}
use hk252_co2017_nhom2_btl.Threads.Progress.{Reach_progress}
use hk252_co2017_nhom2_btl.Main.{Program, Run, created, returned}
use hk252_co2017_nhom2_btl.Main.Progress.{CanProceed, proceeds}
use hk252_co2017_nhom2_btl.Main.Returned.{Run-Phase}

Returns-or_not : {A : Type 0} (m : Outcome A) → Returns m ⊎ (Returns m → ⊥)
Returns-or_not (ok a) = inl (a, refl)
Returns-or_not (fault e) = inr (λ r. absurd (cc (r.1)))

-- All below `n`, or one that is not
all_or_one :
    (P : ℕ → Type 0)
    → ((i : ℕ) → P i ⊎ (P i → ⊥))
    → (n : ℕ) → ((i : ℕ) → i < n → P i) ⊎ ((i : ℕ) × (i < n) × (P i → ⊥))
all_or_one P decide zero = inl (λ i lt. absurd (omega (arith, lt)))
all_or_one P decide (suc n) = elim (decide n) [
  | inr no_n ↦ inr (n, omega arith, no_n)
  | inl last ↦ elim (all_or_one P decide n) [
    | inr (i, lt, no_i) ↦ inr (i, omega (arith, lt), no_i)
    | inl all ↦ inl (λ i lt. elim (ℕ_discrete i n) [
      | yes same ↦ subst P (sym same) last
      | no other ↦ all i (omega (arith, lt, other))
    ])
  ]
]

module _ {Q : Type 0} (env : Setting Q) where
  Gets-or_not : (q : Q) → Gets env q ⊎ (Gets env q → ⊥)
  Gets-or_not q = known (env.sched.get_proc q) refl
    where
      known : (r : Outcome (Ptr ℕ × Q)) → env.sched.get_proc q ≡ r → Gets env q ⊎ (Gets env q → ⊥)
      known (ok (null, q')) e = inl (inl (q', e))
      known (ok (ptr h, q')) e = inl (inr (h, q', e))
      known (ok (wild, q')) e =
          inr (λ g. elim g [ inl (u, f) ↦ absurd (cc (e, f)) | inr (h, u, f) ↦ absurd (cc (e, f)) ])
      known (fault u) e =
          inr (λ g. elim g [ inl (v, f) ↦ absurd (cc (e, f)) | inr (h, v, f) ↦ absurd (cc (e, f)) ])

  work_or_not :
      (w : World Q) (work : CpuWork) → WorkReturns env w work ⊎ (WorkReturns env w work → ⊥)
  work_or_not w (head none t) = Gets-or_not w.queues
  work_or_not w (head (some h) t) = elim (ℕ_discrete (w.procs h).pc (w.procs h).size) [
    | yes over ↦ elim (Gets-or_not w.queues) [
      | inl g ↦ inl ((λ e. g), (λ ne z. absurd (ne over)))
      | inr none_got ↦ inr (λ r. none_got (r.0 over))
    ]
    | no on ↦ elim (Bool-cases (is_zero t)) [
      | inl out ↦ elim (Returns-or_not (env.sched.put_proc w.queues h (w.prio h))) [
        | inl r ↦ inl ((λ e. absurd (on e)), (λ ne z. r))
        | inr stuck ↦ inr (λ r. stuck (r.1 on out))
      ]
      | inr left ↦ inl ((λ e. absurd (on e)), (λ ne z. absurd (cc (left, z))))
    ]
  ]
  work_or_not w (put_back t) = Gets-or_not w.queues
  work_or_not w (checking t) = inl tt
  work_or_not w (ready h t) = Returns-or_not (run env.surroundings (w.procs h) w.machine)

  cpu_or_not : (w : World Q) (p : CpuPlace) → CpuReturns env w p ⊎ (CpuReturns env w p → ⊥)
  cpu_or_not w (CpuPlace.works work) = work_or_not w work
  cpu_or_not w (CpuPlace.due proc t) = inl tt
  cpu_or_not w (CpuPlace.asleep proc t) = inl tt
  cpu_or_not w CpuPlace.stopping = inl tt
  cpu_or_not w CpuPlace.halted = inl tt

  load_or_not :
      (x : Shared Q) (work : LdWork) → LdWorkReturns env x work ⊎ (LdWorkReturns env x work → ⊥)
  load_or_not x (at_head []) = inl tt
  load_or_not x (at_head (arg ∷ args)) = Returns-or_not (env.load x.avail_pid arg.path)
  load_or_not x (at_wait arg args loaded) = inl tt
  load_or_not x (at_add arg args loaded) =
      Returns-or_not (env.sched.add_proc x.world.queues x.next (arg.prio % 2 ^ 32))

  loader_or_not : (x : Shared Q) (p : LdPlace) → LoaderReturns env x p ⊎ (LoaderReturns env x p → ⊥)
  loader_or_not x (LdPlace.works work) = load_or_not x work
  loader_or_not x (LdPlace.due work) = inl tt
  loader_or_not x (LdPlace.asleep work) = inl tt
  loader_or_not x LdPlace.stopping = inl tt
  loader_or_not x LdPlace.halted = inl tt

  -- A CPU below `n`, or the loader, is at a call that does not return.
  abbrev pub CallIsStuck : ℕ → Program Q → Type 0
  CallIsStuck n p =
      ((i : ℕ) × (i < n) × ¬ CpuReturns env p.sim.shared.world (p.sim.cpu i))
      ⊎ (¬ LoaderReturns env p.sim.shared p.sim.loader)

module _ {Q : Type 0} (env : Setting Q) (n : ℕ) (shared : Shared Q) (args : List LdArg) where
  -- In every state that the program can reach, with any number of CPUs and whatever the scheduler,
  -- load and the system calls do, the timer, a CPU, the loader or main can take a step, unless main
  -- has returned, or a CPU or the loader is at a call of the scheduler, of run or of load that does
  -- not return. So the slots of the timer, the end of the threads and the joins of main never leave
  -- them all waiting for each other.
  pub Run_live :
      {k : ℕ} {p : Program Q}
      → Run env n (created n shared args) k p
      → CanProceed env n p ⊎ (p.main ≡ returned) ⊎ CallIsStuck env n p
  Run_live {p = p} run =
      elim (all_or_one (λ i. CpuReturns env p.sim.shared.world (p.sim.cpu i))
        (λ i. cpu_or_not env p.sim.shared.world (p.sim.cpu i)) n) [
          | inr (i, lt, stuck) ↦ inr (inr (inl (i, lt, stuck)))
          | inl cpus ↦ elim (loader_or_not env p.sim.shared p.sim.loader) [
            | inr stuck ↦ inr (inr (inr stuck))
            | inl loader ↦
                elim (proceeds env n shared args p p.main refl (Run-Phase env n shared args run)
                  (λ r. Reach_progress env n r cpus loader)) [
                    | inl more ↦ inl more
                    | inr over ↦ inr (inl over)
                  ]
          ]
        ]
