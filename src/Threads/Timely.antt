-- ===== src/Threads/Timely.antt =====
-- The loader of src/os.c and the start times of the configuration.
use hk252_co2017_nhom2_btl.Cpu.{Pcb}
use hk252_co2017_nhom2_btl.Prelude.{
  List, [], ap, arith, dec_lt, drop, get_elem?, length, lt-length_of_get_elem?, refl, some, suc,
  update-all, update_other, zero, ℕ, ℕ_discrete, ◌%◌, ◌<◌, ◌^◌, ◌∙◌, ◌∷◌, ◌≡◌, ◌≤◌,
}
use hk252_co2017_nhom2_btl.Cpu.Step.{SameProgram}
use hk252_co2017_nhom2_btl.Threads.{
  CpuPlace, LdPlace, Sim, Setting, LdMove, loads, waits, sets_kernel, adds, finishes, Shared,
}
use mathlib.Core.Path.{subst}
use hk252_co2017_nhom2_btl.Threads.Steps
use hk252_co2017_nhom2_btl.Threads.Steps.{
  timer_moves, cpu_moves, cpu_sleeps, cpu_wakes, cpu_detaches, loader_moves, loader_sleeps,
  loader_wakes, loader_detaches, started, Reach, start, later,
}
use hk252_co2017_nhom2_btl.Threads.Clock.{Coupled, Reach-Coupled}
use hk252_co2017_nhom2_btl.Timer.Invariant.{Reach-Inv}
use hk252_co2017_nhom2_btl.Timer.{System}
use hk252_co2017_nhom2_btl.Os.{World, LdArg}
use hk252_co2017_nhom2_btl.Threads.Due.{
  drop-head, pending, ended_grows, IsDue, IsDue-later, CpuMove-prio, CpuMove-SameProgram, HasCome,
}

module _ {Q : Type 0} (env : Setting Q) where
  record Timely (args : List LdArg) (s : Sim Q) : Type 0 where
    pub to_come : drop s.shared.next args ≡ pending s.loader
    pub due : IsDue env s.loader s.clock.ended
    pub come : (j : ℕ) → j < s.shared.next → HasCome env args s j

  -- What the timer and the CPUs do
  cpu_steps-Timely :
      (args : List LdArg) (s : Sim Q) (c : System) (cpu : ℕ → CpuPlace) (w : World Q)
      → s.clock.ended ≤ c.ended
      → w.prio ≡ s.shared.world.prio
      → ((j : ℕ) → SameProgram (w.procs j) (s.shared.world.procs j))
      → Timely args s
      → Timely args (record s { clock = c; cpu = cpu; shared = record s.shared { world = w } })
  cpu_steps-Timely args s c cpu w le same kept i = record {
    to_come = i.to_come;
    due = IsDue-later env s.loader s.clock.ended c.ended le i.due;
    come = λ j lt.
        let (arg, at, early, (prio, loaded, from, program)) = i.come j lt in
        (
          arg,
          at,
          omega (arith, le, early),
          (ap (λ f. f j) same ∙ prio, loaded, from, λ k. kept j k ∙ program k),
        );
  }

module _ {Q : Type 0} (env : Setting Q) (args : List LdArg) where
  loader_moves-Timely :
      (s : Sim Q) {x : Shared Q} {l p : LdPlace}
      → LdMove env s.clock.time s.shared l x p
      → s.clock.time ≤ s.clock.ended
      → Timely env args (record s { loader = l })
      → Timely env args (record s { shared = x; loader = p })
  loader_moves-Timely s (loads e) le i = record {
    to_come = i.to_come;
    due = (_, _, e);
    come = i.come;
  }
  loader_moves-Timely s (waits e) le i = record { to_come = i.to_come; due = i.due; come = i.come }
  loader_moves-Timely s (sets_kernel e) le i = record {
    to_come = i.to_come;
    due = (ground (arith, e, le), i.due);
    come = i.come;
  }
  loader_moves-Timely s (adds {arg = arg} {args = rest} {loaded = l} e) le i =
      let (here, next) = drop-head s.shared.next args arg rest i.to_come in
      record {
        to_come = ap (λ k. drop k args) {y = suc s.shared.next} (omega arith) ∙ next;
        due = tt;
        come = λ j lt. elim (ℕ_discrete s.shared.next j) [
          | yes new ↦ (
            arg,
            subst (λ k. get_elem? args k ≡ some arg) new here,
            i.due.0,
            (
              ground (arith, new),
              l,
              i.due.1,
              update-all s.shared.world.procs s.shared.next l.pcb (λ k q. SameProgram q l.pcb)
                  (λ c. refl) j (λ ne. absurd (ne new)),
            ),
          )
          | no old ↦
              let (a, at, early, (prio, earlier, from, program)) =
                i.come j (omega (arith, lt, old)) in
              (
                a,
                at,
                early,
                (
                  update_other s.shared.world.prio s.shared.next (arg.prio % 2 ^ 32) j old ∙ prio,
                  earlier,
                  from,
                  λ c.
                      ap (λ (q : Pcb). record q { pc = c })
                        (update_other s.shared.world.procs s.shared.next l.pcb j old)
                      ∙ program c,
                ),
              )
        ];
      }
  loader_moves-Timely s finishes le i = record { to_come = i.to_come; due = tt; come = i.come }

  Step-Timely :
      {n : ℕ} {s t : Sim Q}
      → Steps.Step env n s t
      → Coupled n s
      → Timely env args s
      → Timely env args t
  Step-Timely {s = s} (timer_moves step ne) c i =
      cpu_steps-Timely env args s _ s.cpu s.shared.world (ended_grows step) refl (λ j c. refl) i
  Step-Timely {s = s} (cpu_moves k lt move) c i =
      cpu_steps-Timely env args s s.clock _ _ (omega arith) (CpuMove-prio env move)
        (CpuMove-SameProgram env move) i
  Step-Timely {s = s} (cpu_sleeps k lt e) c i =
      cpu_steps-Timely env args s _ _ s.shared.world (omega arith) refl (λ j c. refl) i
  Step-Timely {s = s} (cpu_wakes k lt e f) c i =
      cpu_steps-Timely env args s _ _ s.shared.world (omega arith) refl (λ j c. refl) i
  Step-Timely {s = s} (cpu_detaches k lt e) c i =
      cpu_steps-Timely env args s _ _ s.shared.world (omega arith) refl (λ j c. refl) i
  Step-Timely {s = s} (loader_moves move) c i =
      loader_moves-Timely s move (omega (arith, (Reach-Inv c.clock).clock)) i
  Step-Timely {s = s} (loader_sleeps e) c i = record {
    to_come = i.to_come ∙ ap pending e;
    due = subst (λ p. IsDue env p s.clock.ended) e i.due;
    come = i.come;
  }
  Step-Timely {s = s} (loader_wakes e d) c i = record {
    to_come = i.to_come ∙ ap pending e;
    due = subst (λ p. IsDue env p s.clock.ended) e i.due;
    come = i.come;
  }
  Step-Timely (loader_detaches e) c i = record {
    to_come = i.to_come ∙ ap pending e;
    due = tt;
    come = i.come;
  }

  Reach-Timely :
      {n : ℕ} {shared : Shared Q} {s : Sim Q}
      → Reach env n (started n shared args) s
      → shared.next ≡ 0
      → Timely env args s
  Reach-Timely start none_yet = record {
    to_come = ap (λ k. drop k args) none_yet;
    due = tt;
    come = λ j lt. absurd (omega (arith, lt, none_yet));
  }
  Reach-Timely (later r step) none_yet =
      Step-Timely step (Reach-Coupled r) (Reach-Timely r none_yet)

  -- Let the program start with no process loaded. In every state that its threads can reach, the
  -- process that was handed to the scheduler after `j` others is that of entry `j` of the
  -- configuration: it is one that load returned for the path of the entry, but for its program
  -- counter; it has the priority of the entry, modulo 2 ^ 32; and it was not handed over before its
  -- start time: at least so many slots have ended.
  pub Reach_timely :
      {n : ℕ} {shared : Shared Q} {s : Sim Q}
      → Reach env n (started n shared args) s
      → shared.next ≡ 0
      → (j : ℕ) → j < s.shared.next
      → HasCome env args s j
  Reach_timely r none_yet j lt = (Reach-Timely r none_yet).come j lt

  drop-length : (j : ℕ) (xs : List LdArg) → drop j xs ≡ [] → length xs ≤ j
  drop-length zero [] e = omega arith
  drop-length zero (x ∷ xs) e = absurd (cc e)
  drop-length (suc j) [] e = omega arith
  drop-length (suc j) (x ∷ xs) e = omega (arith, drop-length j xs e)

  -- When the loader has ended, all entries have come.
  pub Reach_all_come :
      {n : ℕ} {shared : Shared Q} {s : Sim Q}
      → Reach env n (started n shared args) s
      → shared.next ≡ 0
      → s.loader ≡ LdPlace.halted
      → s.shared.next ≡ length args
  Reach_all_come {s = s} r none_yet ended = elim (dec_lt (length args) s.shared.next) [
    | yes more ↦
        (let (arg, at, early, of) = (Reach-Timely r none_yet).come (length args) more in
          absurd (omega (arith, lt-length_of_get_elem? args (length args) at)))
    | no enough ↦ omega (
      arith,
      enough,
      drop-length s.shared.next args ((Reach-Timely r none_yet).to_come ∙ ap pending ended),
    )
  ]
