-- ===== src/Threads/Due.antt =====
-- The loader of src/os.c: the entries that are still to come, and the process that waits for its time.
use hk252_co2017_nhom2_btl.Cpu.{Pcb}
use hk252_co2017_nhom2_btl.Prelude.{
  Always, List, [], arith, drop, get_elem?, ok, refl, some, suc, update-all, zero, ℕ, ◌%◌, ◌^◌, ◌∷◌,
  ◌≡◌, ◌≤◌,
}
use hk252_co2017_nhom2_btl.Cpu.Step.{SameProgram, run-SameProgram}
use hk252_co2017_nhom2_btl.Loader.{Loaded}
use hk252_co2017_nhom2_btl.Threads.{
  runs, CpuPlace, LdWork, at_head, at_wait, at_add, LdPlace, Sim, Setting, CpuMove, gets_first,
}
use mathlib.Core.Path.{subst}
use hk252_co2017_nhom2_btl.Timer
use hk252_co2017_nhom2_btl.Timer.{System, Step, slot_begins, ticks}
use hk252_co2017_nhom2_btl.Os.{World, LdArg}

pub drop-head :
    {A : Type 0} (j : ℕ) (xs : List A) (a : A) (rest : List A)
    → drop j xs ≡ a ∷ rest
    → (get_elem? xs j ≡ some a) × (drop (suc j) xs ≡ rest)
drop-head zero [] a rest e = absurd (cc e)
drop-head zero (x ∷ xs) a rest e = (cc e, cc e)
drop-head (suc j) [] a rest e = absurd (cc e)
drop-head (suc j) (x ∷ xs) a rest e = drop-head j xs a rest e

-- The processes that are still to come
abbrev pending_work : LdWork → List LdArg
pending_work (at_head args) = args
pending_work (at_wait arg args loaded) = arg ∷ args
pending_work (at_add arg args loaded) = arg ∷ args

abbrev pub pending : LdPlace → List LdArg
pending (LdPlace.works work) = pending_work work
pending (LdPlace.due work) = pending_work work
pending (LdPlace.asleep work) = pending_work work
pending LdPlace.stopping = []
pending LdPlace.halted = []

pub ended_grows : {m : ℕ} {c c' : System} → Timer.Step m c c' → c.ended ≤ c'.ended
ended_grows (ticks e f) = omega arith
ended_grows (slot_begins e f) = omega arith
ended_grows step = omega arith

module _ {Q : Type 0} (env : Setting Q) where
  -- What load has returned for the entry
  abbrev pub LoadedFrom : LdArg → Loaded → Type 0
  LoadedFrom arg loaded = (pid : ℕ) × (next : ℕ) × (env.load pid arg.path ≡ ok (loaded, next))

  -- A process that is about to be added is that of its entry, and has waited long enough.
  abbrev pub IsDueWork : LdWork → ℕ → Type 0
  IsDueWork (at_head args) now = Unit
  IsDueWork (at_wait arg args loaded) now = LoadedFrom arg loaded
  IsDueWork (at_add arg args loaded) now = (arg.start_time ≤ now) × LoadedFrom arg loaded

  abbrev pub IsDue : LdPlace → ℕ → Type 0
  IsDue (LdPlace.works work) now = IsDueWork work now
  IsDue (LdPlace.due work) now = IsDueWork work now
  IsDue (LdPlace.asleep work) now = IsDueWork work now
  IsDue LdPlace.stopping now = Unit
  IsDue LdPlace.halted now = Unit

  IsDueWork-later :
      (work : LdWork) (now then : ℕ) → now ≤ then → IsDueWork work now → IsDueWork work then
  IsDueWork-later (at_head args) now then le d = tt
  IsDueWork-later (at_wait arg args loaded) now then le d = d
  IsDueWork-later (at_add arg args loaded) now then le (d, from) = (omega (arith, le, d), from)

  pub IsDue-later : (p : LdPlace) (now then : ℕ) → now ≤ then → IsDue p now → IsDue p then
  IsDue-later (LdPlace.works work) now then le d = IsDueWork-later work now then le d
  IsDue-later (LdPlace.due work) now then le d = IsDueWork-later work now then le d
  IsDue-later (LdPlace.asleep work) now then le d = IsDueWork-later work now then le d
  IsDue-later LdPlace.stopping now then le d = tt
  IsDue-later LdPlace.halted now then le d = tt

  pub CpuMove-prio : {w w' : World Q} {p p' : CpuPlace} → CpuMove env w p w' p' → w'.prio ≡ w.prio
  CpuMove-prio (gets_first e) = refl
  CpuMove-prio move = refl

  pub CpuMove-SameProgram :
      {w w' : World Q} {p p' : CpuPlace}
      → CpuMove env w p w' p'
      → (j : ℕ) → SameProgram (w'.procs j) (w.procs j)
  CpuMove-SameProgram {w} (runs {h = h} {p = p} e) j c =
      update-all w.procs h p (λ k q. SameProgram q (w.procs k))
        (subst (Always (λ r. SameProgram r.1 (w.procs h))) e
          (run-SameProgram env.surroundings (w.procs h) w.machine))
        j (λ ne c. refl) c
  CpuMove-SameProgram (gets_first e) j c = refl
  CpuMove-SameProgram move j c = refl

  -- The process is what load has returned for the entry, but for its counter, with the entry's
  -- priority, of which a `uint32_t` holds 32 bits.
  abbrev pub IsProcessOf : LdArg → Pcb → ℕ → Type 0
  IsProcessOf arg p prio =
      (prio ≡ arg.prio % 2 ^ 32)
      × (loaded : Loaded) × LoadedFrom arg loaded
      × SameProgram p loaded.pcb

  -- Process `j` is that of entry `j` of the configuration, and its time has come.
  abbrev pub HasCome : List LdArg → Sim Q → ℕ → Type 0
  HasCome args s j =
      (arg : LdArg) × (get_elem? args j ≡ some arg)
      × (arg.start_time ≤ s.clock.ended)
      × IsProcessOf arg (s.shared.world.procs j) (s.shared.world.prio j)
