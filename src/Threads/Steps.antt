-- ===== src/Threads/Steps.antt =====
-- The whole program: the timer, the CPUs and the loader (src/os.c, src/timer.c).
use hk252_co2017_nhom2_btl.Prelude.{
  List, Option, false, none, pos, suc, update, ℕ, ℤ, ◌<◌, ◌≡◌, ◌≢◌,
}
use hk252_co2017_nhom2_btl.Timer
use hk252_co2017_nhom2_btl.Timer.{System, attached, start_timer, reported, returned, detached_from}
use hk252_co2017_nhom2_btl.Os.{World, LdArg}
use hk252_co2017_nhom2_btl.Threads.{
  head, CpuPlace, LdWork, at_head, LdPlace, Shared, Sim, Setting, CpuMove, LdMove,
}

-- What comes after next_slot returns
abbrev pub resumed : Option ℕ → ℤ → CpuPlace
resumed proc time_left = CpuPlace.works (head proc time_left)

-- A step of the timer, of one of the `n` CPUs, or of the loader
pub data Step {Q : Type 0} (env : Setting Q) (n : ℕ) (s : Sim Q) : Sim Q → Type 0 where
  timer_moves :
      {c : System}
      → Timer.Step (suc n) s.clock c
      → c.timer ≢ s.clock.timer
      → Step env n s (record s { clock = c })
  cpu_moves :
      (i : ℕ) {w : World Q} {p : CpuPlace}
      → i < n
      → CpuMove env s.shared.world (s.cpu i) w p
      → Step env n s (record s { shared = record s.shared { world = w }; cpu = update s.cpu i p })
  cpu_sleeps :
      (i : ℕ) {proc : Option ℕ} {t : ℤ}
      → i < n
      → s.cpu i ≡ CpuPlace.due proc t
      → Step env n s (record s {
        clock = reported s.clock (suc i);
        cpu = update s.cpu i (CpuPlace.asleep proc t);
      })
  cpu_wakes :
      (i : ℕ) {proc : Option ℕ} {t : ℤ}
      → i < n
      → s.cpu i ≡ CpuPlace.asleep proc t
      → (s.clock.device (suc i)).id.done ≡ false
      → Step env n s
          (record s { clock = returned s.clock (suc i); cpu = update s.cpu i (resumed proc t) })
  cpu_detaches :
      (i : ℕ)
      → i < n
      → s.cpu i ≡ CpuPlace.stopping
      → Step env n s
          (record s { clock = detached_from s.clock (suc i); cpu = update s.cpu i CpuPlace.halted })
  loader_moves :
      {x : Shared Q} {p : LdPlace}
      → LdMove env s.clock.time s.shared s.loader x p
      → Step env n s (record s { shared = x; loader = p })
  loader_sleeps :
      {work : LdWork}
      → s.loader ≡ LdPlace.due work
      → Step env n s (record s { clock = reported s.clock 0; loader = LdPlace.asleep work })
  loader_wakes :
      {work : LdWork}
      → s.loader ≡ LdPlace.asleep work
      → (s.clock.device 0).id.done ≡ false
      → Step env n s (record s { clock = returned s.clock 0; loader = LdPlace.works work })
  loader_detaches :
      s.loader ≡ LdPlace.stopping
      → Step env n s (record s { clock = detached_from s.clock 0; loader = LdPlace.halted })

-- The threads as main starts them, with the programs `args` to load
abbrev pub started : {Q : Type 0} → ℕ → Shared Q → List LdArg → Sim Q
started n shared args = record {
  clock = (start_timer (attached (suc n))).1;
  shared = shared;
  cpu = λ i. resumed none (pos 0);
  loader = LdPlace.works (at_head args);
}

pub data Reach {Q : Type 0} (env : Setting Q) (n : ℕ) (s0 : Sim Q) : Sim Q → Type 0 where
  start : Reach env n s0 s0
  later : {s t : Sim Q} → Reach env n s0 s → Step env n s t → Reach env n s0 t
