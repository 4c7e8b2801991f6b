-- ===== src/Main.antt =====
-- src/os.c with src/timer.c: main from the creation of the threads on, and stop_timer, beside the
-- threads of Threads. A thread that pthread_create has not made yet is one that has taken no step.
pub mod Phases
pub mod Returned
pub mod Progress
pub mod Countdown
pub mod Finish
pub mod Stuck
pub mod Live
use hk252_co2017_nhom2_btl.Prelude.{List, suc, true, zero, ℕ, ◌+◌, ◌<◌, ◌≡◌}
use hk252_co2017_nhom2_btl.Timer.{exited}
use hk252_co2017_nhom2_btl.Os.{LdArg}
use hk252_co2017_nhom2_btl.Threads.{CpuPlace, LdPlace, Shared, Sim, Setting}
use hk252_co2017_nhom2_btl.Threads.Steps
use hk252_co2017_nhom2_btl.Threads.Steps.{started}

-- Where main stands: at the join of CPU `i`, at that of the loader, before stop_timer, at the join
-- of the timer, at the `while` of stop_timer with `left` nodes in `dev_list`, or past `return`.
pub data MainPlace : Type 0 where
  joins_cpu : (i : ℕ) → MainPlace
  joins_loader : MainPlace
  stops_timer : MainPlace
  joins_timer : MainPlace
  frees : (left : ℕ) → MainPlace
  returned : MainPlace

pub record Program (Q : Type 0) : Type 0 where
  pub sim : Sim Q
  pub main : MainPlace

-- `timer_stop = 1`
abbrev pub stopped_timer : {Q : Type 0} → Sim Q → Sim Q
stopped_timer s = record s { clock = record s.clock { timer_stop = true } }

-- A step of a thread or of main, with `n` CPUs: a pthread_join is a step once its thread has ended.
pub data Step {Q : Type 0} (env : Setting Q) (n : ℕ) (s : Program Q) : Program Q → Type 0 where
  threads_move : {t : Sim Q} → Steps.Step env n s.sim t → Step env n s (record s { sim = t })
  cpu_joined :
      {i : ℕ}
      → s.main ≡ joins_cpu i
      → i < n
      → s.sim.cpu i ≡ CpuPlace.halted
      → Step env n s (record s { main = joins_cpu (i + 1) })
  cpus_joined :
      {i : ℕ} → s.main ≡ joins_cpu i → i ≡ n → Step env n s (record s { main = joins_loader })
  loader_joined :
      s.main ≡ joins_loader
      → s.sim.loader ≡ LdPlace.halted
      → Step env n s (record s { main = stops_timer })
  stops :
      s.main ≡ stops_timer → Step env n s (record { sim = stopped_timer s.sim; main = joins_timer })
  timer_joined :
      s.main ≡ joins_timer
      → s.sim.clock.timer ≡ exited
      → Step env n s (record s { main = frees (suc n) })
  node_freed :
      {left : ℕ} → s.main ≡ frees (suc left) → Step env n s (record s { main = frees left })
  returns : s.main ≡ frees 0 → Step env n s (record s { main = returned })

-- The program after the threads have been created
abbrev pub created : {Q : Type 0} → ℕ → Shared Q → List LdArg → Program Q
created n shared args = record { sim = started n shared args; main = joins_cpu 0 }

-- `k` steps
pub data Run {Q : Type 0} (env : Setting Q) (n : ℕ) (s : Program Q) : ℕ → Program Q → Type 0 where
  begin : Run env n s zero s
  next : {k : ℕ} {t u : Program Q} → Run env n s k t → Step env n t u → Run env n s (suc k) u
