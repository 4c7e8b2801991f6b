-- ===== src/Threads/Idling.antt =====
-- A CPU of src/os.c that finds no process, with the scheduler of src/sched.c.
use hk252_co2017_nhom2_btl.Timer
use hk252_co2017_nhom2_btl.Timer.{System, start_timer, outside}
use hk252_co2017_nhom2_btl.Prelude.{
  Bool, Option, arith, false, none, refl, some, true, ℕ, ℤ, ◌<◌, ◌≡◌, ◌≤◌,
}
use hk252_co2017_nhom2_btl.Timer.Lockstep.{Reach-turns, waiting_behind}
use hk252_co2017_nhom2_btl.Threads.Clock.{cpu_pc}
use hk252_co2017_nhom2_btl.Sched.{Sched}
use hk252_co2017_nhom2_btl.Sched.Deadlock.{get_proc-locks}
use hk252_co2017_nhom2_btl.Os.{World}
use hk252_co2017_nhom2_btl.Os.Idle.{mlq}
use hk252_co2017_nhom2_btl.Threads.{
  System, head, put_back, checking, ready, CpuPlace, LdPlace, Setting, CpuMove, gets_first,
  misses_first, replaces, drops, puts, gets_next, misses_next, keeps, breaks, skips, runs,
}
use hk252_co2017_nhom2_btl.Threads.Owners.{owns}

-- The program with the scheduler of sched.c
abbrev pub as_written : Setting Sched → Setting Sched
as_written env = record env { sched = mlq }

abbrev pub is_idle : CpuPlace → Bool
is_idle (CpuPlace.works (head none t)) = true
is_idle (CpuPlace.works (head (some h) t)) = false
is_idle (CpuPlace.works (put_back t)) = false
is_idle (CpuPlace.works (checking t)) = false
is_idle (CpuPlace.works (ready h t)) = false
is_idle (CpuPlace.due none t) = true
is_idle (CpuPlace.due (some h) t) = false
is_idle (CpuPlace.asleep none t) = true
is_idle (CpuPlace.asleep (some h) t) = false
is_idle CpuPlace.stopping = false
is_idle CpuPlace.halted = false

-- How many slots a CPU that finds no process can have behind it.
abbrev pub latest : CpuPlace → ℕ
latest (CpuPlace.works work) = 1
latest (CpuPlace.due proc t) = 0
latest (CpuPlace.asleep proc t) = 0
latest CpuPlace.stopping = 0
latest CpuPlace.halted = 0

abbrev pub at_work : LdPlace → Bool
at_work (LdPlace.works work) = true
at_work (LdPlace.due work) = false
at_work (LdPlace.asleep work) = false
at_work LdPlace.stopping = false
at_work LdPlace.halted = false

abbrev pub locked : World Sched → Bool
locked w = w.queues.queue_lock

pub idle_asleep :
    (proc : Option ℕ) (t : ℤ) → is_idle (CpuPlace.due proc t) ≡ is_idle (CpuPlace.asleep proc t)
idle_asleep none t = refl
idle_asleep (some h) t = refl

pub idle_head :
    (proc : Option ℕ) (t : ℤ)
    → is_idle (CpuPlace.asleep proc t) ≡ is_idle (CpuPlace.works (head proc t))
idle_head none t = refl
idle_head (some h) t = refl

pub idle-owns : (p : CpuPlace) → is_idle p ≡ true → (j : ℕ) → owns p j ≡ 0
unfolding owns
idle-owns (CpuPlace.works (head none t)) e j = refl
idle-owns (CpuPlace.works (head (some h) t)) e j = absurd (cc e)
idle-owns (CpuPlace.works (put_back t)) e j = refl
idle-owns (CpuPlace.works (checking t)) e j = refl
idle-owns (CpuPlace.works (ready h t)) e j = absurd (cc e)
idle-owns (CpuPlace.due none t) e j = refl
idle-owns (CpuPlace.due (some h) t) e j = absurd (cc e)
idle-owns (CpuPlace.asleep none t) e j = refl
idle-owns (CpuPlace.asleep (some h) t) e j = absurd (cc e)
idle-owns CpuPlace.stopping e j = refl
idle-owns CpuPlace.halted e j = refl

-- A CPU that is idle can do one thing only: find the lock free and no process, and keep the lock.
pub CpuMove-idle :
    (env : Setting Sched) {w w' : World Sched} {p p' : CpuPlace}
    → CpuMove (as_written env) w p w' p'
    → is_idle p ≡ true
    → (locked w ≡ false) × (locked w' ≡ true) × (is_idle p' ≡ true)
CpuMove-idle env {w} (gets_first e) idle = absurd (cc (get_proc-locks _ _ _ e).1)
CpuMove-idle env {w} (misses_first e) idle = let g = get_proc-locks _ _ _ e in (g.0, g.2, refl)
CpuMove-idle env (replaces f e) idle = absurd (cc idle)
CpuMove-idle env (drops f e) idle = absurd (cc idle)
CpuMove-idle env (puts f g e) idle = absurd (cc idle)
CpuMove-idle env (gets_next e) idle = absurd (cc idle)
CpuMove-idle env (misses_next e) idle = absurd (cc idle)
CpuMove-idle env (keeps f e) idle = absurd (cc idle)
CpuMove-idle env (breaks e) idle = absurd (cc idle)
CpuMove-idle env (skips e) idle = absurd (cc idle)
CpuMove-idle env (runs e) idle = absurd (cc idle)

pub latest_outside : (p : CpuPlace) → is_idle p ≡ true → latest p ≡ 1 → cpu_pc p ≡ outside
latest_outside (CpuPlace.works work) e f = refl
latest_outside (CpuPlace.due proc t) e f = refl
latest_outside (CpuPlace.asleep proc t) e f = absurd (omega (arith, f))
latest_outside CpuPlace.stopping e f = refl
latest_outside CpuPlace.halted e f = absurd (cc e)

-- No slot but the first ends while a CPU is idle.
pub idle_slots :
    {m j : ℕ} {c : System}
    → Timer.Reach m c
    → j < m
    → (p : CpuPlace) → (c.device j).pc ≡ cpu_pc p
    → is_idle p ≡ true
    → (c.device j).turns ≤ latest p
    → c.ended ≤ 1
idle_slots {j = j} r lt (CpuPlace.works work) at e few =
    omega (arith, (Reach-turns r j lt at).0, few)
idle_slots {j = j} r lt (CpuPlace.due proc t) at e few =
    omega (arith, (Reach-turns r j lt at).0, few)
idle_slots {j = j} r lt (CpuPlace.asleep proc t) at e few =
    omega (arith, waiting_behind r j lt at, few)
idle_slots r lt CpuPlace.stopping at e few = absurd (cc e)
idle_slots r lt CpuPlace.halted at e few = absurd (cc e)
