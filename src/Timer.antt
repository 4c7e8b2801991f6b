-- ===== src/Timer.antt =====
-- src/timer.c with `struct timer_id_t` of include/timer.h: the thread of the timer and those of the
-- devices, which meet once in each time slot. A section between lock and unlock is one step: of the
-- shared fields it reads and writes `done` or `fsh` of one device only. A pthread_cond_wait, in its
-- `while`, is a step that is not possible yet. A device calls next_slot any number of times and then
-- perhaps detach_event. Output is not modelled.
pub mod Pace
pub mod Counted
pub mod Invariant
pub mod Lockstep
use hk252_co2017_nhom2_btl.Prelude.{
  Bool, List, Ptr, [], false, get_elem?, if◌then◌else◌, none, null, ptr, some, suc, true, update,
  zero, ℕ, ◌%◌, ◌+◌, ◌<◌, ◌==◌, ◌^◌, ◌||◌, ◌∷◌, ◌≡◌,
}

-- `struct timer_id_t`, without its mutexes and conditions
pub record TimerId : Type 0 where
  pub done : Bool
  pub fsh : Bool

-- `dev_list` and `timer_started` before the threads run
pub record Setup : Type 0 where
  pub dev_list : List TimerId
  pub timer_started : Bool

abbrev pub fresh : TimerId
fresh = record { done = false; fsh = false }

-- attach_event; the result is the position of the new node, which is the first.
unfoldable pub attach_event : Setup → Ptr ℕ × Setup
attach_event s =
    if s.timer_started then (null, s) else (ptr 0, record s { dev_list = fresh ∷ s.dev_list })

-- `n` calls of attach_event, results dropped, from the program's start.
unfoldable pub attached : ℕ → Setup
unfolding attach_event
attached zero = record { dev_list = []; timer_started = false }
attached (suc n) = (attach_event (attached n)).1

-- Where the thread of a device stands: outside the timer, in the second half of next_slot (whose
-- first half sets `done`), or past detach_event.
pub data DevicePc : Type 0 where
  outside waiting detached : DevicePc

-- `turns` counts the calls of next_slot that have returned.
pub record Device : Type 0 where
  pub id : TimerId
  pub pc : DevicePc
  pub turns : ℕ

-- Where timer_routine stands: at its `while`, in the first loop at the node of position `k`, in the
-- second loop at that node, or past pthread_exit; with its counters `fsh` and `event`.
pub data TimerPc : Type 0 where
  head : TimerPc
  collect : (k fsh event : ℕ) → TimerPc
  resume : (k fsh event : ℕ) → TimerPc
  exited : TimerPc

-- The static variables, the threads, and the number of slots that have ended, of which `_time` keeps
-- the low 64 bits.
pub record System : Type 0 where
  pub time : ℕ
  pub timer_stop : Bool
  pub timer : TimerPc
  pub device : ℕ → Device
  pub ended : ℕ

abbrev pub bit_of : Bool → ℕ
bit_of b = if b then 1 else 0

abbrev pub set_done : Device → Bool → Device
set_done d b = record d { id = record d.id { done = b } }

-- next_slot of device `i` up to its first unlock, and the rest of it; detach_event
abbrev pub reported : System → ℕ → System
reported s i = record s {
  device = update s.device i (record (set_done (s.device i) true) { pc = waiting });
}

abbrev pub returned : System → ℕ → System
returned s i = record s {
  device = update s.device i (record (s.device i) { pc = outside; turns = (s.device i).turns + 1 });
}

abbrev pub detached_from : System → ℕ → System
detached_from s i = record s {
  device =
      update s.device i
        (record (s.device i) { id = record (s.device i).id { fsh = true }; pc = detached });
}

-- A step of the timer or of one of the `n` devices.
pub data Step (n : ℕ) (s : System) : System → Type 0 where
  -- timer_routine, from its test of timer_stop on
  slot_begins :
      s.timer ≡ head → s.timer_stop ≡ false → Step n s (record s { timer = collect 0 0 0 })
  slot_refused : s.timer ≡ head → s.timer_stop ≡ true → Step n s (record s { timer = exited })
  -- The first loop passes a device that is done or has detached.
  passes :
      {k f e : ℕ}
      → s.timer ≡ collect k f e
      → k < n
      → ((s.device k).id.done || (s.device k).id.fsh) ≡ true
      → Step n s (record s { timer = collect (k + 1) (f + bit_of (s.device k).id.fsh) (e + 1) })
  ticks :
      {k f e : ℕ}
      → s.timer ≡ collect k f e
      → k ≡ n
      → Step n s
          (record s { timer = resume 0 f e; time = (s.time + 1) % 2 ^ 64; ended = s.ended + 1 })
  resumes :
      {k f e : ℕ}
      → s.timer ≡ resume k f e
      → k < n
      → Step n s (record s {
        timer = resume (k + 1) f e;
        device = update s.device k (set_done (s.device k) false);
      })
  slot_ends :
      {k f e : ℕ}
      → s.timer ≡ resume k f e
      → k ≡ n
      → Step n s (record s { timer = if f == e then exited else head })
  -- next_slot up to its first unlock
  reports : (i : ℕ) → i < n → (s.device i).pc ≡ outside → Step n s (reported s i)
  -- the rest of next_slot, once `done` is 0
  returns :
      (i : ℕ)
      → i < n
      → (s.device i).pc ≡ waiting
      → (s.device i).id.done ≡ false
      → Step n s (returned s i)
  -- detach_event
  detaches : (i : ℕ) → i < n → (s.device i).pc ≡ outside → Step n s (detached_from s i)
  -- stop_timer, up to pthread_join
  stops : Step n s (record s { timer_stop = true })

-- The device whose TimerId is at position `i` of the list.
abbrev pub device_at : List TimerId → ℕ → Device
device_at ids i = record {
  id = elim (get_elem? ids i) [ none ↦ fresh | some t ↦ t ];
  pc = outside;
  turns = 0;
}

-- start_timer
unfoldable pub start_timer : Setup → Setup × System
start_timer s = (
  record s { timer_started = true },
  record { time = 0; timer_stop = false; timer = head; device = device_at s.dev_list; ended = 0 },
)

-- The states that `n` devices and the timer can reach.
pub data Reach (n : ℕ) : System → Type 0 where
  start : Reach n (start_timer (attached n)).1
  later : {s t : System} → Reach n s → Step n s t → Reach n t
