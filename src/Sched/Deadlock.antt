-- ===== src/Sched/Deadlock.antt =====
-- get_proc and `queue_lock`.
use hk252_co2017_nhom2_btl.Prelude.{
  Bool-cases, Ptr, arith, blocked, false, fault, inl, inr, null, ok, refl, true, ℕ, ◌≡◌,
}
use hk252_co2017_nhom2_btl.Sched.{Sched, get_proc, put_proc, add_proc}

-- With the lock free, get_proc returns no process, whatever the queues hold, and after it every
-- call of get_proc, put_proc and add_proc waits for ever.
pub get_proc-deadlock :
    (s : Sched)
    → s.queue_lock ≡ false
    → (s' : Sched) × (get_proc s ≡ ok (null, s'))
      × (get_proc s' ≡ fault blocked)
      × ((proc prio : ℕ) → put_proc s' proc prio ≡ fault blocked)
      × ((proc prio : ℕ) → add_proc s' proc prio ≡ fault blocked)
unfolding get_proc put_proc add_proc
get_proc-deadlock s free = (
  record s { queue_lock = true },
  ground (arith, free),
  refl,
  λ proc prio. refl,
  λ proc prio. refl,
)

-- What a call that returns has found and left.
pub get_proc-locks :
    (s s' : Sched) (proc : Ptr ℕ)
    → get_proc s ≡ ok (proc, s')
    → (s.queue_lock ≡ false) × (proc ≡ null) × (s'.queue_lock ≡ true)
unfolding get_proc
get_proc-locks s s' proc e = elim (Bool-cases s.queue_lock) [
  | inl on ↦ absurd (cc (simp on at e))
  | inr off ↦ (off, ground (arith, e, off), ground (arith, e, off))
]

pub add_proc-unlocked :
    (s s' : Sched) (proc prio : ℕ) → add_proc s proc prio ≡ ok s' → s.queue_lock ≡ false
unfolding add_proc
add_proc-unlocked s s' proc prio e = elim (Bool-cases s.queue_lock) [
  | inl on ↦ absurd (cc (simp on at e))
  | inr off ↦ off
]
