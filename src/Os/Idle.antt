-- ===== src/Os/Idle.antt =====
-- A CPU that gets no process: with any scheduler, and with the one of src/sched.c.
use hk252_co2017_nhom2_btl.Prelude.{
  arith, blocked, false, fault, null, ok, refl, replicate, suc, zero, ℕ, ℤ, ◌≡◌,
}
use hk252_co2017_nhom2_btl.Cpu.{Surroundings}
use hk252_co2017_nhom2_btl.Sched.{Sched, get_proc, put_proc, add_proc}
use hk252_co2017_nhom2_btl.Sched.Deadlock.{get_proc-deadlock}
use hk252_co2017_nhom2_btl.Os.{
  Scheduler, World, skipped, first_load, cpu_round, cpu_rounds, cpu_start,
}

-- A CPU without a process, whose scheduler has none for it, skips every further round and changes
-- nothing, also when `done` is set: it never stops.
cpu_rounds-idle :
    {Q : Type 0} (sched : Scheduler Q) (s : Surroundings) (time_slot time_left : ℤ) (n : ℕ)
    (w : World Q)
    → sched.get_proc w.queues ≡ ok (null, w.queues)
    → cpu_rounds sched s time_slot n (record { proc = null; time_left = time_left }) w
      ≡ ok (replicate n skipped, record { proc = null; time_left = time_left }, w)
unfolding cpu_rounds cpu_round first_load
cpu_rounds-idle sched s time_slot time_left zero w e = refl
cpu_rounds-idle sched s time_slot time_left (suc n) w e =
    ground (arith, e, cpu_rounds-idle sched s time_slot time_left n w e)

-- The scheduler of src/sched.c.
abbrev pub mlq : Scheduler Sched
mlq = record { get_proc = get_proc; put_proc = put_proc; add_proc = add_proc }

-- With the scheduler of src/sched.c, whose lock is free, and whatever its queues hold, a CPU that
-- starts waits for ever in its second round.
cpu_rounds-blocked :
    (s : Surroundings) (time_slot : ℤ) (n : ℕ) (w : World Sched)
    → w.queues.queue_lock ≡ false
    → cpu_rounds mlq s time_slot (suc (suc n)) cpu_start w ≡ fault blocked
unfolding cpu_rounds cpu_round first_load
cpu_rounds-blocked s time_slot n w free =
    let (q, first, second, _, _) = get_proc-deadlock w.queues free in ground (arith, first, second)
