-- ===== src/Sched/Plain.antt =====
-- src/sched.c without MLQ_SCHED, which include/os-cfg.h defines: one ready queue and one run queue.
use hk252_co2017_nhom2_btl.Prelude.{
  Outcome, Ptr, false, if◌then◌else◌, is_zero, null, ok, pos, ptr, ℕ, ℤ, ◌&&◌, ◌>>=◌,
}
use hk252_co2017_nhom2_btl.Sched.{Sched, enqueue, reset, take_lock, to_ready, to_running}

queue_empty : Sched → ℤ
queue_empty s = if is_zero s.ready_queue.size && is_zero s.run_queue.size then pos 1 else pos 0

init_scheduler : Sched → Sched
init_scheduler s = record s {
  ready_queue = reset s.ready_queue;
  run_queue = reset s.run_queue;
  running_list = reset s.running_list;
  queue_lock = false;
}

-- The kernel has no `mlq_ready_queue` in this build.
abbrev linked : Sched → Sched
linked s = record s {
  krnl = record s.krnl { ready_queue = ptr to_ready; running_list = ptr to_running };
}

-- The lock is given back.
get_proc : Sched → Outcome (Ptr ℕ × Sched)
get_proc s0 = do s ← take_lock s0; ok (null, record s { queue_lock = false })

put_proc : Sched → ℕ → ℕ → Outcome Sched
put_proc s0 proc prio = do
  s ← take_lock (linked s0)
  ok (record s { run_queue = enqueue s.run_queue proc; queue_lock = false })

add_proc : Sched → ℕ → ℕ → Outcome Sched
add_proc s0 proc prio = do
  s ← take_lock (linked s0)
  ok (record s { ready_queue = enqueue s.ready_queue proc; queue_lock = false })
