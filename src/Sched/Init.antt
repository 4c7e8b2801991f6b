-- ===== src/Sched/Init.antt =====
-- init_scheduler, and a process that is added by add_proc.
use hk252_co2017_nhom2_btl.Prelude.{
  List, [], ap, arith, false, get_elem?, get_elem?_total, length, map, ok, pos, ptr, refl, set,
  set-get_self, some, suc, zero, ℕ, ◌+◌, ◌-◌, ◌<◌, ◌∙◌, ◌∷◌, ◌≡◌,
}
use hk252_co2017_nhom2_btl.Sched.{
  to_running, to_mlq, reset, to_ready, Queue, Sched, max_prio, some_level, queue_empty, init_slots,
  init_scheduler, enqueue, add_proc,
}

some_level-reset : (qs : List Queue) → some_level (map reset qs) ≡ false
unfolding some_level
some_level-reset [] = refl
some_level-reset (q ∷ qs) = some_level-reset qs

init_slots_lem :
    (left i k : ℕ) → k < left → get_elem? (init_slots left i) k ≡ some (max_prio - (i + k))
unfolding init_slots
init_slots_lem zero i k h = elim h [ ]
init_slots_lem (suc left) i zero h = ap some (omega arith)
init_slots_lem (suc left) i (suc k) h =
    init_slots_lem left (i + 1) k (omega arith) ∙ ap some (omega arith)

-- After init_scheduler all queues are empty by queue_empty, the lock is free, and each level `i`
-- has a slot of MAX_PRIO - i turns.
pub init_scheduler-slots :
    (s : Sched)
    → (queue_empty (init_scheduler s) ≡ pos 1)
      × ((init_scheduler s).queue_lock ≡ false)
      × ((i : ℕ) → i < max_prio → get_elem? (init_scheduler s).slot i ≡ some (max_prio - i))
unfolding init_scheduler queue_empty
init_scheduler-slots s = (
  rw (some_level-reset s.mlq_ready_queue),
  refl,
  λ i h. init_slots_lem max_prio 0 i h ∙ ap some (omega arith),
)

-- With the lock free, add_proc of a process at an existing priority returns and leaves every queue
-- as it was, so that queue_empty answers as before.
pub add_proc-lost :
    (s : Sched) (proc prio : ℕ)
    → s.queue_lock ≡ false
    → prio < length s.mlq_ready_queue
    → (s' : Sched) × (add_proc s proc prio ≡ ok s')
      × (s'.mlq_ready_queue ≡ s.mlq_ready_queue)
      × (queue_empty s' ≡ queue_empty s)
unfolding add_proc enqueue queue_empty
add_proc-lost s proc prio free h =
    let (q, at) = get_elem?_total s.mlq_ready_queue prio h in
    let same = set-get_self s.mlq_ready_queue prio at in
    (
      record s {
        krnl = record {
          ready_queue = ptr to_ready;
          mlq_ready_queue = ptr to_mlq;
          running_list = ptr to_running;
        };
        mlq_ready_queue = set s.mlq_ready_queue prio q;
      },
      ground (arith, free, at),
      same,
      rw same,
    )
