-- ===== src/Sched.antt =====
-- src/queue.c and src/sched.c under MLQ_SCHED: the queues of processes and the scheduler's static
-- state. A process is known by its number; `enqueue` and `dequeue` are empty in the source.
pub mod Init
pub mod Deadlock
pub mod Plain
use hk252_co2017_nhom2_btl.Prelude.{
  Bool, List, Outcome, Ptr, [], blocked, failure, false, fault, get_elem?, if◌then◌else◌, is_zero,
  map, none, not, null, ok, out_of_bounds, pos, ptr, set, some, suc, true, uninitialised, wild,
  zero, ℕ, ℤ, ◌&&◌, ◌+◌, ◌-◌, ◌>>=◌, ◌>>◌, ◌||◌, ◌∷◌,
}

-- MAX_PRIO
abbrev pub max_prio : ℕ
max_prio = 140

-- `struct queue_t`; the array holds pointers to process control blocks.
pub record Queue : Type 0 where
  pub proc : List (Ptr ℕ)
  pub size : ℤ

pub data QueueRef : Type 0 where
  to_ready to_mlq to_running : QueueRef

-- The queue pointers of `struct krnl_t`.
pub record Links : Type 0 where
  pub ready_queue : Ptr QueueRef
  pub mlq_ready_queue : Ptr QueueRef
  pub running_list : Ptr QueueRef

-- The static variables of sched.c, with the kernel that processes share.
pub record Sched : Type 0 where
  pub ready_queue : Queue
  pub run_queue : Queue
  pub running_list : Queue
  pub mlq_ready_queue : List Queue
  pub slot : List ℕ
  pub queue_lock : Bool
  pub krnl : Links

-- `empty`, as a truth value
pub empty : Ptr Queue → Outcome Bool
empty null = ok true
empty wild = fault uninitialised
empty (ptr q) = ok (is_zero q.size)

pub enqueue : Queue → ℕ → Queue
enqueue q proc = q

pub dequeue : Queue → Ptr ℕ × Queue
dequeue q = (null, q)

pub purgequeue : Queue → ℕ → Ptr ℕ × Queue
purgequeue q proc = (null, q)

-- The `for` of queue_empty: whether some level has a process.
pub some_level : List Queue → Bool
some_level [] = false
some_level (q ∷ qs) = not (is_zero q.size) || some_level qs

-- queue_empty; its three results are -1, 1 and 0.
pub queue_empty : Sched → ℤ
queue_empty s =
    if some_level s.mlq_ready_queue
    then failure
    else if is_zero s.ready_queue.size && is_zero s.run_queue.size
    then pos 1
    else pos 0

abbrev pub reset : Queue → Queue
reset q = record q { size = pos 0 }

-- `slot[i] = MAX_PRIO - i` for the levels from `i` on.
pub init_slots : ℕ → ℕ → List ℕ
init_slots zero i = []
init_slots (suc left) i = (max_prio - i) ∷ init_slots left (i + 1)

pub init_scheduler : Sched → Sched
init_scheduler s = record s {
  ready_queue = reset s.ready_queue;
  run_queue = reset s.run_queue;
  running_list = reset s.running_list;
  mlq_ready_queue = map reset s.mlq_ready_queue;
  slot = init_slots max_prio 0;
  queue_lock = false;
}

abbrev pub take_lock : Sched → Outcome Sched
take_lock s = if s.queue_lock then fault blocked else ok (record s { queue_lock = true })

-- get_mlq_proc, which is get_proc: the lock is taken and not given back.
pub get_proc : Sched → Outcome (Ptr ℕ × Sched)
get_proc s0 = do s ← take_lock s0; ok (null, s)

-- put_mlq_proc, which is put_proc. The level `mlq_ready_queue[prio]` must exist.
pub put_proc : Sched → ℕ → ℕ → Outcome Sched
put_proc s0 proc prio = do
  s ← take_lock (record s0 {
    krnl = record {
      ready_queue = ptr to_ready;
      mlq_ready_queue = ptr to_mlq;
      running_list = ptr to_running;
    };
  })
  q ← elim (get_elem? s.mlq_ready_queue prio) [ none ↦ fault out_of_bounds | some q ↦ ok q ]
  ok (record s {
    mlq_ready_queue = set s.mlq_ready_queue prio (enqueue q proc);
    queue_lock = false;
  })

-- add_mlq_proc, which is add_proc: the same statements.
pub add_proc : Sched → ℕ → ℕ → Outcome Sched
add_proc s0 proc prio = do
  s ← take_lock (record s0 {
    krnl = record {
      ready_queue = ptr to_ready;
      mlq_ready_queue = ptr to_mlq;
      running_list = ptr to_running;
    };
  })
  q ← elim (get_elem? s.mlq_ready_queue prio) [ none ↦ fault out_of_bounds | some q ↦ ok q ]
  ok (record s {
    mlq_ready_queue = set s.mlq_ready_queue prio (enqueue q proc);
    queue_lock = false;
  })
