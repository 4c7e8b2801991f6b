-- ===== src/Os/Arrivals.antt =====
-- The times at which ld_routine hands the processes to the scheduler, and the memory map that is
-- left.
use Prim.Native.Nat.{max}
use hk252_co2017_nhom2_btl.Prelude.{
  Chain, List, Outcome, Ptr, Returns, [], length, ptr, true, update, ℕ, ◌%◌, ◌+◌, ◌^◌, ◌∷◌, ◌≡◌,
}
use hk252_co2017_nhom2_btl.Mm.{Region, Mm}
use hk252_co2017_nhom2_btl.Memphy.{Memphy}
use hk252_co2017_nhom2_btl.Loader.{Loaded}
use hk252_co2017_nhom2_btl.Os.{set_kernel, Scheduler, LdArg, LdState}

-- Each process arrives at its start time, or one slot after the process before it if that is later.
abbrev pub arrival_times : ℕ → List LdArg → List ℕ
arrival_times now [] = []
arrival_times now (arg ∷ args) =
    max now arg.start_time ∷ arrival_times (max now arg.start_time + 1) args

-- The pointer to the memory map after the processes `args`, the first of which has handle `h`.
abbrev pub last_mm : (ℕ → Mm) → ℕ → List LdArg → Ptr Mm → Ptr Mm
last_mm blank_mm h [] mm = mm
last_mm blank_mm h (arg ∷ args) mm = last_mm blank_mm (h + 1) args (ptr (blank_mm h))

module _ {Q : Type 0} (sched : Scheduler Q) (load : ℕ → List ℕ → Outcome (Loaded × ℕ))
    (blank_mm : ℕ → Mm) (freerg : Chain Region) (mram active_mswp : Memphy) where
  -- The file of each process can be loaded, and the scheduler takes a process of its priority.
  abbrev pub CanLoad : List LdArg → Type 0
  CanLoad [] = Unit
  CanLoad (arg ∷ args) =
      ((pid : ℕ) → Returns (load pid arg.path))
      × ((q : Q) (h : ℕ) → Returns (sched.add_proc q h (arg.prio % 2 ^ 32)))
      × CanLoad args

  abbrev pub IsLoaded : List LdArg → LdState Q → List ℕ → LdState Q → Type 0
  IsLoaded args st times st' =
      (times ≡ arrival_times st.now args)
      × (st'.world.done ≡ true)
      × (st'.next ≡ st.next + length args)
      × (st'.world.machine.os.mm ≡ last_mm blank_mm st.next args st.world.machine.os.mm)

  -- The state after a round that loads `loaded`, and after which the queues are `q`.
  abbrev pub loaded_one : LdArg → LdState Q → Loaded × ℕ → Q → LdState Q
  loaded_one arg st loaded q = record {
    now = max st.now arg.start_time + 1;
    next = st.next + 1;
    avail_pid = loaded.1;
    world = record st.world {
      queues = q;
      procs = update st.world.procs st.next loaded.0.pcb;
      prio = update st.world.prio st.next (arg.prio % 2 ^ 32);
      machine = record st.world.machine {
        os = set_kernel st.world.machine.os (blank_mm st.next) mram active_mswp;
      };
    };
  }
