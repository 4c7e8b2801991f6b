-- ===== src/Boot.antt =====
-- src/os.c: main, from the timer to the creation of the threads.
pub mod Devices
use hk252_co2017_nhom2_btl.Prelude.{List, [], pos_part, ℕ, ◌+◌, ◌∷◌}
use hk252_co2017_nhom2_btl.Memphy.{Memphy, init_memphy}
use hk252_co2017_nhom2_btl.Sched.{Sched, init_scheduler}
use hk252_co2017_nhom2_btl.Timer.{Setup, System, attached, start_timer}
use hk252_co2017_nhom2_btl.Config.{Config}

-- What main has set up when it creates the threads.
pub record Booted : Type 0 where
  pub devices : Setup
  pub system : System
  pub mram : Memphy
  pub mswp : List Memphy
  pub sched : Sched

-- The `for` over the swap devices, from number `i` on; `old` is what their structures hold before.
pub init_mswp : (ℕ → Memphy) → ℕ → List ℕ → List Memphy
init_mswp old i [] = []
init_mswp old i (size ∷ sizes) = (init_memphy (old i) size 1).1 ∷ init_mswp old (i + 1) sizes

-- main: each CPU and the loader get a device of the timer. `old_ram`, `old` and `sched` are what the
-- structures hold before.
pub boot : Config → Memphy → (ℕ → Memphy) → Sched → Booted
boot cfg old_ram old sched =
    let (devices, system) = start_timer (attached (pos_part cfg.num_cpus + 1)) in
    record {
      devices = devices;
      system = system;
      mram = (init_memphy old_ram cfg.memramsz 1).1;
      mswp = init_mswp old 0 cfg.memswpsz;
      sched = init_scheduler sched;
    }
