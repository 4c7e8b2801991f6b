-- ===== src/Launch/Stalled.antt =====
-- main of src/os.c on a file that spells a configuration, from its arguments on, with the scheduler of
-- src/sched.c.
use hk252_co2017_nhom2_btl.Prelude.{
  List, [], ap, arith, fault, if◌then◌else◌, length, ok, out_of_bounds, pos, pos_part, refl, some,
  suc, true, ℕ, ◌++◌, ◌<◌, ◌^◌, ◌∙◌, ◌∷◌, ◌≡◌, ◌≤◌,
}
use hk252_co2017_nhom2_btl.Memphy.{Memphy, init_memphy}
use hk252_co2017_nhom2_btl.Sched.{Sched}
use hk252_co2017_nhom2_btl.Loader.{codes}
use hk252_co2017_nhom2_btl.Os.{Scheduler}
use hk252_co2017_nhom2_btl.Os.Idle.{mlq}
use hk252_co2017_nhom2_btl.Config.{Config, read_config}
use hk252_co2017_nhom2_btl.Config.Read.{
  Entry, Entries, Numbers, all_fit, args_of, read_config-Entries,
}
use hk252_co2017_nhom2_btl.Boot.Devices.{boot-mswp}
use hk252_co2017_nhom2_btl.Threads.{Setting}
use hk252_co2017_nhom2_btl.Threads.Owners.{owns}
use hk252_co2017_nhom2_btl.Main.{Program, Run, joins_cpu}
use hk252_co2017_nhom2_btl.Main.Stuck.{Run_stalled}
use hk252_co2017_nhom2_btl.Launch.{
  Host, config_path, first_device, launch, launched, program_of, setting_of, shared_of,
}

-- The configuration that a file spells
abbrev pub config_of : ℕ → ℕ → ℕ → ℕ → List ℕ → List Entry → Config
config_of time_slot num_cpus ram swp sizes entries = record {
  time_slot = pos time_slot;
  num_cpus = pos num_cpus;
  num_processes = pos (length entries);
  memramsz = ram;
  memswpsz = swp ∷ sizes;
  ld_processes = args_of entries;
}

config_path-fits :
    (name : List ℕ) → length name < 94 → config_path name ≡ ok (codes "input/" ++ name)
unfolding config_path
config_path-fits name lt = ground (arith, lt)

first_device-head :
    (mps : List Memphy) (mp : Memphy) (rest : List Memphy)
    → mps ≡ mp ∷ rest
    → first_device mps ≡ ok mp
unfolding first_device
first_device-head mps mp rest e = ap first_device e

module _ {S Q : Type 0} (h : Host S) (sched : Scheduler Q) (queues_of : Sched → Q) where
  -- The swap device that the loader passes on
  abbrev active_of : ℕ → Memphy
  active_of swp = (init_memphy (h.old_swp 0) swp 1).1

  launch_runs :
      (name path : List ℕ) (cfg : Config) (swp : ℕ) (sizes : List ℕ)
      → config_path name ≡ ok path
      → read_config h.scanner h.blank_arg (h.fopen path) ≡ ok cfg
      → cfg.memswpsz ≡ swp ∷ sizes
      → launch h sched queues_of (name ∷ [])
        ≡ ok (
            launched
              (setting_of h sched queues_of cfg (active_of swp))
              (pos_part cfg.num_cpus)
              (program_of h sched queues_of cfg))
  unfolding launch
  launch_runs name path cfg swp sizes fits reads four =
      rw
        (
          fits,
          reads,
          first_device-head _ _ _ (boot-mswp cfg h.old_ram h.old_swp h.old_sched swp sizes four),
        )
        refl

module _ {S : Type 0} (h : Host S) where
  -- The program that main starts with the scheduler of src/sched.c
  abbrev pub mlq_setting : Config → ℕ → Setting Sched
  mlq_setting cfg swp = setting_of h mlq (λ s. s) cfg (active_of h mlq (λ s. s) swp)

  abbrev pub mlq_program : Config → Program Sched
  mlq_program = program_of h mlq (λ s. s)

  -- Let the argument of main be the name of a configuration file, of fewer than 94 bytes, from
  -- which the conversions read a time slice, a positive number of CPUs and a number of processes,
  -- each below 2 ^ 31, the sizes of the RAM and of four swap devices, and as many processes as
  -- announced, with names that fit. Then main, with the scheduler of src/sched.c, starts the
  -- threads of this configuration, and in every state that the program can then reach, in whatever
  -- order the threads and main take their steps, main waits at its join of the first CPU and so
  -- never returns; no CPU holds a process, so that no instruction of any process of the file is
  -- ever run; at most one process has been handed to the scheduler; and at most one time slot has
  -- ended.
  pub launch_stalled :
      (name : List ℕ) (file s1 s2 s3 : S) (time_slot num_cpus ram swp : ℕ) (sizes : List ℕ)
      (entries : List Entry)
      → length name < 94
      → h.fopen (codes "input/" ++ name) ≡ some file
      → h.scanner.scan_numbers 3 file ≡ (time_slot ∷ num_cpus ∷ length entries ∷ [], s1)
      → Numbers h.scanner s1 (ram ∷ swp ∷ sizes) s2
      → length sizes ≡ 3
      → Entries h.scanner s2 entries s3
      → all_fit entries ≡ true
      → time_slot < 2 ^ 31
      → 0 < num_cpus
      → num_cpus < 2 ^ 31
      → length entries < 2 ^ 31
      → {k : ℕ} {p : Program Sched}
      → Run
          (mlq_setting (config_of time_slot num_cpus ram swp sizes entries) swp)
          num_cpus
          (mlq_program (config_of time_slot num_cpus ram swp sizes entries))
          k
          p
      → (launch h mlq (λ s. s) (name ∷ [])
          ≡ ok (
              launched
                (mlq_setting (config_of time_slot num_cpus ram swp sizes entries) swp)
                num_cpus
                (mlq_program (config_of time_slot num_cpus ram swp sizes entries))))
        × (p.main ≡ joins_cpu 0)
        × ((i : ℕ) → i < num_cpus → (j : ℕ) → owns (p.sim.cpu i) j ≡ 0)
        × (p.sim.shared.next ≤ 1)
        × (p.sim.clock.ended ≤ 1)
  launch_stalled name file s1 s2 s3 time_slot num_cpus ram swp sizes entries short opens header nums
        three lines fit a some_cpu b c run =
      let cfg = config_of time_slot num_cpus ram swp sizes entries in
      let reads : read_config h.scanner h.blank_arg (h.fopen (codes "input/" ++ name)) ≡ ok cfg =
        ap (read_config h.scanner h.blank_arg) opens
        ∙ read_config-Entries h.scanner h.blank_arg file s1 s2 s3 time_slot num_cpus ram
            (swp ∷ sizes) entries header nums (ap suc three) lines a b c
        ∙ ap (λ t. if t then ok cfg else fault out_of_bounds) fit in
      let stalled =
        Run_stalled (mlq_setting cfg swp) num_cpus some_cpu (shared_of h mlq (λ s. s) cfg)
          (args_of entries) refl run in
      (
        launch_runs h mlq (λ s. s) name _ cfg swp sizes (config_path-fits name short) reads refl,
        stalled.0,
        stalled.1,
        stalled.2,
        stalled.3,
      )
