-- ===== src/Boot/Devices.antt =====
-- The timer, the RAM device, the active swap device and the scheduler that the threads find.
use mathlib.Core.Path.{subst}
use hk252_co2017_nhom2_btl.Prelude.{
  List, [], ap, arith, count_up, false, of_list, pos, pos_part, refl, replicate, suc, sym, true,
  zero, ℕ, ◌*◌, ◌+◌, ◌/◌, ◌<◌, ◌^◌, ◌∷◌, ◌≡◌, ◌≤◌,
}
use hk252_co2017_nhom2_btl.Memphy.{init_memphy, Memphy, paging_pagesz}
use hk252_co2017_nhom2_btl.Memphy.Init.{init_memphy-frames}
use hk252_co2017_nhom2_btl.Sched.{Sched, queue_empty}
use hk252_co2017_nhom2_btl.Sched.Init.{init_scheduler-slots}
use hk252_co2017_nhom2_btl.Timer.{fresh, attach_event, attached, start_timer, Reach, start}
use hk252_co2017_nhom2_btl.Config.{Config}
use hk252_co2017_nhom2_btl.Boot.{Booted, boot, init_mswp}

attached-replicate :
    (n : ℕ) → attached n ≡ record { dev_list = replicate n fresh; timer_started = false }
unfolding attached attach_event
attached-replicate zero = refl
attached-replicate (suc n) = ground (arith, attached-replicate n)

-- All frames of a device of this size, once each.
abbrev pub AllFree : Memphy → ℕ → Type 0
AllFree mp size = mp.free_fp_list ≡ of_list (count_up 0 (size / paging_pagesz))

abbrev pub FirstFree : List Memphy → ℕ → Type 0
FirstFree [] size = ⊥
FirstFree (mp ∷ mps) size = AllFree mp size

abbrev pub IsBooted : ℕ → ℕ → ℕ → Booted → Type 0
IsBooted num_cpus ram swp b =
    Reach (num_cpus + 1) b.system
    × (b.devices ≡ record { dev_list = replicate (num_cpus + 1) fresh; timer_started = true })
    × AllFree b.mram ram
    × FirstFree b.mswp swp
    × (queue_empty b.sched ≡ pos 1)
    × (b.sched.queue_lock ≡ false)

pub boot-mswp :
    (cfg : Config) (old_ram : Memphy) (old : ℕ → Memphy) (sched : Sched) (swp : ℕ) (sizes : List ℕ)
    → cfg.memswpsz ≡ swp ∷ sizes
    → (boot cfg old_ram old sched).mswp ≡ (init_memphy (old 0) swp 1).1 ∷ init_mswp old 1 sizes
unfolding boot init_mswp
boot-mswp cfg old_ram old sched swp sizes e = ap (init_mswp old 0) e

pub boot-queue_lock :
    (cfg : Config) (old_ram : Memphy) (old : ℕ → Memphy) (sched : Sched)
    → (boot cfg old_ram old sched).sched.queue_lock ≡ false
unfolding boot
boot-queue_lock cfg old_ram old sched = (init_scheduler-slots sched).1

-- For a configuration of `num_cpus` CPUs whose RAM and first swap device have two pages or more and
-- fewer than 2 ^ 31 bytes, main leaves to the threads a timer that has started, with one fresh
-- device for each CPU and one for the loader, a RAM and a first swap device with all their frames
-- free, each once and in ascending order, and a scheduler with no process and with its lock free.
pub boot-IsBooted :
    (cfg : Config) (old_ram : Memphy) (old : ℕ → Memphy) (sched : Sched) (num_cpus swp : ℕ)
    (sizes : List ℕ)
    → cfg.num_cpus ≡ pos num_cpus
    → cfg.memswpsz ≡ swp ∷ sizes
    → 2 * paging_pagesz ≤ cfg.memramsz
    → cfg.memramsz < 2 ^ 31
    → 2 * paging_pagesz ≤ swp
    → swp < 2 ^ 31
    → IsBooted num_cpus cfg.memramsz swp (boot cfg old_ram old sched)
unfolding boot start_timer init_mswp
boot-IsBooted cfg old_ram old sched num_cpus swp sizes e f ram_two ram_fits swp_two swp_fits = (
  subst (λ c. Reach (num_cpus + 1) (start_timer (attached (pos_part c + 1))).1) (sym e) start,
  ground (arith, e, attached-replicate (num_cpus + 1)),
  (init_memphy-frames old_ram cfg.memramsz 1 ram_two ram_fits).1,
  subst (λ l. FirstFree (init_mswp old 0 l) swp) (sym f)
      (init_memphy-frames (old 0) swp 1 swp_two swp_fits).1,
  (init_scheduler-slots sched).0,
  (init_scheduler-slots sched).1,
)
