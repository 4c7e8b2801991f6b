-- ===== src/Timer/Counted.antt =====
-- The counters of the timer against the devices that have detached, and devices after an update.
use hk252_co2017_nhom2_btl.Prelude.{
  Bool, arith, false, if◌then◌else◌, refl, true, update, ℕ, ℕ_discrete, ◌+◌, ◌<◌, ◌==◌, ◌≡◌, ◌≤◌,
}
use mathlib.Core.Path.{subst}
use hk252_co2017_nhom2_btl.Timer.{Device, TimerPc, head, collect, resume, exited, bit_of}

abbrev pub AllDetached : ℕ → (ℕ → Device) → Type 0
AllDetached k device = (i : ℕ) → i < k → (device i).id.fsh ≡ true

-- `event` counts the devices that were passed, and `fsh` those among them that had detached.
abbrev pub Counted : ℕ → Bool → TimerPc → (ℕ → Device) → Type 0
Counted n stop head device = Unit
Counted n stop (collect k f e) device = (k ≤ n) × (e ≡ k) × (f ≤ k) × (f ≡ k → AllDetached k device)
Counted n stop (resume k f e) device = (k ≤ n) × (e ≡ n) × (f ≤ n) × (f ≡ n → AllDetached n device)
Counted n stop exited device = stop ≡ false → AllDetached n device

AllDetached-update :
    (k n : ℕ) (device : ℕ → Device) (i : ℕ) (d : Device)
    → ((device i).id.fsh ≡ true → d.id.fsh ≡ true)
    → AllDetached k device
    → AllDetached k (update device i d)
AllDetached-update k n device i d keeps all j lt = ground (arith, all j lt, keeps, all i)

-- A step of one device, which keeps its flag `fsh` if it is set.
pub Counted-update :
    (n : ℕ) (stop : Bool) (t : TimerPc) (device : ℕ → Device) (i : ℕ) (d : Device)
    → ((device i).id.fsh ≡ true → d.id.fsh ≡ true)
    → Counted n stop t device
    → Counted n stop t (update device i d)
Counted-update n stop head device i d keeps c = tt
Counted-update n stop (collect k f e) device i d keeps c =
    (c.0, c.1, c.2, λ q. AllDetached-update k n device i d keeps (c.3 q))
Counted-update n stop (resume k f e) device i d keeps c =
    (c.0, c.1, c.2, λ q. AllDetached-update n n device i d keeps (c.3 q))
Counted-update n stop exited device i d keeps c = λ q. AllDetached-update n n device i d keeps (c q)

bit_of_bounds : (b : Bool) → bit_of b ≤ 1
bit_of_bounds true = omega arith
bit_of_bounds false = omega arith

last_counted : (b : Bool) (f k : ℕ) → f ≤ k → f + bit_of b ≡ k + 1 → (b ≡ true) × (f ≡ k)
last_counted true f k h q = (refl, omega arith)
last_counted false f k h q = absurd (omega arith)

pub passes-Counted :
    (n : ℕ) (stop : Bool) (k f e : ℕ) (device : ℕ → Device)
    → k < n
    → Counted n stop (collect k f e) device
    → Counted n stop (collect (k + 1) (f + bit_of (device k).id.fsh) (e + 1)) device
passes-Counted n stop k f e device lt c =
    (omega arith, omega arith, omega (arith, bit_of_bounds (device k).id.fsh), all)
  where
    all : f + bit_of (device k).id.fsh ≡ k + 1 → AllDetached (k + 1) device
    all q i l =
        let (detached_k, before) = last_counted (device k).id.fsh f k c.2 q in
        elim (ℕ_discrete k i) [
          | yes same ↦ subst (λ j. (device j).id.fsh ≡ true) same detached_k
          | no other ↦ c.3 before i (omega arith)
        ]

pub ends-Counted :
    (n : ℕ) (stop b : Bool) (device : ℕ → Device)
    → (b ≡ true → AllDetached n device)
    → Counted n stop (if b then exited else head) device
ends-Counted n stop true device h = λ q. h refl
ends-Counted n stop false device h = tt

pub ==-true : (f e : ℕ) → (f == e) ≡ true → f ≡ e
==-true f e h = ground arith

pub stops-Counted :
    (n : ℕ) (stop : Bool) (t : TimerPc) (device : ℕ → Device)
    → Counted n stop t device
    → Counted n true t device
stops-Counted n stop head device c = tt
stops-Counted n stop (collect k f e) device c = c
stops-Counted n stop (resume k f e) device c = c
stops-Counted n stop exited device c = λ q. absurd (cc q)
