-- ===== src/Timer/Lockstep.antt =====
-- The slots as the devices see them, and when the timer moves on.
use hk252_co2017_nhom2_btl.Prelude.{
  Bool, Bool-cases, ap, arith, dec_lt, false, if◌then◌else◌, inl, inr, refl, sym, true, ℕ, ◌%◌, ◌+◌,
  ◌<◌, ◌==◌, ◌^◌, ◌||◌, ◌∙◌, ◌≡◌, ◌≢◌, ◌≤◌, ◌⊎◌,
}
use mathlib.Core.Path.{subst}
use hk252_co2017_nhom2_btl.Timer.{
  Device, outside, waiting, detached, TimerPc, head, collect, resume, exited, System, Step,
  slot_begins, slot_refused, passes, ticks, resumes, slot_ends, Reach,
}
use hk252_co2017_nhom2_btl.Timer.Pace.{owing, passed, DeviceInv}
use hk252_co2017_nhom2_btl.Timer.Counted.{Counted}
use hk252_co2017_nhom2_btl.Timer.Invariant.{Inv, Reach-Inv}

owing-passed : (t : TimerPc) (i : ℕ) → owing t i ≡ true → passed t i ≡ true
owing-passed head i h = h
owing-passed (collect k f e) i h = absurd (cc h)
owing-passed (resume k f e) i h = h
owing-passed exited i h = h

-- A device that has not detached lags by one turn at most.
turns_bounds :
    {t : TimerPc} {ended i : ℕ} {d : Device}
    → DeviceInv t ended i d
    → d.id.fsh ≡ false
    → (d.turns ≤ ended) × (ended ≤ d.turns + 1)
turns_bounds {t} {ended} {i} {d} inv live =
    ground (arith, inv.paced live, owing-passed t i, inv.reported)

outside_turns :
    {t : TimerPc} {ended i : ℕ} {d : Device}
    → DeviceInv t ended i d
    → d.pc ≡ outside
    → d.turns ≡ ended
outside_turns {t} {ended} {i} {d} inv o =
    ground (
      arith,
      o,
      inv.outside_idle o,
      inv.paced (inv.outside_idle o).1,
      owing-passed t i,
      inv.reported,
    )

-- In every reachable state of the timer and its devices, a device that is outside next_slot and has
-- not detached has returned from next_slot exactly as often as slots have ended, and current_time
-- is that number, modulo 2 ^ 64.
pub Reach-turns :
    {n : ℕ} {s : System}
    → Reach n s
    → (i : ℕ) → i < n
    → (s.device i).pc ≡ outside
    → ((s.device i).turns ≡ s.ended) × (s.time ≡ (s.device i).turns % 2 ^ 64)
Reach-turns {n} {s} r i lt o =
    let inv = Reach-Inv r in
    let same = outside_turns (inv.devices i lt) o in
    (same, inv.clock ∙ ap (λ (k : ℕ). k % 2 ^ 64) (sym same))

-- In every reachable state of the timer and its devices, of two devices that have not detached
-- neither is more than one call of next_slot ahead of the other.
pub Reach-lockstep :
    {n : ℕ} {s : System}
    → Reach n s
    → (i j : ℕ) → i < n
    → j < n
    → (s.device i).id.fsh ≡ false
    → (s.device j).id.fsh ≡ false
    → (s.device i).turns ≤ (s.device j).turns + 1
Reach-lockstep {n} {s} r i j li lj live live' =
    let inv = Reach-Inv r in
    omega (arith, turns_bounds (inv.devices i li) live, turns_bounds (inv.devices j lj) live')

-- A device that is in the second half of next_slot is one turn behind at most.
pub waiting_behind :
    {n : ℕ} {s : System}
    → Reach n s
    → (i : ℕ) → i < n
    → (s.device i).pc ≡ waiting
    → s.ended ≤ (s.device i).turns + 1
waiting_behind {n} {s} r i lt at =
    let inv = (Reach-Inv r).devices i lt in (turns_bounds inv (inv.waiting_live at)).1

-- In every reachable state where the timer has exited and stop_timer was not called, every device
-- has detached.
pub Reach-exited :
    {n : ℕ} {s : System}
    → Reach n s
    → s.timer ≡ exited
    → s.timer_stop ≡ false
    → (i : ℕ) → i < n
    → (s.device i).id.fsh ≡ true
Reach-exited {n} {s} r gone on =
    subst (λ t. Counted n s.timer_stop t s.device) gone (Reach-Inv r).counted on

-- The timer can take a step of its own.
abbrev pub Moves : ℕ → System → Type 0
Moves n s = (t : System) × Step n s t × (t.timer ≢ s.timer)

-- Device `k` is in its work of this slot, or free to return to it.
abbrev pub IsAwaited : ℕ → System → Type 0
IsAwaited n s =
    (k : ℕ) × (k < n)
    × (((s.device k).pc ≡ outside) ⊎ (((s.device k).pc ≡ waiting) × ((s.device k).id.done ≡ false)))

-- A device that has reported nothing.
awaited :
    {t : TimerPc} {ended i : ℕ} {d : Device}
    → DeviceInv t ended i d
    → (d.id.done || d.id.fsh) ≡ false
    → (d.pc ≡ outside) ⊎ ((d.pc ≡ waiting) × (d.id.done ≡ false))
awaited {t} {ended} {i} {d} inv h =
    elim d.pc as (λ pc. d.pc ≡ pc → (d.pc ≡ outside) ⊎ ((d.pc ≡ waiting) × (d.id.done ≡ false))) [
      | outside ↦ λ e. inl e
      | waiting ↦ λ e. inr (e, ground (arith, h))
      | detached ↦ λ e. ground (arith, h, inv.detached_fsh e)
    ]
      refl

-- Where the timer stands in a loop.
abbrev place : TimerPc → ℕ
place head = 0
place (collect k f e) = k
place (resume k f e) = k
place exited = 0

not_in_loop : (b : Bool) (k f e : ℕ) → (if b then exited else head) ≢ resume k f e
not_in_loop true k f e h = absurd (cc h)
not_in_loop false k f e h = absurd (cc h)

Inv-Moves :
    {n : ℕ} {s : System} (t : TimerPc)
    → s.timer ≡ t
    → Inv n s
    → t ≢ exited
    → Moves n s ⊎ IsAwaited n s
Inv-Moves {n} {s} head at inv ne = elim (Bool-cases s.timer_stop) [
  | inl off ↦ inl (_, slot_refused at off, λ e. absurd (cc (e, at)))
  | inr on ↦ inl (_, slot_begins at on, λ e. absurd (cc (e, at)))
]
Inv-Moves {n} {s} (collect k f e) at inv ne = elim (dec_lt k n) [
  | yes lt ↦ elim (Bool-cases ((s.device k).id.done || (s.device k).id.fsh)) [
    | inl seen ↦ inl (_, passes at lt seen, λ q. absurd (omega (arith, ap place (q ∙ at))))
    | inr h ↦ inr (k, lt, awaited (inv.devices k lt) h)
  ]
  | no last ↦ inl (_, ticks at (all_passed last), λ q. absurd (cc (q, at)))
]
  where
    all_passed : (k < n → ⊥) → k ≡ n
    all_passed last =
        omega (arith, (subst (λ t. Counted n s.timer_stop t s.device) at inv.counted).0)
Inv-Moves {n} {s} (resume k f e) at inv ne = elim (dec_lt k n) [
  | yes lt ↦ inl (_, resumes at lt, λ q. absurd (omega (arith, ap place (q ∙ at))))
  | no last ↦ inl (_, slot_ends at (all_freed last), λ q. not_in_loop (f == e) k f e (q ∙ at))
]
  where
    all_freed : (k < n → ⊥) → k ≡ n
    all_freed last =
        omega (arith, (subst (λ t. Counted n s.timer_stop t s.device) at inv.counted).0)
Inv-Moves exited at inv ne = absurd (ne refl)

-- In every reachable state of the timer and its `n` devices, unless the timer has exited, either
-- the timer can take a step or some device has not finished the slot: it is outside next_slot and
-- has not detached, or it is in next_slot and free to return. The timer and the devices never wait
-- for each other.
pub Reach-Moves : {n : ℕ} {s : System} → Reach n s → s.timer ≢ exited → Moves n s ⊎ IsAwaited n s
Reach-Moves {n} {s} r ne = Inv-Moves s.timer refl (Reach-Inv r) ne
