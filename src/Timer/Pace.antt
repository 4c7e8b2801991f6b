-- ===== src/Timer/Pace.antt =====
-- What holds of a device at every moment: how its flags, its thread and its turns go with the slots.
use hk252_co2017_nhom2_btl.Prelude.{
  Bool, arith, false, if◌then◌else◌, leb, ltb, not, true, ℕ, ◌+◌, ◌<◌, ◌||◌, ◌≡◌, ◌≢◌,
}
use hk252_co2017_nhom2_btl.Timer.{
  Device, outside, waiting, detached, TimerPc, head, collect, resume, exited, bit_of, set_done,
}

-- The timer has passed device `i` in its first loop, and not yet set it free in its second.
abbrev pub passed : TimerPc → ℕ → Bool
passed head i = false
passed (collect k f e) i = ltb i k
passed (resume k f e) i = leb k i
passed exited i = false

-- The slot has ended, and the timer has still to set device `i` free.
abbrev pub owing : TimerPc → ℕ → Bool
owing head i = false
owing (collect k f e) i = false
owing (resume k f e) i = leb k i
owing exited i = false

-- The device is free to return from next_slot.
abbrev pub freed : Device → Bool
freed d = elim d.pc [ outside ↦ false | waiting ↦ not d.id.done | detached ↦ false ]

pub record DeviceInv (t : TimerPc) (ended i : ℕ) (d : Device) : Type 0 where
  pub outside_idle : d.pc ≡ outside → (d.id.done ≡ false) × (d.id.fsh ≡ false)
  pub waiting_live : d.pc ≡ waiting → d.id.fsh ≡ false
  pub detached_fsh : d.pc ≡ detached → d.id.fsh ≡ true
  pub reported : passed t i ≡ true → (d.id.done || d.id.fsh) ≡ true
  pub paced : d.id.fsh ≡ false → d.turns + bit_of (freed d) + bit_of (owing t i) ≡ ended

-- The steps of the timer, seen from a device.
module _ (ended i : ℕ) (d : Device) where
  pub begins-DeviceInv : DeviceInv head ended i d → DeviceInv (collect 0 0 0) ended i d
  begins-DeviceInv h = ground arith

  pub refused-DeviceInv : DeviceInv head ended i d → DeviceInv exited ended i d
  refused-DeviceInv h = ground arith

  pub passes-DeviceInv :
      (k f e f' e' : ℕ)
      → ((i ≡ k) → (d.id.done || d.id.fsh) ≡ true)
      → DeviceInv (collect k f e) ended i d
      → DeviceInv (collect (k + 1) f' e') ended i d
  passes-DeviceInv k f e f' e' seen h = ground arith

  pub ticks-DeviceInv :
      (k f e f' e' : ℕ)
      → i < k
      → DeviceInv (collect k f e) ended i d
      → DeviceInv (resume 0 f' e') (ended + 1) i d
  ticks-DeviceInv k f e f' e' lt h = ground arith

  pub resumes_other-DeviceInv :
      (k f e : ℕ)
      → k ≢ i
      → DeviceInv (resume k f e) ended i d
      → DeviceInv (resume (k + 1) f e) ended i d
  resumes_other-DeviceInv k f e ne h = ground arith

  pub resumes_self-DeviceInv :
      (f e : ℕ)
      → DeviceInv (resume i f e) ended i d
      → DeviceInv (resume (i + 1) f e) ended i (set_done d false)
  resumes_self-DeviceInv f e h = ground arith

  pub ends-DeviceInv :
      (k f e : ℕ) (b : Bool)
      → i < k
      → DeviceInv (resume k f e) ended i d
      → DeviceInv (if b then exited else head) ended i d
  ends-DeviceInv k f e b lt h = ground arith

-- The steps of the device itself.
module _ (t : TimerPc) (ended i : ℕ) (d : Device) where
  pub reports-DeviceInv :
      d.pc ≡ outside
      → DeviceInv t ended i d
      → DeviceInv t ended i (record (set_done d true) { pc = waiting })
  reports-DeviceInv o h = ground arith

  pub returns-DeviceInv :
      d.pc ≡ waiting
      → d.id.done ≡ false
      → DeviceInv t ended i d
      → DeviceInv t ended i (record d { pc = outside; turns = d.turns + 1 })
  returns-DeviceInv w o h = ground arith

  pub detaches-DeviceInv :
      d.pc ≡ outside
      → DeviceInv t ended i d
      → DeviceInv t ended i (record d { id = record d.id { fsh = true }; pc = detached })
  detaches-DeviceInv o h = ground arith
