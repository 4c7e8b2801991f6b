-- ===== src/Pte/Bit.antt =====
-- Single bits of the words that the entry macros build.
use hk252_co2017_nhom2_btl.Prelude.{
  ap, ap₂, arith, bit_and, bit_or, min, ℕ, ◌%◌, ◌*◌, ◌-◌, ◌/◌, ◌<◌, ◌^◌, ◌∙◌, ◌≡◌,
}
use native.Mathlib.Nat.{div-add-mod, div_self, mod_self, one-le-pow, mod-mod}
use hk252_co2017_nhom2_btl.Prelude.Bits.{
  bit_and-div, bit_or-div, bit_and-mod, bit_or-mod, bit_and-zero, bit_and-ones, zero-bit_or,
  bit_or-zero, bit_and_step, bit_or_step,
}
use hk252_co2017_nhom2_btl.Pte.{not32, setval, getval}
use Prim.Native.Nat.{max}

abbrev pub bit : ℕ → ℕ → ℕ
bit k x = x / 2 ^ k % 2

pub bit-bit_and : (k a b : ℕ) → bit k (bit_and a b) ≡ min (bit k a) (bit k b)
bit-bit_and k a b = omega (arith, bit_and-div k a b, bit_and_step (a / 2 ^ k) (b / 2 ^ k))

pub bit-bit_or : (k a b : ℕ) → bit k (bit_or a b) ≡ max (bit k a) (bit k b)
bit-bit_or k a b = omega (arith, bit_or-div k a b, bit_or_step (a / 2 ^ k) (b / 2 ^ k))

pub bit-setval :
    (k v value mask off : ℕ)
    → bit k (setval v value mask off)
      ≡ max
          (min (bit k v) (bit k (not32 mask)))
          (min (bit k (value * 2 ^ off % 2 ^ 64)) (bit k mask))
bit-setval k v value mask off = omega (
  arith,
  bit-bit_or k (bit_and v (not32 mask)) (bit_and (value * 2 ^ off % 2 ^ 64) mask),
  bit-bit_and k v (not32 mask),
  bit-bit_and k (value * 2 ^ off % 2 ^ 64) mask,
)

-- A mask of one bit.
pub bit_and-single : (k a : ℕ) → bit_and a (2 ^ k) ≡ 2 ^ k * bit k a
bit_and-single k a =
    omega (
      arith,
      div-add-mod (bit_and a (2 ^ k)) (2 ^ k),
      ap (λ (t : ℕ). 2 ^ k * t) quotient,
      remainder,
    )
  where
    pos_pow : 0 < 2 ^ k
    pos_pow = one-le-pow k 2 (omega arith)

    quotient : bit_and a (2 ^ k) / 2 ^ k ≡ bit k a
    quotient = rw (bit_and-div k a (2 ^ k), div_self pos_pow) (bit_and-ones 1 (a / 2 ^ k))

    remainder : bit_and a (2 ^ k) % 2 ^ k ≡ 0
    remainder = rw (bit_and-mod k a (2 ^ k), mod_self (2 ^ k)) (bit_and-zero (a % 2 ^ k))

-- The field of `w` bits at `off`, and the words that meet it in all bits or in none.
abbrev pub field : ℕ → ℕ → ℕ → ℕ
field off w x = x / 2 ^ off % 2 ^ w

field-bit_and :
    (off w a b : ℕ) → field off w (bit_and a b) ≡ bit_and (field off w a) (field off w b)
field-bit_and off w a b = rw (bit_and-div off a b) (bit_and-mod w (a / 2 ^ off) (b / 2 ^ off))

field-bit_or : (off w a b : ℕ) → field off w (bit_or a b) ≡ bit_or (field off w a) (field off w b)
field-bit_or off w a b = rw (bit_or-div off a b) (bit_or-mod w (a / 2 ^ off) (b / 2 ^ off))

pub getval_lem : (v mask off w : ℕ) → mask / 2 ^ off ≡ 2 ^ w - 1 → getval v mask off ≡ field off w v
getval_lem v mask off w e = rw (bit_and-div off v mask, e) (bit_and-ones w (v / 2 ^ off))

field-inside :
    (off w v mask : ℕ) → field off w mask ≡ 2 ^ w - 1 → field off w (bit_and v mask) ≡ field off w v
field-inside off w v mask e =
    field-bit_and off w v mask
    ∙ ap (bit_and (field off w v)) e
    ∙ bit_and-ones w (field off w v)
    ∙ mod-mod (v / 2 ^ off) (2 ^ w)

field-outside : (off w v mask : ℕ) → field off w mask ≡ 0 → field off w (bit_and v mask) ≡ 0
field-outside off w v mask e =
    field-bit_and off w v mask ∙ ap (bit_and (field off w v)) e ∙ bit_and-zero (field off w v)

-- SETVAL writes the value's low bits into its own field ...
pub field-setval_self :
    (v value mask off w : ℕ)
    → field off w mask ≡ 2 ^ w - 1
    → field off w (not32 mask) ≡ 0
    → field off w (setval v value mask off) ≡ field off w (value * 2 ^ off % 2 ^ 64)
field-setval_self v value mask off w full empty =
    field-bit_or off w (bit_and v (not32 mask)) (bit_and (value * 2 ^ off % 2 ^ 64) mask)
    ∙ ap₂ bit_or (field-outside off w v (not32 mask) empty)
        (field-inside off w (value * 2 ^ off % 2 ^ 64) mask full)
    ∙ zero-bit_or (field off w (value * 2 ^ off % 2 ^ 64))

-- ... and leaves a field that its mask does not meet.
pub field-setval_other :
    (v value mask shift off w : ℕ)
    → field off w mask ≡ 0
    → field off w (not32 mask) ≡ 2 ^ w - 1
    → field off w (setval v value mask shift) ≡ field off w v
field-setval_other v value mask shift off w empty full =
    field-bit_or off w (bit_and v (not32 mask)) (bit_and (value * 2 ^ shift % 2 ^ 64) mask)
    ∙ ap₂ bit_or (field-inside off w v (not32 mask) full)
        (field-outside off w (value * 2 ^ shift % 2 ^ 64) mask empty)
    ∙ bit_or-zero (field off w v)
