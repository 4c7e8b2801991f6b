-- ===== src/Prelude/Int.antt =====
-- Signed integers over the native numbers, for the results and counters of type `int`.
use Prim.Native.Nat.{ℕ, suc, ◌+◌, ◌-◌, ◌%◌, ◌^◌, ◌<◌}
use mathlib.Core.Path.{◌≡◌}
use native.Mathlib.Omega.{arith}
use mathlib.Core.Bool.{Bool, false}
use hk252_co2017_nhom2_btl.Prelude.Tests.{ltb, leb, ◌==◌, if◌then◌else◌}

-- `negsuc n` is -(n + 1).
pub data ℤ : Type 0 where
  pos : ℕ → ℤ
  negsuc : ℕ → ℤ

abbrev pub pos_part : ℤ → ℕ
pos_part (pos n) = n
pos_part (negsuc n) = 0

abbrev pub neg_part : ℤ → ℕ
neg_part (pos n) = 0
neg_part (negsuc n) = suc n

abbrev pub ltb_ℤ : ℤ → ℤ → Bool
ltb_ℤ a b = ltb (pos_part a + neg_part b) (pos_part b + neg_part a)

abbrev pub leb_ℤ : ℤ → ℤ → Bool
leb_ℤ a b = leb (pos_part a + neg_part b) (pos_part b + neg_part a)

-- The conversion of an unsigned value to a 32-bit `int`, which keeps the low 32 bits.
abbrev pub to_int : ℕ → ℤ
to_int n = let low = n % 2 ^ 32 in if ltb low (2 ^ 31) then pos low else negsuc (2 ^ 32 - low - 1)

-- The conversion of a 32-bit `int` to `addr_t`, which extends the sign to 64 bits.
abbrev pub to_addr : ℤ → ℕ
to_addr (pos n) = n % 2 ^ 64
to_addr (negsuc n) = 2 ^ 64 - 1 - n % 2 ^ 64

abbrev pub add64 : ℕ → ℕ → ℕ
add64 a b = (a + b) % 2 ^ 64

-- The results by which the C functions report.
abbrev pub success : ℤ
success = pos 0

abbrev pub failure : ℤ
failure = negsuc 0

-- A `char`, which is signed, given as a pattern below 256, converted to a 64-bit unsigned type.
abbrev pub char_to_arg : ℕ → ℕ
char_to_arg c = if ltb c 128 then c else 2 ^ 64 - 256 + c

-- The same, converted to `uint32_t`.
abbrev pub char_to_u32 : ℕ → ℕ
char_to_u32 c = if ltb c 128 then c else 2 ^ 32 - 256 + c

-- The tests `x == 0` and `x == -1` of a result.
abbrev pub is_zero : ℤ → Bool
is_zero (pos n) = n == 0
is_zero (negsuc n) = false

abbrev pub is_failure : ℤ → Bool
is_failure (pos n) = false
is_failure (negsuc n) = n == 0

pub to_int_small : (n : ℕ) → n < 2 ^ 31 → to_int n ≡ pos n
to_int_small n h = ground arith
