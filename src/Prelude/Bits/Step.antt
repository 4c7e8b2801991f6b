-- ===== src/Prelude/Bits/Step.antt =====
-- The lowest digit of `bit_and` and `bit_or`. Both stand for `bitwise`, a recursion on binary
-- digits whose fuel is the first number.
use Prim.Native.Nat.{
  ℕ, zero, suc, ◌+◌, ◌-◌, ◌*◌, ◌/◌, ◌%◌, ◌≤◌, min, max, bit_and, bit_or, digits, bitwise,
  bit_and-bitwise, bit_or-bitwise,
}
use mathlib.Core.Path.{◌≡◌, refl, ap, ◌∙◌}
use native.Mathlib.Omega.{arith}

module _ (last : ℕ → ℕ) (op : ℕ → ℕ → ℕ) where
  -- One more unit of fuel than enough changes nothing.
  enough : (fuel a b : ℕ) → a ≤ fuel → digits last op (suc fuel) a b ≡ digits last op fuel a b
  enough zero zero b h = refl
  enough zero (suc a) b h = elim h [ ]
  enough (suc fuel) zero b h = refl
  enough (suc fuel) (suc a) b h = rw (enough fuel (suc a / 2) (b / 2) (omega arith))

  surplus : (extra fuel a b : ℕ) → fuel ≡ extra + a → digits last op fuel a b ≡ bitwise last op a b
  surplus zero fuel a b e = ap (λ (n : ℕ). digits last op n a b) (omega arith)
  surplus (suc extra) zero a b e = absurd (omega arith)
  surplus (suc extra) (suc fuel) a b e =
      enough fuel a b (omega arith) ∙ surplus extra fuel a b (omega arith)

  lowest_digit :
      (a b : ℕ)
      → bitwise last op (suc a) b ≡ op (suc a % 2) (b % 2) + 2 * bitwise last op (suc a / 2) (b / 2)
  lowest_digit a b = omega (arith, surplus (a - suc a / 2) a (suc a / 2) (b / 2) (omega arith))

pub zero-bit_or : (b : ℕ) → bit_or 0 b ≡ b
zero-bit_or b = bit_or-bitwise 0 b

pub zero-bit_and : (b : ℕ) → bit_and 0 b ≡ 0
zero-bit_and b = bit_and-bitwise 0 b

pub bit_or_step : (x y : ℕ) → bit_or x y ≡ max (x % 2) (y % 2) + 2 * bit_or (x / 2) (y / 2)
bit_or_step (suc x) y = omega (
  arith,
  bit_or-bitwise (suc x / 2) (y / 2),
  bit_or-bitwise (suc x) y,
  lowest_digit (λ d. d) max x y,
)
bit_or_step zero y = omega (arith, zero-bit_or (y / 2), zero-bit_or y)

pub bit_and_step : (x y : ℕ) → bit_and x y ≡ min (x % 2) (y % 2) + 2 * bit_and (x / 2) (y / 2)
bit_and_step (suc x) y = omega (
  arith,
  bit_and-bitwise (suc x / 2) (y / 2),
  bit_and-bitwise (suc x) y,
  lowest_digit (λ d. 0) min x y,
)
bit_and_step zero y = omega (arith, zero-bit_and (y / 2), zero-bit_and y)

or_digits : (fuel a : ℕ) → a ≤ fuel → digits (λ y. y) max fuel a 0 ≡ a
or_digits zero zero h = refl
or_digits zero (suc a) h = elim h [ ]
or_digits (suc fuel) zero h = refl
or_digits (suc fuel) (suc a) h = omega (arith, or_digits fuel (suc a / 2) (omega arith))

pub bit_or-zero : (a : ℕ) → bit_or a 0 ≡ a
bit_or-zero a = bit_or-bitwise a 0 ∙ or_digits a a (omega arith)

-- No digit of the second number is set.
clear_digits : (fuel a : ℕ) → digits (λ y. 0) min fuel a 0 ≡ 0
clear_digits zero zero = refl
clear_digits zero (suc a) = refl
clear_digits (suc fuel) zero = refl
clear_digits (suc fuel) (suc a) = omega (arith, clear_digits fuel (suc a / 2))

pub bit_and-zero : (a : ℕ) → bit_and a 0 ≡ 0
bit_and-zero a = bit_and-bitwise a 0 ∙ clear_digits a a
