-- ===== src/Prelude/Bits.antt =====
-- `bit_and` and `bit_or` at variables: how they commute with `/ 2 ^ k` and `% 2 ^ k`.
mod Step
pub use Step.{bit_or_step, bit_and_step, bit_and-zero, bit_or-zero, zero-bit_or}
use Prim.Native.Nat.{ℕ, zero, suc, ◌+◌, ◌-◌, ◌*◌, ◌/◌, ◌%◌, ◌^◌, ◌≤◌, ◌<◌, bit_and, bit_or}
use mathlib.Core.Path.{◌≡◌, refl, ap, ap₂}
use native.Mathlib.Nat.{pow-succ', one-le-pow, div-one, mod-one, div-div-eq-div-mul, div-add-mod}
use native.Mathlib.Omega.{arith}

pub bit_or-half : (a b : ℕ) → bit_or a b / 2 ≡ bit_or (a / 2) (b / 2)
bit_or-half a b = omega (arith, bit_or_step a b)

pub bit_and-half : (a b : ℕ) → bit_and a b / 2 ≡ bit_and (a / 2) (b / 2)
bit_and-half a b = omega (arith, bit_and_step a b)

pub div-pow-suc : (k a : ℕ) → a / 2 ^ suc k ≡ a / 2 / 2 ^ k
div-pow-suc k a = rw (pow-succ' 2 k, div-div-eq-div-mul a 2 (2 ^ k))

pub mod-pow-suc : (k a : ℕ) → a % 2 ^ suc k ≡ a / 2 % 2 ^ k * 2 + a % 2
mod-pow-suc k a = omega (
  arith,
  pow-succ' 2 k,
  div-pow-suc k a,
  div-add-mod a (2 ^ suc k),
  div-add-mod (a / 2) (2 ^ k),
  ap (λ (t : ℕ). t * (a / 2 / 2 ^ k)) (pow-succ' 2 k),
  ap (λ (t : ℕ). 2 ^ suc k * t) (div-pow-suc k a),
)

-- Shifting right by `k` goes inside.
pub bit_or-div : (k a b : ℕ) → bit_or a b / 2 ^ k ≡ bit_or (a / 2 ^ k) (b / 2 ^ k)
bit_or-div zero a b = rw (div-one (bit_or a b), div-one a, div-one b)
bit_or-div (suc k) a b =
    rw (div-pow-suc k (bit_or a b), div-pow-suc k a, div-pow-suc k b, bit_or-half)
      (bit_or-div k (a / 2) (b / 2))

pub bit_and-div : (k a b : ℕ) → bit_and a b / 2 ^ k ≡ bit_and (a / 2 ^ k) (b / 2 ^ k)
bit_and-div zero a b = rw (div-one (bit_and a b), div-one a, div-one b)
bit_and-div (suc k) a b =
    rw (div-pow-suc k (bit_and a b), div-pow-suc k a, div-pow-suc k b, bit_and-half)
      (bit_and-div k (a / 2) (b / 2))

-- Keeping the low `k` bits goes inside.
pub bit_or-mod : (k a b : ℕ) → bit_or a b % 2 ^ k ≡ bit_or (a % 2 ^ k) (b % 2 ^ k)
bit_or-mod zero a b = rw (mod-one (bit_or a b), mod-one a, mod-one b)
bit_or-mod (suc k) a b = omega (
  arith,
  mod-pow-suc k (bit_or a b),
  mod-pow-suc k a,
  mod-pow-suc k b,
  bit_or_step a b,
  bit_or_step (a % 2 ^ suc k) (b % 2 ^ suc k),
  bit_or-mod k (a / 2) (b / 2),
  ap (λ (t : ℕ). t % 2 ^ k) (bit_or-half a b),
  ap₂ bit_or (half_of_mod k a) (half_of_mod k b),
)
  where
    half_of_mod : (k a : ℕ) → a % 2 ^ suc k / 2 ≡ a / 2 % 2 ^ k
    half_of_mod k a = omega (arith, mod-pow-suc k a)

pub bit_and-mod : (k a b : ℕ) → bit_and a b % 2 ^ k ≡ bit_and (a % 2 ^ k) (b % 2 ^ k)
bit_and-mod zero a b = rw (mod-one (bit_and a b), mod-one a, mod-one b)
bit_and-mod (suc k) a b = omega (
  arith,
  mod-pow-suc k (bit_and a b),
  mod-pow-suc k a,
  mod-pow-suc k b,
  bit_and_step a b,
  bit_and_step (a % 2 ^ suc k) (b % 2 ^ suc k),
  bit_and-mod k (a / 2) (b / 2),
  ap (λ (t : ℕ). t % 2 ^ k) (bit_and-half a b),
  ap₂ bit_and (half_of_mod k a) (half_of_mod k b),
)
  where
    half_of_mod : (k a : ℕ) → a % 2 ^ suc k / 2 ≡ a / 2 % 2 ^ k
    half_of_mod k a = omega (arith, mod-pow-suc k a)

-- A mask of `k` ones keeps the low `k` bits.
pub bit_and-ones : (k a : ℕ) → bit_and a (2 ^ k - 1) ≡ a % 2 ^ k
bit_and-ones zero a = rw (mod-one) (bit_and-zero a)
bit_and-ones (suc k) a = omega (
  arith,
  pow-succ' 2 k,
  one-le-pow k 2,
  mod-pow-suc k a,
  bit_and_step a (2 ^ suc k - 1),
  bit_and-ones k (a / 2),
  ap (bit_and (a / 2)) half_ones,
)
  where
    half_ones : (2 ^ suc k - 1) / 2 ≡ 2 ^ k - 1
    half_ones = omega (arith, pow-succ' 2 k, one-le-pow k 2)
