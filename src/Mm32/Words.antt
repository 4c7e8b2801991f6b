-- ===== src/Mm32/Words.antt =====
-- The words of both builds.
use hk252_co2017_nhom2_btl.Prelude.{ap, arith, bit_and, bit_or, refl, ℕ, ◌%◌, ◌*◌, ◌/◌, ◌^◌, ◌≡◌}
use hk252_co2017_nhom2_btl.Prelude.Bits.{bit_and-div, bit_and-mod, bit_and-zero}
use hk252_co2017_nhom2_btl.Pte
use hk252_co2017_nhom2_btl.Mm32

-- A mask of 32 bits does not see what is shifted out of them.
bit_and-narrow :
    (x mask : ℕ) → mask / 2 ^ 32 ≡ 0 → bit_and (x % 2 ^ 32) mask ≡ bit_and (x % 2 ^ 64) mask
bit_and-narrow x mask e = omega (
  arith,
  bit_and-mod 32 (x % 2 ^ 64) mask,
  ap (λ (y : ℕ). bit_and y (mask % 2 ^ 32)) low,
  ap (bit_and (x % 2 ^ 32)) whole,
  bit_and-div 32 (x % 2 ^ 64) mask,
  ap (bit_and (x % 2 ^ 64 / 2 ^ 32)) e,
  bit_and-zero (x % 2 ^ 64 / 2 ^ 32),
)
  where
    low : x % 2 ^ 64 % 2 ^ 32 ≡ x % 2 ^ 32
    low = omega arith

    whole : mask % 2 ^ 32 ≡ mask
    whole = omega (arith, e)

pub setval_same :
    (v value mask offst : ℕ)
    → mask / 2 ^ 32 ≡ 0
    → Mm32.setval v value mask offst ≡ Pte.setval v value mask offst
setval_same v value mask offst e =
    ap (bit_or (bit_and v (Pte.not32 mask))) (bit_and-narrow (value * 2 ^ offst) mask e)

-- init_pte of src/mm.c, which computes with 32-bit words, gives for all arguments the status and
-- the entry of init_pte of src/mm64.c, which computes with 64-bit words.
pub init_pte_same :
    (pte pre fpn drt swp swptyp swpoff : ℕ)
    → Mm32.init_pte pte pre fpn drt swp swptyp swpoff
      ≡ Pte.init_pte pte pre fpn drt swp swptyp swpoff
unfolding Mm32.init_pte Pte.init_pte
init_pte_same pte pre fpn drt swp swptyp swpoff =
    rw
      (
        bit_and-narrow (fpn * 2 ^ 0) Pte.pte_fpn_mask refl,
        bit_and-narrow (swptyp * 2 ^ 0) Pte.pte_swptyp_mask refl,
        bit_and-narrow (swpoff * 2 ^ 5) Pte.pte_swpoff_mask refl,
      )
      refl
