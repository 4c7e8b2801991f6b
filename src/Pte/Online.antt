-- ===== src/Pte/Online.antt =====
-- What init_pte writes for a page in RAM, read back by the accessor macros.
use hk252_co2017_nhom2_btl.Prelude.{
  ap, ap₂, arith, bit_and, bit_or, refl, success, ℕ, ◌%◌, ◌*◌, ◌/◌, ◌<◌, ◌^◌, ◌∙◌, ◌≡◌, ◌≢◌,
}
use hk252_co2017_nhom2_btl.Prelude.Bits.{bit_and-div, bit_or-div, bit_and-zero}
use hk252_co2017_nhom2_btl.Pte.{
  not32, setbit, clrbit, setval, page_present, paging_fpn, init_pte, pte_present_mask,
  pte_swapped_mask, pte_dirty_mask, pte_fpn_mask,
}
use hk252_co2017_nhom2_btl.Pte.Bit.{
  bit, bit-bit_and, bit-bit_or, bit-setval, bit_and-single, getval_lem, field-setval_self,
}

pub page_present-bit : (pte : ℕ) → page_present pte ≡ 2 ^ 31 * bit 31 pte
unfolding page_present
page_present-bit pte = bit_and-single 31 pte

-- No bit above the low 32 survives a SETVAL, for the complement of the mask is a 32-bit word.
pub setval-lt :
    (v value mask off : ℕ)
    → mask / 2 ^ 32 ≡ 0
    → not32 mask / 2 ^ 32 ≡ 0
    → setval v value mask off < 2 ^ 32
setval-lt v value mask off e f = omega (
  arith,
  bit_or-div 32 (bit_and v (not32 mask)) (bit_and (value * 2 ^ off % 2 ^ 64) mask),
  ap₂ bit_or (part v (not32 mask) f) (part (value * 2 ^ off % 2 ^ 64) mask e),
)
  where
    part : (a m : ℕ) → m / 2 ^ 32 ≡ 0 → bit_and a m / 2 ^ 32 ≡ 0
    part a m z = bit_and-div 32 a m ∙ ap (bit_and (a / 2 ^ 32)) z ∙ bit_and-zero (a / 2 ^ 32)

-- The entry of an online page.
abbrev flags : ℕ → ℕ
flags pte = clrbit (clrbit (setbit pte pte_present_mask) pte_swapped_mask) pte_dirty_mask

abbrev entry : ℕ → ℕ → ℕ
entry pte fpn = setval (flags pte) fpn pte_fpn_mask 0

entry-present : (pte fpn : ℕ) → bit 31 (entry pte fpn) ≡ 1
entry-present pte fpn = omega (
  arith,
  bit-setval 31 (flags pte) fpn pte_fpn_mask 0,
  bit-bit_and 31 (clrbit (setbit pte pte_present_mask) pte_swapped_mask) (not32 pte_dirty_mask),
  bit-bit_and 31 (setbit pte pte_present_mask) (not32 pte_swapped_mask),
  bit-bit_or 31 pte pte_present_mask,
)

entry-not_swapped : (pte fpn : ℕ) → bit 30 (entry pte fpn) ≡ 0
entry-not_swapped pte fpn = omega (
  arith,
  bit-setval 30 (flags pte) fpn pte_fpn_mask 0,
  bit-bit_and 30 (clrbit (setbit pte pte_present_mask) pte_swapped_mask) (not32 pte_dirty_mask),
  bit-bit_and 30 (setbit pte pte_present_mask) (not32 pte_swapped_mask),
)

entry-clean : (pte fpn : ℕ) → bit 28 (entry pte fpn) ≡ 0
entry-clean pte fpn = omega (
  arith,
  bit-setval 28 (flags pte) fpn pte_fpn_mask 0,
  bit-bit_and 28 (clrbit (setbit pte pte_present_mask) pte_swapped_mask) (not32 pte_dirty_mask),
)

entry-fpn : (pte fpn : ℕ) → paging_fpn (entry pte fpn) ≡ fpn % 2 ^ 13
unfolding paging_fpn
entry-fpn pte fpn =
    getval_lem (entry pte fpn) pte_fpn_mask 0 13 refl
    ∙ field-setval_self (flags pte) fpn pte_fpn_mask 0 13 refl refl
    ∙ omega arith

-- init_pte for a page in RAM with a frame number other than 0 succeeds whatever the word held
-- before, with an entry of 32 bits that is present, neither swapped nor dirty, and gives back the
-- low 13 bits of the frame number.
pub init_pte-online :
    (pte pre fpn drt swptyp swpoff : ℕ)
    → pre ≢ 0
    → fpn ≢ 0
    → (pte' : ℕ) × (init_pte pte pre fpn drt 0 swptyp swpoff ≡ (success, pte'))
      × (page_present pte' ≡ pte_present_mask)
      × (bit 30 pte' ≡ 0)
      × (bit 28 pte' ≡ 0)
      × (pte' < 2 ^ 32)
      × (paging_fpn pte' ≡ fpn % 2 ^ 13)
unfolding init_pte
init_pte-online pte pre fpn drt swptyp swpoff p f = (
  entry pte fpn,
  ground arith,
  page_present-bit (entry pte fpn) ∙ ap (λ (t : ℕ). 2 ^ 31 * t) (entry-present pte fpn),
  entry-not_swapped pte fpn,
  entry-clean pte fpn,
  setval-lt (flags pte) fpn pte_fpn_mask 0 refl refl,
  entry-fpn pte fpn,
)
