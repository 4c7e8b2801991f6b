-- ===== src/Pte/Swapped.antt =====
-- What init_pte writes for a swapped page, read back by the accessor macros.
use hk252_co2017_nhom2_btl.Prelude.{ap, arith, refl, success, ℕ, ◌%◌, ◌*◌, ◌<◌, ◌^◌, ◌∙◌, ◌≡◌, ◌≢◌}
use hk252_co2017_nhom2_btl.Pte.{
  not32, setbit, clrbit, setval, getval, page_present, paging_swp, init_pte, pte_present_mask,
  pte_swapped_mask, pte_dirty_mask, pte_swptyp_mask, pte_swpoff_mask,
}
use hk252_co2017_nhom2_btl.Pte.Bit.{
  bit, bit-bit_and, bit-bit_or, bit-setval, getval_lem, field-setval_self, field-setval_other,
}
use hk252_co2017_nhom2_btl.Pte.Online.{page_present-bit, setval-lt}

abbrev flags : ℕ → ℕ
flags pte = clrbit (setbit (setbit pte pte_present_mask) pte_swapped_mask) pte_dirty_mask

abbrev typed : ℕ → ℕ → ℕ
typed pte swptyp = setval (flags pte) swptyp pte_swptyp_mask 0

abbrev entry : ℕ → ℕ → ℕ → ℕ
entry pte swptyp swpoff = setval (typed pte swptyp) swpoff pte_swpoff_mask 5

entry-present : (pte swptyp swpoff : ℕ) → bit 31 (entry pte swptyp swpoff) ≡ 1
entry-present pte swptyp swpoff = omega (
  arith,
  bit-setval 31 (typed pte swptyp) swpoff pte_swpoff_mask 5,
  bit-setval 31 (flags pte) swptyp pte_swptyp_mask 0,
  bit-bit_and 31 (setbit (setbit pte pte_present_mask) pte_swapped_mask) (not32 pte_dirty_mask),
  bit-bit_or 31 (setbit pte pte_present_mask) pte_swapped_mask,
  bit-bit_or 31 pte pte_present_mask,
)

entry-swapped : (pte swptyp swpoff : ℕ) → bit 30 (entry pte swptyp swpoff) ≡ 1
entry-swapped pte swptyp swpoff = omega (
  arith,
  bit-setval 30 (typed pte swptyp) swpoff pte_swpoff_mask 5,
  bit-setval 30 (flags pte) swptyp pte_swptyp_mask 0,
  bit-bit_and 30 (setbit (setbit pte pte_present_mask) pte_swapped_mask) (not32 pte_dirty_mask),
  bit-bit_or 30 (setbit pte pte_present_mask) pte_swapped_mask,
)

entry-swptyp :
    (pte swptyp swpoff : ℕ) → getval (entry pte swptyp swpoff) pte_swptyp_mask 0 ≡ swptyp % 2 ^ 5
entry-swptyp pte swptyp swpoff =
    getval_lem (entry pte swptyp swpoff) pte_swptyp_mask 0 5 refl
    ∙ field-setval_other (typed pte swptyp) swpoff pte_swpoff_mask 5 0 5 refl refl
    ∙ field-setval_self (flags pte) swptyp pte_swptyp_mask 0 5 refl refl
    ∙ omega arith

entry-swpoff : (pte swptyp swpoff : ℕ) → paging_swp (entry pte swptyp swpoff) ≡ swpoff % 2 ^ 21
unfolding paging_swp
entry-swpoff pte swptyp swpoff =
    getval_lem (entry pte swptyp swpoff) pte_swpoff_mask 5 21 refl
    ∙ field-setval_self (typed pte swptyp) swpoff pte_swpoff_mask 5 21 refl refl
    ∙ omega arith

-- init_pte for a swapped page succeeds whatever the word held before, with an entry of 32 bits that
-- gives back the low 5 bits of the swap type and the low 21 bits of the swap offset, and has both
-- the swapped and the present bit.
pub init_pte-swapped :
    (pte pre fpn drt swp swptyp swpoff : ℕ)
    → pre ≢ 0
    → swp ≢ 0
    → (pte' : ℕ) × (init_pte pte pre fpn drt swp swptyp swpoff ≡ (success, pte'))
      × (getval pte' pte_swptyp_mask 0 ≡ swptyp % 2 ^ 5)
      × (paging_swp pte' ≡ swpoff % 2 ^ 21)
      × (bit 30 pte' ≡ 1)
      × (pte' < 2 ^ 32)
      × (page_present pte' ≡ pte_present_mask)
unfolding init_pte
init_pte-swapped pte pre fpn drt swp swptyp swpoff p s = (
  entry pte swptyp swpoff,
  ground arith,
  entry-swptyp pte swptyp swpoff,
  entry-swpoff pte swptyp swpoff,
  entry-swapped pte swptyp swpoff,
  setval-lt (typed pte swptyp) swpoff pte_swpoff_mask 5 refl refl,
  page_present-bit (entry pte swptyp swpoff)
      ∙ ap (λ (t : ℕ). 2 ^ 31 * t) (entry-present pte swptyp swpoff),
)
