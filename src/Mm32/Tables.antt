-- ===== src/Mm32/Tables.antt =====
-- An entry of the table after pte_set_fpn and after pte_set_swap.
use hk252_co2017_nhom2_btl.Prelude.{
  List, arith, get_elem?, min, ok, ptr, refl, set, some, success, ℕ, ◌%◌, ◌^◌, ◌∙◌, ◌≡◌,
}
use hk252_co2017_nhom2_btl.Pte.{
  not32, setbit, clrbit, getval, page_present, paging_fpn, paging_swp, pte_present_mask,
  pte_swapped_mask, pte_fpn_mask, pte_swptyp_mask, pte_swpoff_mask,
}
use hk252_co2017_nhom2_btl.Pte
use hk252_co2017_nhom2_btl.Pte.Bit.{
  bit, bit-bit_and, bit-bit_or, bit-setval, getval_lem, field-setval_self, field-setval_other,
}
use hk252_co2017_nhom2_btl.Pte.Online.{page_present-bit}
use hk252_co2017_nhom2_btl.Mm32.{pte_set_swap, pte_set_fpn}
use hk252_co2017_nhom2_btl.Mm32.Words.{setval_same}
use Prim.Native.Nat.{max}

-- SETVAL leaves a bit outside its mask.
bit-setval_other :
    (k v value mask off : ℕ)
    → bit k mask ≡ 0
    → bit k (not32 mask) ≡ 1
    → bit k (Pte.setval v value mask off) ≡ bit k v
bit-setval_other k v value mask off e f = omega (arith, bit-setval k v value mask off, e, f)

abbrev online : ℕ → ℕ
online pte = clrbit (setbit pte pte_present_mask) pte_swapped_mask

abbrev online_word : ℕ → ℕ → ℕ
online_word pte fpn = Pte.setval (online pte) fpn pte_fpn_mask 0

-- The word of a page in RAM, which held `pte` before: its dirty bit is as it was.
pub IsOnline : ℕ → ℕ → ℕ → Type 0
IsOnline pte fpn pte' =
    (page_present pte' ≡ pte_present_mask)
    × (bit 30 pte' ≡ 0)
    × (bit 28 pte' ≡ bit 28 pte)
    × (paging_fpn pte' ≡ fpn % 2 ^ 13)

online-bit :
    (k pte : ℕ)
    → bit k (online pte)
      ≡ min (max (bit k pte) (bit k pte_present_mask)) (bit k (not32 pte_swapped_mask))
online-bit k pte = omega (
  arith,
  bit-bit_and k (setbit pte pte_present_mask) (not32 pte_swapped_mask),
  bit-bit_or k pte pte_present_mask,
)

online_word-IsOnline : (pte fpn : ℕ) → IsOnline pte fpn (online_word pte fpn)
unfolding IsOnline paging_fpn
online_word-IsOnline pte fpn = (
  omega (
    arith,
    page_present-bit (online_word pte fpn),
    bit-setval_other 31 (online pte) fpn pte_fpn_mask 0 refl refl,
    online-bit 31 pte,
  ),
  omega (arith, bit-setval_other 30 (online pte) fpn pte_fpn_mask 0 refl refl, online-bit 30 pte),
  omega (arith, bit-setval_other 28 (online pte) fpn pte_fpn_mask 0 refl refl, online-bit 28 pte),
  getval_lem (online_word pte fpn) pte_fpn_mask 0 13 refl
      ∙ field-setval_self (online pte) fpn pte_fpn_mask 0 13 refl refl
      ∙ omega arith,
)

-- In the build with 32-bit addresses, pte_set_fpn of a page that the table has succeeds and changes
-- the entry of that page alone; the entry is present and not swapped, gives back the low 13 bits of
-- the frame number, and keeps its dirty bit.
pte_set_fpn-IsOnline :
    (pgd : List ℕ) (pgn fpn pte : ℕ)
    → get_elem? pgd pgn ≡ some pte
    → (pte' : ℕ) × (pte_set_fpn (ptr pgd) pgn fpn ≡ ok (success, set pgd pgn pte'))
      × IsOnline pte fpn pte'
unfolding pte_set_fpn
pte_set_fpn-IsOnline pgd pgn fpn pte e = (
  online_word pte fpn,
  ground (arith, e, setval_same (online pte) fpn pte_fpn_mask 0 refl),
  online_word-IsOnline pte fpn,
)

abbrev swapped : ℕ → ℕ
swapped pte = setbit (setbit pte pte_present_mask) pte_swapped_mask

abbrev typed_word : ℕ → ℕ → ℕ
typed_word pte swptyp = Pte.setval (swapped pte) swptyp pte_swptyp_mask 0

abbrev swapped_word : ℕ → ℕ → ℕ → ℕ
swapped_word pte swptyp swpoff = Pte.setval (typed_word pte swptyp) swpoff pte_swpoff_mask 5

-- The word of a page in swap, which held `pte` before: it is marked present too.
IsSwapped : ℕ → ℕ → ℕ → ℕ → Type 0
IsSwapped pte swptyp swpoff pte' =
    (page_present pte' ≡ pte_present_mask)
    × (bit 30 pte' ≡ 1)
    × (bit 28 pte' ≡ bit 28 pte)
    × (getval pte' pte_swptyp_mask 0 ≡ swptyp % 2 ^ 5)
    × (paging_swp pte' ≡ swpoff % 2 ^ 21)

swapped_word-bit :
    (k pte swptyp swpoff : ℕ)
    → bit k pte_swptyp_mask ≡ 0
    → bit k (not32 pte_swptyp_mask) ≡ 1
    → bit k pte_swpoff_mask ≡ 0
    → bit k (not32 pte_swpoff_mask) ≡ 1
    → bit k (swapped_word pte swptyp swpoff)
      ≡ max (max (bit k pte) (bit k pte_present_mask)) (bit k pte_swapped_mask)
swapped_word-bit k pte swptyp swpoff e f g h = omega (
  arith,
  bit-setval_other k (typed_word pte swptyp) swpoff pte_swpoff_mask 5 g h,
  bit-setval_other k (swapped pte) swptyp pte_swptyp_mask 0 e f,
  bit-bit_or k (setbit pte pte_present_mask) pte_swapped_mask,
  bit-bit_or k pte pte_present_mask,
)

swapped_word-IsSwapped :
    (pte swptyp swpoff : ℕ) → IsSwapped pte swptyp swpoff (swapped_word pte swptyp swpoff)
unfolding IsSwapped paging_swp
swapped_word-IsSwapped pte swptyp swpoff = (
  omega (
    arith,
    page_present-bit (swapped_word pte swptyp swpoff),
    swapped_word-bit 31 pte swptyp swpoff refl refl refl refl,
  ),
  omega (arith, swapped_word-bit 30 pte swptyp swpoff refl refl refl refl),
  omega (arith, swapped_word-bit 28 pte swptyp swpoff refl refl refl refl),
  getval_lem (swapped_word pte swptyp swpoff) pte_swptyp_mask 0 5 refl
      ∙ field-setval_other (typed_word pte swptyp) swpoff pte_swpoff_mask 5 0 5 refl refl
      ∙ field-setval_self (swapped pte) swptyp pte_swptyp_mask 0 5 refl refl
      ∙ omega arith,
  getval_lem (swapped_word pte swptyp swpoff) pte_swpoff_mask 5 21 refl
      ∙ field-setval_self (typed_word pte swptyp) swpoff pte_swpoff_mask 5 21 refl refl
      ∙ omega arith,
)

-- pte_set_swap of an entry inside the table succeeds and changes that entry alone, which becomes a
-- swapped one with the low 5 bits of the type and the low 21 bits of the offset.
pte_set_swap-IsSwapped :
    (pgd : List ℕ) (pgn swptyp swpoff pte : ℕ)
    → get_elem? pgd pgn ≡ some pte
    → (pte' : ℕ) × (pte_set_swap (ptr pgd) pgn swptyp swpoff ≡ ok (success, set pgd pgn pte'))
      × IsSwapped pte swptyp swpoff pte'
unfolding pte_set_swap
pte_set_swap-IsSwapped pgd pgn swptyp swpoff pte e = (
  swapped_word pte swptyp swpoff,
  ground (
    arith,
    e,
    setval_same (swapped pte) swptyp pte_swptyp_mask 0 refl,
    setval_same (typed_word pte swptyp) swpoff pte_swpoff_mask 5 refl,
  ),
  swapped_word-IsSwapped pte swptyp swpoff,
)
