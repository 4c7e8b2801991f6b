-- ===== src/Pte.antt =====
-- src/mm64.c and the macros of include/mm.h, include/mm64.h and include/bitops.h: page table
-- entries as packed words, and the five directory indices of an address.
-- CONFIG64 is never defined, so BITS_PER_LONG is 32 and the masks of an entry are 32-bit words;
-- the entry itself is an `addr_t` of 64 bits. A C `int` that is only tested against 0, and
-- `swptyp`, are bit patterns.
pub mod Bit
pub mod Online
pub mod Swapped
pub mod Directory
use hk252_co2017_nhom2_btl.Prelude.{
  bit_and, bit_or, failure, if◌then◌else◌, success, ℕ, ℤ, ◌%◌, ◌*◌, ◌-◌, ◌/◌, ◌==◌, ◌^◌,
}

-- GENMASK and GENMASK64
abbrev pub genmask : ℕ → ℕ → ℕ
genmask h l = bit_and ((2 ^ 32 - 1) * 2 ^ l % 2 ^ 32) ((2 ^ 32 - 1) / 2 ^ (32 - h - 1))

abbrev pub genmask64 : ℕ → ℕ → ℕ
genmask64 h l = bit_and ((2 ^ 64 - 1) * 2 ^ l % 2 ^ 64) ((2 ^ 64 - 1) / 2 ^ (64 - h - 1))

abbrev pub pte_present_mask : ℕ
pte_present_mask = 2 ^ 31

abbrev pub pte_swapped_mask : ℕ
pte_swapped_mask = 2 ^ 30

abbrev pub pte_dirty_mask : ℕ
pte_dirty_mask = 2 ^ 28

abbrev pub pte_fpn_mask : ℕ
pte_fpn_mask = genmask 12 0

abbrev pub pte_swptyp_mask : ℕ
pte_swptyp_mask = genmask 4 0

abbrev pub pte_swpoff_mask : ℕ
pte_swpoff_mask = genmask 25 5

-- `~mask` of a 32-bit mask; it extends with zeros where it meets a 64-bit word.
abbrev pub not32 : ℕ → ℕ
not32 mask = 2 ^ 32 - 1 - mask

-- SETBIT, CLRBIT, SETVAL and GETVAL, as functions to the new word
abbrev pub setbit : ℕ → ℕ → ℕ
setbit v mask = bit_or v mask

abbrev pub clrbit : ℕ → ℕ → ℕ
clrbit v mask = bit_and v (not32 mask)

abbrev pub setval : ℕ → ℕ → ℕ → ℕ → ℕ
setval v value mask offst =
    bit_or (bit_and v (not32 mask)) (bit_and (value * 2 ^ offst % 2 ^ 64) mask)

abbrev pub getval : ℕ → ℕ → ℕ → ℕ
getval v mask offst = bit_and v mask / 2 ^ offst

-- PAGING_PAGE_PRESENT: nonzero for a page that is present
unfoldable pub page_present : ℕ → ℕ
page_present pte = bit_and pte pte_present_mask

-- PAGING_FPN
unfoldable pub paging_fpn : ℕ → ℕ
paging_fpn pte = getval pte pte_fpn_mask 0

-- PAGING_SWP
unfoldable pub paging_swp : ℕ → ℕ
paging_swp pte = bit_and pte pte_swpoff_mask / 2 ^ 5

unfoldable pub init_pte : ℕ → ℕ → ℕ → ℕ → ℕ → ℕ → ℕ → ℤ × ℕ
init_pte pte pre fpn drt swp swptyp swpoff =
    if pre == 0
    then (success, pte)
    else if swp == 0
    then (if fpn == 0 then (failure, pte) else (
      success,
      setval (clrbit (clrbit (setbit pte pte_present_mask) pte_swapped_mask) pte_dirty_mask) fpn
          pte_fpn_mask 0,
    ))
    else (
      success,
      setval
          (setval (clrbit (setbit (setbit pte pte_present_mask) pte_swapped_mask) pte_dirty_mask)
            swptyp pte_swptyp_mask 0)
          swpoff pte_swpoff_mask 5,
    )

-- The out-parameters of get_pd_from_address.
pub record Directories : Type 0 where
  pub pgd : ℕ
  pub p4d : ℕ
  pub pud : ℕ
  pub pmd : ℕ
  pub pt : ℕ

pub get_pd_from_address : ℕ → ℤ × Directories
get_pd_from_address addr = (
  success,
  record {
    pgd = bit_and addr (genmask64 56 48) / 2 ^ 48;
    p4d = bit_and addr (genmask64 47 39) / 2 ^ 39;
    pud = bit_and addr (genmask64 38 30) / 2 ^ 30;
    pmd = bit_and addr (genmask64 29 21) / 2 ^ 21;
    pt = bit_and addr (genmask64 20 12) / 2 ^ 12;
  },
)

-- `pgn << PAGING64_ADDR_PT_SHIFT` drops the bits shifted out of the word.
pub get_pd_from_pagenum : ℕ → ℤ × Directories
get_pd_from_pagenum pgn = get_pd_from_address (pgn * 2 ^ 12 % 2 ^ 64)
