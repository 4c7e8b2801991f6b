-- ===== src/Pte/Directory.antt =====
-- The five directory indices of an address, as digits in base 512.
use hk252_co2017_nhom2_btl.Prelude.{
  ap, arith, bit_and, refl, ℕ, ◌%◌, ◌*◌, ◌+◌, ◌-◌, ◌/◌, ◌<◌, ◌^◌, ◌≡◌,
}
use hk252_co2017_nhom2_btl.Pte.{Directories, genmask64, get_pd_from_address, get_pd_from_pagenum}
use hk252_co2017_nhom2_btl.Prelude.Bits.{bit_and-div, bit_and-ones}

-- The page number that the indices stand for.
abbrev pub page_of : Directories → ℕ
page_of d = d.pgd * 2 ^ 36 + d.p4d * 2 ^ 27 + d.pud * 2 ^ 18 + d.pmd * 2 ^ 9 + d.pt

digit :
    (addr mask lo : ℕ)
    → mask / 2 ^ lo ≡ 2 ^ 9 - 1
    → bit_and addr mask / 2 ^ lo ≡ addr / 2 ^ lo % 2 ^ 9
digit addr mask lo e = rw (bit_and-div lo addr mask, e) (bit_and-ones 9 (addr / 2 ^ lo))

-- For an address of the 57-bit bus, every index that get_pd_from_address yields is below 512, and
-- together with the offset in the page they are the address.
pub get_pd_from_address-page_of :
    (addr : ℕ)
    → addr < 2 ^ 57
    → let (status, d) = get_pd_from_address addr in
      (page_of d * 4096 + addr % 4096 ≡ addr)
      × (d.pgd < 512)
      × (d.p4d < 512)
      × (d.pud < 512)
      × (d.pmd < 512)
      × (d.pt < 512)
unfolding get_pd_from_address
get_pd_from_address-page_of addr h = omega (
  arith,
  digit addr (genmask64 56 48) 48 refl,
  digit addr (genmask64 47 39) 39 refl,
  digit addr (genmask64 38 30) 30 refl,
  digit addr (genmask64 29 21) 21 refl,
  digit addr (genmask64 20 12) 12 refl,
)

-- Two page numbers below 2 ^ 45 for which get_pd_from_pagenum yields the same indices are equal.
get_pd_from_pagenum-injective :
    (a b : ℕ)
    → a < 2 ^ 45
    → b < 2 ^ 45
    → (get_pd_from_pagenum a).1 ≡ (get_pd_from_pagenum b).1
    → a ≡ b
unfolding get_pd_from_pagenum
get_pd_from_pagenum-injective a b ha hb e = omega (
  arith,
  get_pd_from_address-page_of (a * 2 ^ 12 % 2 ^ 64) (omega arith),
  get_pd_from_address-page_of (b * 2 ^ 12 % 2 ^ 64) (omega arith),
  ap page_of e,
)
