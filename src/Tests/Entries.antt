-- ===== src/Tests/Entries.antt =====
-- Page table entries and directory indices (src/mm64.c).
use hk252_co2017_nhom2_btl.Prelude.{arith, success, ℕ, ◌%◌, ◌*◌, ◌+◌, ◌<◌, ◌^◌, ◌≡◌}
use hk252_co2017_nhom2_btl.Pte.{
  init_pte, page_present, paging_fpn, paging_swp, getval, pte_present_mask, pte_swptyp_mask,
  get_pd_from_address,
}
use hk252_co2017_nhom2_btl.Pte.Bit.{bit}
use hk252_co2017_nhom2_btl.Pte.Online.{init_pte-online}
use hk252_co2017_nhom2_btl.Pte.Swapped.{init_pte-swapped}
use hk252_co2017_nhom2_btl.Pte.Directory.{page_of, get_pd_from_address-page_of}

init_pte-online_example :
    (pte' : ℕ) × (init_pte 12345 1 77 0 0 0 0 ≡ (success, pte'))
    × (page_present pte' ≡ pte_present_mask)
    × (bit 30 pte' ≡ 0)
    × (bit 28 pte' ≡ 0)
    × (pte' < 2 ^ 32)
    × (paging_fpn pte' ≡ 77)
init_pte-online_example = init_pte-online 12345 1 77 0 0 0 (omega arith) (omega arith)

init_pte-swapped_example :
    (pte' : ℕ) × (init_pte 12345 1 0 0 1 3 4096 ≡ (success, pte'))
    × (getval pte' pte_swptyp_mask 0 ≡ 3)
    × (paging_swp pte' ≡ 4096)
    × (bit 30 pte' ≡ 1)
    × (pte' < 2 ^ 32)
    × (page_present pte' ≡ pte_present_mask)
init_pte-swapped_example = init_pte-swapped 12345 1 0 0 1 3 4096 (omega arith) (omega arith)

get_pd_from_address-page_of_example :
    let (status, d) = get_pd_from_address 123456789 in
    (page_of d * 4096 + 123456789 % 4096 ≡ 123456789)
    × (d.pgd < 512)
    × (d.p4d < 512)
    × (d.pud < 512)
    × (d.pmd < 512)
    × (d.pt < 512)
get_pd_from_address-page_of_example = get_pd_from_address-page_of 123456789 (omega arith)
