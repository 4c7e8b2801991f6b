-- ===== src/Mapping.antt =====
-- src/mm64.c: vmap_page_range, alloc_pages_range and vm_map_ram; the first two are empty in the
-- source. `ret_rg` and the list of frames are out-parameters.
use hk252_co2017_nhom2_btl.Prelude.{
  Bool, Chain, end, if◌then◌else◌, ltb, not, ℕ, ℤ, ◌&&◌, ◌-◌, ◌==◌, ◌^◌, ◌||◌,
}
use hk252_co2017_nhom2_btl.Mm.{Region, Krnl}

pub vmap_page_range : Krnl → ℕ → ℤ → Chain ℕ → Region → ℕ × Krnl × Region
vmap_page_range krnl addr pgnum frames ret_rg = (0, krnl, ret_rg)

pub alloc_pages_range : Krnl → ℤ → Chain ℕ → ℕ × Krnl × Chain ℕ
alloc_pages_range krnl req_pgnum frm_lst = (0, krnl, frm_lst)

-- The two tests of vm_map_ram on `ret_alloc`: an unsigned number is never below 0, and -3000 is
-- its 64-bit pattern.
pub map_failed : ℕ → Bool
map_failed ret_alloc =
    ltb ret_alloc 0 && not (ret_alloc == 2 ^ 64 - 3000) || ret_alloc == 2 ^ 64 - 3000

-- vm_map_ram; the list of frames is empty, and the result of vmap_page_range is dropped.
pub vm_map_ram : Krnl → ℕ → ℕ → ℕ → ℤ → Region → ℕ × Krnl × Region
vm_map_ram krnl astart aend mapstart incpgnum ret_rg =
    if map_failed 0
    then (2 ^ 64 - 1, krnl, ret_rg)
    else (let (_, krnl', rg) = vmap_page_range krnl mapstart incpgnum end ret_rg in (0, krnl', rg))
