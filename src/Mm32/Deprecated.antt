-- ===== src/Mm32/Deprecated.antt =====
-- The functions of src/mm.c that print that they are deprecated and return 0, without touching their
-- arguments. The message is not modelled.
use hk252_co2017_nhom2_btl.Prelude.{Chain, List, Ptr, null, success, ℕ, ℤ}
use hk252_co2017_nhom2_btl.Memphy.{Memphy}
use hk252_co2017_nhom2_btl.Mm.{Region, Vma, Mm, Krnl}

-- The five indices that the caller passes in come back as they were.
get_pd_from_address : ℕ → List ℕ → ℤ × List ℕ
get_pd_from_address addr indices = (success, indices)

get_pd_from_pagenum : ℕ → List ℕ → ℤ × List ℕ
get_pd_from_pagenum pgn indices = (success, indices)

pte_get_entry : Krnl → ℕ → ℕ × Krnl
pte_get_entry krnl pgn = (0, krnl)

vmap_pgd_memset : Krnl → ℕ → ℤ → ℤ × Krnl
vmap_pgd_memset krnl addr pgnum = (success, krnl)

vmap_page_range : Krnl → ℕ → ℤ → Chain ℕ → Region → ℕ × Krnl × Region
vmap_page_range krnl addr pgnum frames ret_rg = (0, krnl, ret_rg)

alloc_pages_range : Krnl → ℤ → Chain ℕ → ℕ × Krnl × Chain ℕ
alloc_pages_range krnl req_pgnum frm_lst = (0, krnl, frm_lst)

vm_map_ram : Krnl → ℕ → ℕ → ℕ → ℤ → Region → ℕ × Krnl × Region
vm_map_ram krnl astart aend mapstart incpgnum ret_rg = (0, krnl, ret_rg)

swap_cp_page : Memphy → ℕ → Memphy → ℕ → ℤ × Memphy × Memphy
swap_cp_page mpsrc srcfpn mpdst dstfpn = (success, mpsrc, mpdst)

init_mm : Mm → ℤ × Mm
init_mm mm = (success, mm)

-- It returns NULL.
init_vm_rg : ℕ → ℕ → Ptr Region
init_vm_rg rg_start rg_end = null

enlist_vm_rg_node : Chain Region → Region → ℤ × Chain Region
enlist_vm_rg_node rglist rgnode = (success, rglist)

enlist_pgn_node : Chain ℕ → ℕ → ℤ × Chain ℕ
enlist_pgn_node plist pgn = (success, plist)

print_list_fp : Chain ℕ → ℤ
print_list_fp ifp = success

print_list_rg : Chain Region → ℤ
print_list_rg irg = success

print_list_vma : Chain Vma → ℤ
print_list_vma ivma = success

print_list_pgn : Chain ℕ → ℤ
print_list_pgn ip = success

print_pgtbl : Krnl → ℕ → ℕ → ℤ
print_pgtbl krnl start stop = success
