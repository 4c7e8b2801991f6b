-- ===== src/Vma.antt =====
-- src/mm-vm.c and the list constructors of src/mm64.c: virtual memory areas and their regions.
pub mod Lookup
pub mod Overlap
use hk252_co2017_nhom2_btl.Prelude.{
  Bool, Chain, Outcome, Ptr, add64, dangling, deref, end, failure, false, fault, if◌then◌else◌, leb,
  ltb_ℤ, node, not, null, null_deref, ok, ptr, success, to_int, uninitialised, wild, ℕ, ℤ, ◌&&◌,
  ◌+◌, ◌==◌, ◌>>=◌, ◌>>◌,
}
use hk252_co2017_nhom2_btl.Memphy.{Memphy}
use hk252_co2017_nhom2_btl.Swap
use hk252_co2017_nhom2_btl.Mm.{Region, Vma, Mm, Krnl, vma_at}

-- The `while` of get_vma_by_num, at the node of position `i`: the link is followed and the next
-- node's `vm_id` read before the test for NULL.
pub find_vma : ℤ → Chain Vma → ℕ → Outcome (Ptr ℕ)
find_vma vmaid end i = fault null_deref
find_vma vmaid dangling i = fault uninitialised
find_vma vmaid (node v rest) i =
    let later = find_vma vmaid rest (i + 1) in
    if ltb_ℤ (to_int v.vm_id) vmaid then later else ok (ptr i)

unfoldable pub get_vma_by_num : Mm → ℤ → Outcome (Ptr ℕ)
get_vma_by_num mm vmaid = elim mm.mmap [
  | end ↦ ok null
  | dangling ↦ fault uninitialised
  | node v rest ↦ find_vma vmaid (node v rest) 0
]

-- __mm_swap_page; `junk` is what the byte buffer of the copy holds before each read.
pub mm_swap_page : (ℕ → ℕ) → Krnl → ℕ → ℕ → Outcome (ℤ × Krnl)
mm_swap_page junk krnl vicfpn swpfpn = do
  (_, mram, mswp) ← Swap.swap_cp_page junk krnl.mram vicfpn krnl.active_mswp swpfpn
  ok (success, record krnl { mram = mram; active_mswp = mswp })

-- A new node, with its link set to NULL.
pub get_vm_area_node_at_brk : Krnl → ℤ → ℕ → ℕ → Outcome Region
get_vm_area_node_at_brk krnl vmaid size alignedsz = do
  mm ← deref krnl.mm
  cur ← get_vma_by_num mm vmaid
  i ← deref cur
  vma ← vma_at mm.mmap i
  ok (record { rg_start = vma.sbrk; rg_end = add64 vma.sbrk size })

-- OVERLAP of include/mm.h
abbrev pub overlap : ℕ → ℕ → ℕ → ℕ → Bool
overlap x1 x2 y1 y2 = false

-- The `while` of validate_overlap_vm_area from position `j` on.
pub overlap_loop : Vma → ℕ → Chain Vma → ℕ → Outcome ℤ
overlap_loop cur i end j = ok success
overlap_loop cur i dangling j = fault uninitialised
overlap_loop cur i (node v rest) j =
    let later = overlap_loop cur i rest (j + 1) in
    if not (i == j) && overlap cur.vm_start cur.vm_end v.vm_start v.vm_end
    then ok failure
    else later

-- validate_overlap_vm_area after its test of the bounds.
pub validate_in : Mm → ℤ → Outcome ℤ
validate_in mm vmaid = elim mm.mmap [
  | end ↦ ok failure
  | dangling ↦ fault uninitialised
  | node v rest ↦ get_vma_by_num mm vmaid >>= λ cur. elim cur [
    | null ↦ ok failure
    | wild ↦ fault uninitialised
    | ptr i ↦ vma_at mm.mmap i >>= λ area. overlap_loop area i mm.mmap 0
  ]
]

pub validate_overlap_vm_area : Krnl → ℤ → ℕ → ℕ → Outcome ℤ
validate_overlap_vm_area krnl vmaid vmastart vmaend =
    if leb vmaend vmastart then ok failure else do mm ← deref krnl.mm; validate_in mm vmaid

-- inc_vma_limit
pub inc_vma_limit : Krnl → ℤ → ℕ → ℤ × Krnl
inc_vma_limit krnl vmaid inc_sz = (success, krnl)

pub init_vm_rg : ℕ → ℕ → Region
init_vm_rg rg_start rg_end = record { rg_start = rg_start; rg_end = rg_end }

pub enlist_vm_rg_node : Chain Region → Region → ℤ × Chain Region
enlist_vm_rg_node rglist rgnode = (success, node rgnode rglist)

unfoldable pub enlist_pgn_node : Chain ℕ → ℕ → ℤ × Chain ℕ
enlist_pgn_node plist pgn = (success, node pgn plist)

-- init_mm: `mm` is what malloc returned, and `freerg` the uninitialised list of the new area. The
-- area that it builds is the second result: no field of `mm` is set, and the area is dropped.
unfoldable pub init_mm : Mm → Chain Region → ℤ × Mm × Vma
init_mm mm freerg =
    let (_, list) = enlist_vm_rg_node freerg (init_vm_rg 0 0) in
    (success, mm, record { vm_id = 0; vm_start = 0; vm_end = 0; sbrk = 0; vm_freerg_list = list })
