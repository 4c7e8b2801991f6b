-- ===== src/Vma/Overlap.antt =====
-- validate_overlap_vm_area, where OVERLAP is the constant 0 of include/mm.h.
use hk252_co2017_nhom2_btl.Prelude.{
  List, [], arith, failure, if◌then◌else◌, ltb, of_list, ok, ptr, refl, success, ℕ, ℤ, ◌+◌, ◌∷◌,
  ◌≡◌,
}
use hk252_co2017_nhom2_btl.Mm.{Vma, Mm, Krnl, vma_at}
use hk252_co2017_nhom2_btl.Vma.{overlap_loop, validate_in, validate_overlap_vm_area, get_vma_by_num}

overlap_loop-success :
    (cur : Vma) (i : ℕ) (vs : List Vma) (j : ℕ) → overlap_loop cur i (of_list vs) j ≡ ok success
unfolding overlap_loop
overlap_loop-success cur i [] j = refl
overlap_loop-success cur i (v ∷ vs) j = ground (arith, overlap_loop-success cur i vs (j + 1))

-- Where the area asked for exists in a list of areas that ends in NULL, validate_overlap_vm_area
-- accepts every range whose start is below its end, whatever areas it meets, and refuses every
-- other range.
validate_overlap_vm_area-accepts :
    (krnl : Krnl) (mm : Mm) (vmaid : ℤ) (vs : List Vma) (i : ℕ) (v : Vma) (vmastart vmaend : ℕ)
    → krnl.mm ≡ ptr mm
    → mm.mmap ≡ of_list vs
    → get_vma_by_num mm vmaid ≡ ok (ptr i)
    → vma_at (of_list vs) i ≡ ok v
    → validate_overlap_vm_area krnl vmaid vmastart vmaend
      ≡ ok (if ltb vmastart vmaend then success else failure)
unfolding validate_overlap_vm_area validate_in
validate_overlap_vm_area-accepts krnl mm vmaid [] i v vmastart vmaend e f g h = absurd (cc h)
validate_overlap_vm_area-accepts krnl mm vmaid (w ∷ ws) i v vmastart vmaend e f g h =
    ground (arith, overlap_loop-success v i (w ∷ ws) 0)
