-- ===== src/Tests/Regions.antt =====
-- Areas and free regions (src/mm-vm.c, get_free_vmrg_area).
use hk252_co2017_nhom2_btl.Prelude.{
  List, [], arith, end, fault, null, null_deref, of_list, ok, pos, ptr, refl, replicate, success, ℕ,
  ◌∷◌, ◌≡◌, ◌⊎◌,
}
use hk252_co2017_nhom2_btl.Mm.{Region, Vma, Mm, Krnl}
use hk252_co2017_nhom2_btl.Vma.{get_vma_by_num}
use hk252_co2017_nhom2_btl.Vma.Lookup.{
  AllBelow, get_vma_by_num-zero, IsFirst, get_vma_by_num-IsFirst,
}
use hk252_co2017_nhom2_btl.FreeList.{unset, get_free_vmrg_area}
use hk252_co2017_nhom2_btl.FreeList.Serve.{IsServed, set_list, get_free_vmrg_area-IsServed}

abbrev regions : List Region
regions = record { rg_start = 0; rg_end = 8 } ∷ record { rg_start = 64; rg_end = 100 } ∷ []

abbrev area : Vma
area = record {
  vm_id = 0;
  vm_start = 0;
  vm_end = 256;
  sbrk = 100;
  vm_freerg_list = of_list regions;
}

abbrev heap : Vma
heap = record area { vm_id = 4; vm_freerg_list = end }

abbrev mm : Mm
mm = record {
  pgd = null;
  mmap = of_list (area ∷ heap ∷ []);
  symrgtbl = replicate 30 (record { rg_start = 0; rg_end = 0 });
  fifo_pgn = end;
}

abbrev krnl : Krnl
krnl = record { mm = ptr mm; mram = null; active_mswp = null }

finds_area : get_vma_by_num mm (pos 0) ≡ ok (ptr 0)
finds_area = get_vma_by_num-zero mm area (of_list (heap ∷ [])) refl refl

get_free_vmrg_area-IsServed_example :
    (left : List Region) × (new : Region) × (get_free_vmrg_area mm (pos 0) (pos 16) unset
      ≡ ok (success, set_list mm 0 left, new))
    × IsServed 16 regions left new
get_free_vmrg_area-IsServed_example =
    get_free_vmrg_area-IsServed mm (pos 0) 0 16 area regions unset finds_area refl refl
      (omega arith, omega arith, (omega arith, omega arith, tt)) (omega arith) refl

get_vma_by_num-IsFirst_example :
    ((i : ℕ) × (get_vma_by_num mm (pos 2) ≡ ok (ptr i)) × IsFirst (pos 2) (area ∷ heap ∷ []) i)
    ⊎ ((get_vma_by_num mm (pos 2) ≡ fault null_deref) × AllBelow (pos 2) (area ∷ heap ∷ []))
get_vma_by_num-IsFirst_example = get_vma_by_num-IsFirst mm (pos 2) area (heap ∷ []) refl
