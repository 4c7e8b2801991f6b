-- ===== src/Alloc/Reuse.antt =====
-- __free followed by __alloc of the same size.
use hk252_co2017_nhom2_btl.Vma.Lookup.{get_vma_by_num-zero}
use hk252_co2017_nhom2_btl.FreeList.{unset}
use hk252_co2017_nhom2_btl.FreeList.Serve.{get_free_vmrg_area-first}
use hk252_co2017_nhom2_btl.Alloc.Ready.{cleared, updated, IsReady}
use hk252_co2017_nhom2_btl.Alloc.{unset, free, alloc}
use hk252_co2017_nhom2_btl.Syscall.{Table}
use hk252_co2017_nhom2_btl.Prelude.{
  Chain, List, arith, get_elem?, length-set, lt-length_of_get_elem?, node, of_list, ok, pos, refl,
  set, set-set_self, some, success, to_int_small, ℕ, ◌-◌, ◌<◌, ◌^◌, ◌∷◌, ◌≡◌,
}
use hk252_co2017_nhom2_btl.Mm.{Region, Vma, Machine}
use hk252_co2017_nhom2_btl.Alloc.Balance.{free-runs}

module _ (table : Table) (junk : ℕ → ℕ) (value pid : ℕ) where
  -- On a machine between two calls whose free list is not empty, freeing an entry that holds a
  -- region of 1 to 2 ^ 31 - 1 bytes, which ends below 2 ^ 63, and allocating the same size for it
  -- again gives back the machine as it was, with the region's address.
  pub free-alloc :
      (m : Machine) (v : Vma) (rest : Chain Vma) (f : Region) (fs syms : List Region) (i : ℕ)
      (r : Region)
      → IsReady m v rest (f ∷ fs) syms
      → get_elem? syms i ≡ some r
      → r.rg_start < r.rg_end
      → r.rg_end < 2 ^ 63
      → r.rg_end - r.rg_start < 2 ^ 31
      → (m' : Machine) × (free m (pos 0) (pos i) ≡ ok (success, m'))
        × (alloc table junk value pid m' (pos 0) (pos i) (r.rg_end - r.rg_start)
            ≡ ok (success, m, r.rg_start))
  unfolding alloc
  free-alloc m v rest f fs syms i r ready e p q h = (
    updated m ready.mm v rest (r ∷ f ∷ fs) (set syms i cleared),
    free-runs m v rest (f ∷ fs) syms i r ready e p,
    ground (
      arith,
      ready.unlocked,
      ready.at_mm,
      ready.first_area,
      ready.table,
      ready.listed,
      ready.full_table,
      lt-length_of_get_elem? syms i e,
      length-set syms i cleared,
      to_int_small (r.rg_end - r.rg_start) h,
      set-set_self syms i cleared e,
      get_free_vmrg_area-first
          (record ready.mm {
            mmap = node (record v { vm_freerg_list = of_list (r ∷ f ∷ fs) }) rest;
            symrgtbl = set syms i cleared;
          })
          (record v { vm_freerg_list = of_list (r ∷ f ∷ fs) }) rest r f fs unset refl
          (get_vma_by_num-zero _ _ rest refl ready.numbered) refl p q h,
    ),
  )
