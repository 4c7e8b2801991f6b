-- ===== src/Alloc/Balance.antt =====
-- Addresses of the free list and of the symbol table, over __alloc and __free.
use hk252_co2017_nhom2_btl.Prelude.{
  Chain, List, [], arith, get_elem?, lt-length_of_get_elem?, of_list, ok, pos, set, some, success,
  to_int_small, true, ℕ, ◌+◌, ◌<◌, ◌^◌, ◌∷◌, ◌≡◌,
}
use hk252_co2017_nhom2_btl.Mm.{Region, Vma, Machine}
use hk252_co2017_nhom2_btl.Vma.Lookup.{get_vma_by_num-zero}
use hk252_co2017_nhom2_btl.FreeList.{unset, enlist_vm_freerg_list, get_symrg_byid}
use hk252_co2017_nhom2_btl.FreeList.Cover.{inside, has_room}
use hk252_co2017_nhom2_btl.FreeList.Serve.{get_free_vmrg_area-IsServed}
use hk252_co2017_nhom2_btl.Alloc.Ready.{
  IsReady, owners, cover-set, cleared, updated, updated-IsReady,
}
use hk252_co2017_nhom2_btl.Syscall.{Table}
use hk252_co2017_nhom2_btl.Alloc.{alloc, free, free_entry}

module _ (table : Table) (junk : ℕ → ℕ) (value pid : ℕ) where
  -- On a machine between two calls (IsReady) whose free list has a region long enough for a request
  -- of `size` < 2 ^ 31 bytes, __alloc for an entry `i` of the symbol table succeeds and leaves a
  -- machine between two calls, with the lock free; the entry holds a region of exactly that size,
  -- which starts at the address returned and ends below 2 ^ 63; and every address has as many
  -- owners, in the free list and the symbol table together, as before, but for those of the region
  -- that the entry held, which is lost.
  pub alloc-owners :
      (m : Machine) (v : Vma) (rest : Chain Vma) (free_list syms : List Region) (i size : ℕ)
      (old : Region)
      → IsReady m v rest free_list syms
      → get_elem? syms i ≡ some old
      → size < 2 ^ 31
      → has_room size free_list ≡ true
      → (m' : Machine) × (left : List Region) × (new : Region) × (alloc table junk value pid m
            (pos 0)
            (pos i)
            size
          ≡ ok (success, m', new.rg_start))
        × IsReady m' (record v { vm_freerg_list = of_list left }) rest left (set syms i new)
        × (new.rg_end ≡ new.rg_start + size)
        × (new.rg_end < 2 ^ 63)
        × ((x : ℕ) → owners left (set syms i new) x + inside old x ≡ owners free_list syms x)
  unfolding alloc
  alloc-owners m v rest free_list syms i size old ready e h room =
      let (left, new, runs, served) =
        get_free_vmrg_area-IsServed ready.mm (pos 0) 0 size v free_list unset
          (get_vma_by_num-zero ready.mm v rest ready.first_area ready.numbered)
          (ground (arith, ready.first_area)) ready.listed ready.tame h room in
      (
        updated m ready.mm v rest left (set syms i new),
        left,
        new,
        ground (
          arith,
          ready.unlocked,
          ready.at_mm,
          ready.first_area,
          ready.table,
          to_int_small size h,
          runs,
          lt-length_of_get_elem? syms i e,
        ),
        updated-IsReady ready left i new served.tame,
        served.exact,
        served.below,
        λ x. omega (arith, served.split x, cover-set syms i new x e),
      )

pub free-runs :
    (m : Machine) (v : Vma) (rest : Chain Vma) (free_list syms : List Region) (i : ℕ) (old : Region)
    (ready : IsReady m v rest free_list syms)
    → get_elem? syms i ≡ some old
    → old.rg_start < old.rg_end
    → free m (pos 0) (pos i)
      ≡ ok (success, updated m ready.mm v rest (old ∷ free_list) (set syms i cleared))
unfolding free free_entry enlist_vm_freerg_list get_symrg_byid
free-runs m v rest [] syms i old ready e p = ground (
  arith,
  ready.unlocked,
  ready.at_mm,
  ready.first_area,
  ready.table,
  ready.listed,
  ready.full_table,
  lt-length_of_get_elem? syms i e,
  e,
)
free-runs m v rest (f ∷ fs) syms i old ready e p = ground (
  arith,
  ready.unlocked,
  ready.at_mm,
  ready.first_area,
  ready.table,
  ready.listed,
  ready.full_table,
  lt-length_of_get_elem? syms i e,
  e,
)

-- On a machine between two calls, __free of an entry that holds a region of at least one byte that
-- ends below 2 ^ 63 succeeds and leaves a machine between two calls, with the region at the head of
-- the free list, the entry cleared and the lock free; every address has exactly as many owners as
-- before.
pub free-owners :
    (m : Machine) (v : Vma) (rest : Chain Vma) (free_list syms : List Region) (i : ℕ) (old : Region)
    → IsReady m v rest free_list syms
    → get_elem? syms i ≡ some old
    → old.rg_start < old.rg_end
    → old.rg_end < 2 ^ 63
    → (m' : Machine) × (free m (pos 0) (pos i) ≡ ok (success, m'))
      × IsReady m'
          (record v { vm_freerg_list = of_list (old ∷ free_list) })
          rest
          (old ∷ free_list)
          (set syms i cleared)
      × ((x : ℕ) → owners (old ∷ free_list) (set syms i cleared) x ≡ owners free_list syms x)
free-owners m v rest free_list syms i old ready e p q = (
  updated m ready.mm v rest (old ∷ free_list) (set syms i cleared),
  free-runs m v rest free_list syms i old ready e p,
  updated-IsReady ready (old ∷ free_list) i cleared (omega arith, q, ready.tame),
  λ x. ground (arith, cover-set syms i cleared x e),
)
