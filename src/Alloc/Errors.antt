-- ===== src/Alloc/Errors.antt =====
-- The error paths of `__free` and the bound of the symbol table.
use hk252_co2017_nhom2_btl.Alloc.{paging_max_symtbl_sz, free_entry, free}
use hk252_co2017_nhom2_btl.Alloc.Ready.{cleared, IsReady}
use hk252_co2017_nhom2_btl.Prelude.{
  Chain, List, arith, failure, fault, get_elem?, get_elem?-set_self, get_elem?_past, inl, inr,
  lt-length_of_get_elem?, ltb_ℤ, ok, out_of_bounds, pos, refl, set, some, success, true, ℕ, ℤ, ◌<◌,
  ◌^◌, ◌∷◌, ◌≡◌, ◌⊎◌,
}
use hk252_co2017_nhom2_btl.Mm.{paging_max_symtbl_sz, Region, Vma, Machine}
use hk252_co2017_nhom2_btl.FreeList.{get_symrg_byid}
use hk252_co2017_nhom2_btl.Alloc.Balance.{free-owners}

-- On a machine between two calls, __free of an entry number that is negative or above the table's
-- size, and of an entry that is cleared, fails, and the machine is as before.
pub free-refuses :
    (m : Machine) (v : Vma) (rest : Chain Vma) (free_list syms : List Region) (rgid : ℤ)
    → IsReady m v rest free_list syms
    → (ltb_ℤ rgid (pos 0) ≡ true)
      ⊎ (ltb_ℤ (pos paging_max_symtbl_sz) rgid ≡ true)
      ⊎ ((i : ℕ) × (rgid ≡ pos i) × (get_elem? syms i ≡ some cleared))
    → free m (pos 0) rgid ≡ ok (failure, m)
unfolding free free_entry get_symrg_byid
free-refuses m v rest fl syms rgid ready h = elim h [
  | inl low ↦ ground (arith, ready.unlocked, low)
  | inr (inl high) ↦ ground (arith, ready.unlocked, high)
  | inr (inr (i, e, g)) ↦ ground (
    arith,
    ready.unlocked,
    ready.at_mm,
    ready.table,
    ready.full_table,
    lt-length_of_get_elem? syms i g,
    e,
    g,
  )
]

-- On a machine between two calls, __free of entry PAGING_MAX_SYMTBL_SZ, one past the last, reads
-- outside the symbol table.
free-past_end :
    (m : Machine) (v : Vma) (rest : Chain Vma) (free_list syms : List Region)
    → IsReady m v rest free_list syms
    → free m (pos 0) (pos paging_max_symtbl_sz) ≡ fault out_of_bounds
unfolding free free_entry get_symrg_byid
free-past_end m v rest fl syms ready =
    ground
      (arith, ready.unlocked, ready.at_mm, ready.table, ready.full_table, get_elem?_past syms 30)

-- On a machine between two calls, __free of an entry that holds a region of at least one byte that
-- ends below 2 ^ 63 succeeds, and a second one of the same entry fails and changes nothing.
pub free-twice :
    (m : Machine) (v : Vma) (rest : Chain Vma) (free_list syms : List Region) (i : ℕ) (old : Region)
    → IsReady m v rest free_list syms
    → get_elem? syms i ≡ some old
    → old.rg_start < old.rg_end
    → old.rg_end < 2 ^ 63
    → (m' : Machine) × (free m (pos 0) (pos i) ≡ ok (success, m'))
      × (free m' (pos 0) (pos i) ≡ ok (failure, m'))
free-twice m v rest fl syms i old ready e p q =
    let (m', runs, ready', _) = free-owners m v rest fl syms i old ready e p q in
    (
      m',
      runs,
      free-refuses m' _ rest (old ∷ fl) (set syms i cleared) (pos i) ready' (
          inr (inr (i, refl, get_elem?-set_self syms i cleared (lt-length_of_get_elem? syms i e)))),
    )
