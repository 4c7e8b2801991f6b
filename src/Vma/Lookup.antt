-- ===== src/Vma/Lookup.antt =====
-- get_vma_by_num on a list of areas that ends in NULL.
use hk252_co2017_nhom2_btl.Prelude.{
  Bool, Bool-cases, Chain, List, [], ap, arith, false, fault, get_elem?, inl, inr, ltb_ℤ, node,
  null_deref, of_list, ok, pos, ptr, refl, some, suc, to_int, true, uninitialised, wild, zero, ℕ, ℤ,
  ◌+◌, ◌<◌, ◌∷◌, ◌≡◌, ◌⊎◌,
}
use mathlib.Core.Path.{subst}
use mathlib.Core.Option
use hk252_co2017_nhom2_btl.Mm.{Vma, Mm, Krnl}
use hk252_co2017_nhom2_btl.Swap.Copy.{swap_cp_page-wild}
use hk252_co2017_nhom2_btl.Vma.{find_vma, get_vma_by_num, mm_swap_page}

abbrev pub is_below : ℤ → Vma → Bool
is_below vmaid v = ltb_ℤ (to_int v.vm_id) vmaid

-- Position `i` of `vs` holds the first area that is not below `vmaid`.
pub record IsFirst (vmaid : ℤ) (vs : List Vma) (i : ℕ) : Type 0 where
  pub found : Vma
  pub there : get_elem? vs i ≡ some found
  pub reached : is_below vmaid found ≡ false
  pub earlier : (j : ℕ) (v : Vma) → j < i → get_elem? vs j ≡ some v → is_below vmaid v ≡ true

abbrev pub AllBelow : ℤ → List Vma → Type 0
AllBelow vmaid vs = (j : ℕ) (v : Vma) → get_elem? vs j ≡ some v → is_below vmaid v ≡ true

same_below :
    (vmaid : ℤ) (v w : Vma) → some v ≡ some w → is_below vmaid v ≡ true → is_below vmaid w ≡ true
same_below vmaid v w e b = subst (λ u. is_below vmaid u ≡ true) (ap (λ o. Option.get_or o v) e) b

IsFirst-cons :
    (vmaid : ℤ) (v : Vma) (vs : List Vma) (i : ℕ)
    → is_below vmaid v ≡ true
    → IsFirst vmaid vs i
    → IsFirst vmaid (v ∷ vs) (suc i)
IsFirst-cons vmaid v vs i b f = record {
  found = f.found;
  there = f.there;
  reached = f.reached;
  earlier = before;
}
  where
    before : (j : ℕ) (w : Vma) → j < suc i → get_elem? (v ∷ vs) j ≡ some w → is_below vmaid w ≡ true
    before zero w p e = same_below vmaid v w e b
    before (suc j) w p e = f.earlier j w (omega arith) e

AllBelow-cons :
    (vmaid : ℤ) (v : Vma) (vs : List Vma)
    → is_below vmaid v ≡ true
    → AllBelow vmaid vs
    → AllBelow vmaid (v ∷ vs)
AllBelow-cons vmaid v vs b all zero w e = same_below vmaid v w e b
AllBelow-cons vmaid v vs b all (suc j) w e = all j w e

find_vma_lem :
    (vmaid : ℤ) (vs : List Vma) (k : ℕ)
    → ((i : ℕ) × (find_vma vmaid (of_list vs) k ≡ ok (ptr (k + i))) × IsFirst vmaid vs i)
      ⊎ ((find_vma vmaid (of_list vs) k ≡ fault null_deref) × AllBelow vmaid vs)
unfolding find_vma
find_vma_lem vmaid [] k = inr (refl, λ j v e. absurd (cc e))
find_vma_lem vmaid (v ∷ vs) k = elim (Bool-cases (is_below vmaid v)) [
  | inl b ↦ elim (find_vma_lem vmaid vs (k + 1)) [
    | inl (i, runs, first) ↦ inl (suc i, ground (arith, b, runs), IsFirst-cons vmaid v vs i b first)
    | inr (runs, all) ↦ inr (ground (arith, b, runs), AllBelow-cons vmaid v vs b all)
  ]
  | inr b ↦ inl (
    0,
    ground (arith, b),
    record { found = v; there = refl; reached = b; earlier = λ j w p e. absurd (omega arith) },
  )
]

-- On a list of areas that is not empty and ends in NULL, get_vma_by_num yields the first area whose
-- number is not below the one asked for; where the numbers of all are below it, the call reads
-- through the NULL at the end of the list.
pub get_vma_by_num-IsFirst :
    (mm : Mm) (vmaid : ℤ) (v : Vma) (vs : List Vma)
    → mm.mmap ≡ of_list (v ∷ vs)
    → ((i : ℕ) × (get_vma_by_num mm vmaid ≡ ok (ptr i)) × IsFirst vmaid (v ∷ vs) i)
      ⊎ ((get_vma_by_num mm vmaid ≡ fault null_deref) × AllBelow vmaid (v ∷ vs))
unfolding get_vma_by_num
get_vma_by_num-IsFirst mm vmaid v vs e = elim (find_vma_lem vmaid (v ∷ vs) 0) [
  | inl (i, runs, first) ↦ inl (i, ground (arith, runs), first)
  | inr (runs, all) ↦ inr (ground (arith, runs), all)
]

pub get_vma_by_num-zero :
    (mm : Mm) (v : Vma) (rest : Chain Vma)
    → mm.mmap ≡ node v rest
    → v.vm_id ≡ 0
    → get_vma_by_num mm (pos 0) ≡ ok (ptr 0)
unfolding get_vma_by_num find_vma
get_vma_by_num-zero mm v rest e f = ground (arith, e, f)

pub mm_swap_page-wild :
    (junk : ℕ → ℕ) (krnl : Krnl) (vicfpn swpfpn : ℕ)
    → krnl.mram ≡ wild
    → mm_swap_page junk krnl vicfpn swpfpn ≡ fault uninitialised
unfolding mm_swap_page
mm_swap_page-wild junk krnl vicfpn swpfpn e =
    ground (arith, swap_cp_page-wild junk vicfpn swpfpn krnl.active_mswp)
