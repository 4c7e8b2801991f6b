-- ===== src/Mm32.antt =====
-- src/mm.c, for the build without MM64, where an `addr_t` has 32 bits and `pgd` is an array of
-- words: the entries of that table. `mm` of the kernel is taken to be valid. Mm32/Deprecated has the
-- functions of the file that only print an error and return 0.
pub mod Words
pub mod Tables
pub mod Deprecated
use hk252_co2017_nhom2_btl.Prelude.{
  List, Outcome, Ptr, bit_and, bit_or, deref, failure, fault, get_elem?, if◌then◌else◌, none, ok,
  out_of_bounds, set, some, success, ℕ, ℤ, ◌%◌, ◌*◌, ◌==◌, ◌>>=◌, ◌>>◌, ◌^◌,
}
use hk252_co2017_nhom2_btl.Pte.{
  not32, setbit, clrbit, pte_present_mask, pte_swapped_mask, pte_dirty_mask, pte_fpn_mask,
  pte_swptyp_mask, pte_swpoff_mask,
}

-- SETVAL, where the value is shifted in 32 bits
abbrev pub setval : ℕ → ℕ → ℕ → ℕ → ℕ
setval v value mask offst =
    bit_or (bit_and v (not32 mask)) (bit_and (value * 2 ^ offst % 2 ^ 32) mask)

pub init_pte : ℕ → ℕ → ℕ → ℕ → ℕ → ℕ → ℕ → ℤ × ℕ
init_pte pte pre fpn drt swp swptyp swpoff =
    if pre == 0
    then (success, pte)
    else if swp == 0
    then (if fpn == 0 then (failure, pte) else (
      success,
      setval (clrbit (clrbit (setbit pte pte_present_mask) pte_swapped_mask) pte_dirty_mask) fpn
          pte_fpn_mask 0,
    ))
    else (
      success,
      setval
          (setval (clrbit (setbit (setbit pte pte_present_mask) pte_swapped_mask) pte_dirty_mask)
            swptyp pte_swptyp_mask 0)
          swpoff pte_swpoff_mask 5,
    )

-- The access `krnl->mm->pgd[pgn]`
abbrev pub entry_of : Ptr (List ℕ) → ℕ → Outcome (ℕ × List ℕ)
entry_of p pgn = do
  pgd ← deref p
  elim (get_elem? pgd pgn) [ none ↦ fault out_of_bounds | some pte ↦ ok (pte, pgd) ]

pub pte_set_swap : Ptr (List ℕ) → ℕ → ℕ → ℕ → Outcome (ℤ × List ℕ)
pte_set_swap p pgn swptyp swpoff = do
  (pte, pgd) ← entry_of p pgn
  let flagged = setbit (setbit pte pte_present_mask) pte_swapped_mask
  let typed = setval flagged swptyp pte_swptyp_mask 0
  ok (success, set pgd pgn (setval typed swpoff pte_swpoff_mask 5))

pub pte_set_fpn : Ptr (List ℕ) → ℕ → ℕ → Outcome (ℤ × List ℕ)
pte_set_fpn p pgn fpn = do
  (pte, pgd) ← entry_of p pgn
  let flagged = clrbit (setbit pte pte_present_mask) pte_swapped_mask
  ok (success, set pgd pgn (setval flagged fpn pte_fpn_mask 0))

pub pte_set_entry : Ptr (List ℕ) → ℕ → ℕ → Outcome (ℤ × List ℕ)
pte_set_entry p pgn pte_val = do (pte, pgd) ← entry_of p pgn; ok (success, set pgd pgn pte_val)
