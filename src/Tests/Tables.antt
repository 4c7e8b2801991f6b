-- ===== src/Tests/Tables.antt =====
-- A table of 32-bit entries (src/mm.c).
use hk252_co2017_nhom2_btl.Prelude.{List, [], ℕ, ◌^◌, ◌∷◌, ◌≡◌}
use hk252_co2017_nhom2_btl.Pte
use hk252_co2017_nhom2_btl.Mm32
use hk252_co2017_nhom2_btl.Mm32.Words.{init_pte_same}

abbrev pgd : List ℕ
pgd = 0 ∷ 2 ^ 28 ∷ 0 ∷ []

init_pte_same_example : Mm32.init_pte 5 1 77 0 0 0 0 ≡ Pte.init_pte 5 1 77 0 0 0 0
init_pte_same_example = init_pte_same 5 1 77 0 0 0 0
