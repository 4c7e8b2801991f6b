-- ===== src/FreeList/Cover.antt =====
-- Which addresses a list of regions covers, and how often.
use hk252_co2017_nhom2_btl.Prelude.{
  Bool, List, [], false, if◌then◌else◌, leb, ltb, ℕ, ◌&&◌, ◌+◌, ◌<◌, ◌^◌, ◌||◌, ◌∷◌, ◌≤◌,
}
use hk252_co2017_nhom2_btl.Mm.{Region}

-- 1 for an address of the region, 0 for another.
abbrev pub inside : Region → ℕ → ℕ
inside r x = if leb r.rg_start x && ltb x r.rg_end then 1 else 0

abbrev pub cover : List Region → ℕ → ℕ
cover [] x = 0
cover (r ∷ rs) x = inside r x + cover rs x

-- Regions of an address space below 2 ^ 63, where adding a size of type `int` does not wrap.
abbrev pub IsTame : List Region → Type 0
IsTame [] = Unit
IsTame (r ∷ rs) = (r.rg_start ≤ r.rg_end) × (r.rg_end < 2 ^ 63) × IsTame rs

-- Some region is long enough.
abbrev pub has_room : ℕ → List Region → Bool
has_room size [] = false
has_room size (r ∷ rs) = leb (r.rg_start + size) r.rg_end || has_room size rs
