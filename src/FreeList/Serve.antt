-- ===== src/FreeList/Serve.antt =====
-- First fit: what get_free_vmrg_area takes out of the free addresses.
use hk252_co2017_nhom2_btl.Prelude.{
  Chain, List, [], arith, dec_lt, failure, false, node, of_list, ok, pos, ptr, refl, success, true,
  ℕ, ℕ_discrete, ℤ, ◌+◌, ◌-◌, ◌<◌, ◌^◌, ◌∷◌, ◌≡◌,
}
use hk252_co2017_nhom2_btl.Mm.{Region, Vma, Mm, vma_at, set_freerg, set_freerg_self}
use hk252_co2017_nhom2_btl.Vma.{get_vma_by_num}
use hk252_co2017_nhom2_btl.FreeList.{unset, remove_region, scan, serve_from, get_free_vmrg_area}
use hk252_co2017_nhom2_btl.FreeList.Cover.{inside, cover, IsTame, has_room}

-- `size` bytes were taken from `rs`, leaving `left`: the free addresses split, and each address of
-- the new region was free.
pub record IsServed (size : ℕ) (rs left : List Region) (new : Region) : Type 0 where
  pub exact : new.rg_end ≡ new.rg_start + size
  pub split : (x : ℕ) → cover rs x ≡ inside new x + cover left x
  pub tame : IsTame left
  pub below : new.rg_end < 2 ^ 63

-- What the search leaves and yields.
abbrev Found : ℕ → List Region → Type 0
Found size rs =
    (left : List Region) × (new : Region) × (scan size (of_list rs) unset ≡ ok (of_list left, new))
    × IsServed size rs left new

module _ (size : ℕ) (h : size < 2 ^ 31) (r : Region) (rs : List Region) (t : IsTame (r ∷ rs)) where
  -- The region is longer than the request: its front is cut off.
  Found-front : r.rg_start + size < r.rg_end → Found size (r ∷ rs)
  unfolding scan
  Found-front p = (
    record r { rg_start = r.rg_start + size } ∷ rs,
    record { rg_start = r.rg_start; rg_end = r.rg_start + size },
    ground arith,
    record {
      exact = refl;
      split = λ x. ground arith;
      tame = (omega arith, omega arith, t.2);
      below = omega arith;
    },
  )

  -- It is too short: the search goes on.
  Found-later : r.rg_end < r.rg_start + size → Found size rs → Found size (r ∷ rs)
  unfolding scan
  Found-later p (left, new, runs, served) = (
    r ∷ left,
    new,
    ground (arith, runs),
    record {
      exact = served.exact;
      split = λ x. omega (arith, served.split x);
      tame = (t.0, t.1, served.tame);
      below = served.below;
    },
  )

-- It is as long as the request, and goes.
Found-whole :
    (size : ℕ) (h : size < 2 ^ 31) (r : Region) (rs : List Region) (t : IsTame (r ∷ rs))
    → r.rg_start + size ≡ r.rg_end
    → Found size (r ∷ rs)
unfolding scan remove_region
Found-whole size h r [] t p = (
  record r { rg_start = r.rg_end } ∷ [],
  record { rg_start = r.rg_start; rg_end = r.rg_start + size },
  ground arith,
  record {
    exact = refl;
    split = λ x. ground arith;
    tame = (omega arith, omega arith, tt);
    below = omega arith;
  },
)
Found-whole size h r (n ∷ rs) t p = (
  n ∷ rs,
  record { rg_start = r.rg_start; rg_end = r.rg_start + size },
  ground arith,
  record { exact = refl; split = λ x. ground arith; tame = t.2; below = omega arith },
)

scan-served :
    (size : ℕ) (rs : List Region)
    → size < 2 ^ 31
    → IsTame rs
    → has_room size rs ≡ true
    → Found size rs
scan-served size [] h t e = absurd (cc e)
scan-served size (r ∷ rs) h t e = elim (dec_lt (r.rg_start + size) r.rg_end) [
  | yes p ↦ Found-front size h r rs t p
  | no p ↦ elim (ℕ_discrete (r.rg_start + size) r.rg_end) [
    | yes q ↦ Found-whole size h r rs t q
    | no q ↦ Found-later size h r rs t (omega arith) (scan-served size rs h t.2 (ground arith))
  ]
]

scan-full :
    (size : ℕ) (rs : List Region)
    → size < 2 ^ 31
    → IsTame rs
    → has_room size rs ≡ false
    → scan size (of_list rs) unset ≡ ok (of_list rs, unset)
unfolding scan
scan-full size [] h t e = refl
scan-full size (r ∷ rs) h t e = ground (arith, scan-full size rs h t.2)

abbrev pub set_list : Mm → ℕ → List Region → Mm
set_list mm i rs = record mm { mmap = set_freerg mm.mmap i (of_list rs) }

-- Where the area has a free list of regions below 2 ^ 63 and one of them is long enough for a
-- request of `size` < 2 ^ 31 bytes, get_free_vmrg_area succeeds with a region of exactly that size:
-- for every address, the regions that covered it before are as many as the new region and the
-- remaining free regions that cover it.
pub get_free_vmrg_area-IsServed :
    (mm : Mm) (vmaid : ℤ) (i size : ℕ) (v : Vma) (rs : List Region) (old : Region)
    → get_vma_by_num mm vmaid ≡ ok (ptr i)
    → vma_at mm.mmap i ≡ ok v
    → v.vm_freerg_list ≡ of_list rs
    → IsTame rs
    → size < 2 ^ 31
    → has_room size rs ≡ true
    → (left : List Region) × (new : Region) × (get_free_vmrg_area mm vmaid (pos size) old
        ≡ ok (success, set_list mm i left, new))
      × IsServed size rs left new
unfolding get_free_vmrg_area serve_from
get_free_vmrg_area-IsServed mm vmaid i size v [] old e f g t h room = absurd (cc room)
get_free_vmrg_area-IsServed mm vmaid i size v (r ∷ rs) old e f g t h room =
    let (left, new, runs, served) = scan-served size (r ∷ rs) h t room in
    (left, new, ground (arith, e, f, g, runs, served.exact, served.below), served)

-- Where the area has a free list of regions below 2 ^ 63 and none of them is long enough for a
-- request of `size` < 2 ^ 31 bytes, get_free_vmrg_area fails and changes nothing of the memory map.
pub get_free_vmrg_area-full :
    (mm : Mm) (vmaid : ℤ) (i size : ℕ) (v : Vma) (rs : List Region) (old : Region)
    → get_vma_by_num mm vmaid ≡ ok (ptr i)
    → vma_at mm.mmap i ≡ ok v
    → v.vm_freerg_list ≡ of_list rs
    → IsTame rs
    → size < 2 ^ 31
    → has_room size rs ≡ false
    → (new : Region) × (get_free_vmrg_area mm vmaid (pos size) old ≡ ok (failure, mm, new))
unfolding get_free_vmrg_area serve_from
get_free_vmrg_area-full mm vmaid i size v [] old e f g t h room = (old, ground (arith, e, f, g))
get_free_vmrg_area-full mm vmaid i size v (r ∷ rs) old e f g t h room =
    (unset, ground (arith, e, f, g, scan-full size (r ∷ rs) h t room, set_freerg_self mm.mmap i v))

-- A request for the size of the first region gets that region, and the second one is first then.
pub get_free_vmrg_area-first :
    (mm : Mm) (v : Vma) (rest : Chain Vma) (r f : Region) (fs : List Region) (old : Region)
    → mm.mmap ≡ node v rest
    → get_vma_by_num mm (pos 0) ≡ ok (ptr 0)
    → v.vm_freerg_list ≡ of_list (r ∷ f ∷ fs)
    → r.rg_start < r.rg_end
    → r.rg_end < 2 ^ 63
    → r.rg_end - r.rg_start < 2 ^ 31
    → get_free_vmrg_area mm (pos 0) (pos (r.rg_end - r.rg_start)) old
      ≡ ok (success, set_list mm 0 (f ∷ fs), r)
unfolding get_free_vmrg_area serve_from scan remove_region
get_free_vmrg_area-first mm v rest r f fs old e z l p q h = ground arith
