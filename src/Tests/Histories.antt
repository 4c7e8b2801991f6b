-- ===== src/Tests/Histories.antt =====
-- A release and a request on a concrete machine (src/libmem.c).
use hk252_co2017_nhom2_btl.Prelude.{
  [], arith, end, ok, pos, refl, replicate, suc, success, zero, ℕ, ◌∷◌, ◌≡◌,
}
use mathlib.Core.Path.{subst}
use hk252_co2017_nhom2_btl.Mm.{Machine}
use hk252_co2017_nhom2_btl.FreeList.Cover.{cover, IsTame}
use hk252_co2017_nhom2_btl.Alloc.{alloc, free}
use hk252_co2017_nhom2_btl.Alloc.Ready.{updated}
use hk252_co2017_nhom2_btl.Alloc.Balance.{free-runs}
use hk252_co2017_nhom2_btl.Alloc.Reuse.{free-alloc}
use hk252_co2017_nhom2_btl.Alloc.Disjoint.{IsDisjoint}
use hk252_co2017_nhom2_btl.Alloc.History.{serve, release, stop, then_on, History-IsDisjoint}
use hk252_co2017_nhom2_btl.Tests.Machines.{
  held, free_regions, symbols, area, mm, machine, machine-IsReady, calls,
}

IsTame-zeros : (n : ℕ) → IsTame (replicate n (record { rg_start = 0; rg_end = 0 }))
IsTame-zeros zero = tt
IsTame-zeros (suc n) = (omega arith, omega arith, IsTame-zeros n)

cover_zeros : (n x : ℕ) → cover (replicate n (record { rg_start = 0; rg_end = 0 })) x ≡ 0
cover_zeros zero x = refl
cover_zeros (suc n) x = ground (arith, cover_zeros n x)

machine-IsDisjoint : IsDisjoint machine
machine-IsDisjoint = record {
  v = area;
  rest = end;
  free_list = free_regions;
  syms = symbols;
  ready = machine-IsReady;
  tame_syms = (omega arith, omega arith, IsTame-zeros 29);
  single = λ x. ground (arith, cover_zeros 29 x);
}

abbrev released : Machine
released =
    updated machine mm area end (held ∷ free_regions)
      (record { rg_start = 0; rg_end = 0 } ∷ replicate 29 (record { rg_start = 0; rg_end = 0 }))

release_held : free machine (pos 0) (pos 0) ≡ ok (success, released)
release_held =
    free-runs machine area end free_regions symbols 0 held machine-IsReady refl (omega arith)

serve_again : alloc calls (λ i. i) 0 1 released (pos 0) (pos 0) 16 ≡ ok (success, machine, 16)
serve_again =
    let (m', runs, again) =
      free-alloc calls (λ i. i) 0 1 machine area end (record { rg_start = 0; rg_end = 8 })
        (record { rg_start = 64; rg_end = 100 } ∷ []) symbols 0 held machine-IsReady refl
        (omega arith) (omega arith) (omega arith) in
    subst (λ m. alloc calls (λ i. i) 0 1 m (pos 0) (pos 0) 16 ≡ ok (success, machine, 16))
      (cc (runs, release_held)) again

History-IsDisjoint_example : IsDisjoint machine
History-IsDisjoint_example =
    History-IsDisjoint calls (λ i. i) 0 1
      (then_on (release 0 success (omega arith) release_held)
        (then_on (serve 0 16 16 (omega arith) (omega arith) refl serve_again) stop))
      machine-IsDisjoint
