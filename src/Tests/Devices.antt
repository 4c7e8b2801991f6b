-- ===== src/Tests/Devices.antt =====
-- A RAM device, a sequential one and swap devices (src/mm-memphy.c, __swap_cp_page).
use hk252_co2017_nhom2_btl.Prelude.{
  List, [], arith, end, failure, of_list, ok, pos, ptr, replicate, success, ℕ, ◌++◌, ◌∷◌, ◌≡◌, ◌≢◌,
}
use hk252_co2017_nhom2_btl.Memphy
use hk252_co2017_nhom2_btl.Memphy.{Memphy, paging_pagesz, mv_csr, init_memphy, get_freefp}
use hk252_co2017_nhom2_btl.Memphy.Storage.{reply, read-write}
use hk252_co2017_nhom2_btl.Memphy.Frames.{Op, get, put, run, stack_run, run_refines, with_frames}
use hk252_co2017_nhom2_btl.Memphy.Init.{gets, handed, init_memphy-exhausts}
use hk252_co2017_nhom2_btl.Swap.{swap_cp_page}
use hk252_co2017_nhom2_btl.Swap.Copy.{IsCopied, HasPage, swap_cp_page-IsCopied}

abbrev ram : Memphy
ram = record {
  storage = 7 ∷ 8 ∷ 9 ∷ [];
  maxsz = pos 3;
  rdmflg = 1;
  cursor = 0;
  free_fp_list = of_list (4 ∷ 6 ∷ []);
  used_fp_list = end;
}

read-write_example :
    (mp' : Memphy) × (Memphy.write (ptr ram) 1 5 ≡ ok (success, ptr mp'))
    × ((old : ℕ) → reply (Memphy.read (ptr mp') 1 old) ≡ ok (success, 5))
    × ((j old : ℕ)
        → 1 ≢ j
        → reply (Memphy.read (ptr mp') j old) ≡ reply (Memphy.read (ptr ram) j old))
read-write_example = read-write ram 1 5 (omega arith) (omega arith)

abbrev calls : List Op
calls = get 0 ∷ put 9 ∷ get 0 ∷ get 0 ∷ get 1 ∷ []

run_refines_example :
    run (with_frames ram (of_list (4 ∷ 6 ∷ []))) calls
    ≡ ok (
      (success, 4) ∷ (success, 9) ∷ (success, 9) ∷ (success, 6) ∷ (failure, 1) ∷ [],
      with_frames ram end,
    )
unfolding stack_run
run_refines_example = run_refines calls ram (4 ∷ 6 ∷ [])

init_memphy-exhausts_example :
    run (init_memphy ram 512 1).1 (gets 2 ++ get 0 ∷ [])
    ≡ ok (handed 0 2 ++ (failure, 0) ∷ [], with_frames (init_memphy ram 512 1).1 end)
init_memphy-exhausts_example = init_memphy-exhausts ram 512 1 (omega arith) (omega arith)

abbrev swap : Memphy
swap = record ram { storage = replicate 512 7 }

swap-HasPage : HasPage swap 1
swap-HasPage = record { random = omega arith; fits = omega arith; small = omega arith }

abbrev cleared_swap : Memphy
cleared_swap = record ram { storage = replicate 512 0 }

cleared_swap-HasPage : HasPage cleared_swap 0
cleared_swap-HasPage = record { random = omega arith; fits = omega arith; small = omega arith }

swap_cp_page-IsCopied_example :
    (out : List ℕ) × (swap_cp_page (λ i. i) (ptr swap) 1 (ptr cleared_swap) 0
      ≡ ok (success, ptr swap, ptr (record cleared_swap { storage = out })))
    × IsCopied 0 1 0 swap.storage cleared_swap.storage out
swap_cp_page-IsCopied_example =
    swap_cp_page-IsCopied (λ i. i) swap cleared_swap 1 0 swap-HasPage cleared_swap-HasPage
