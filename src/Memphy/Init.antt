-- ===== src/Memphy/Init.antt =====
-- init_memphy: storage and free list, by the size of the device.
use hk252_co2017_nhom2_btl.Prelude.{
  List, [], ap, arith, count_up, count_up-pred, dangling, end, failure, fault, of_list, ok, pos,
  ptr, refl, replicate, suc, success, uninitialised, zero, ℕ, ◌%◌, ◌*◌, ◌++◌, ◌-◌, ◌/◌, ◌<◌, ◌^◌,
  ◌∙◌, ◌∷◌, ◌≡◌, ◌≤◌, ◌⊎◌,
}
use hk252_co2017_nhom2_btl.Memphy.{
  Memphy, init_memphy, format, get_freefp, paging_pagesz, read, write,
}
use hk252_co2017_nhom2_btl.Memphy.Storage.{sequential_refuses}
use hk252_co2017_nhom2_btl.Memphy.Frames.{
  fill_frames-count_up, Op, get, Reply, run, stack_run, run_refines, with_frames,
}

-- init_memphy of a device of two pages or more, and fewer than 2 ^ 31 bytes, succeeds with cleared
-- storage of that size and with every frame of it free, in ascending order and once each.
pub init_memphy-frames :
    (mp : Memphy) (size flag : ℕ)
    → 2 * paging_pagesz ≤ size
    → size < 2 ^ 31
    → ((init_memphy mp size flag).0 ≡ success)
      × ((init_memphy mp size flag).1.free_fp_list ≡ of_list (count_up 0 (size / paging_pagesz)))
      × ((init_memphy mp size flag).1.storage ≡ replicate size 0)
      × ((init_memphy mp size flag).1.maxsz ≡ pos size)
unfolding init_memphy format
init_memphy-frames mp size flag two fits = (ground arith, frames, ground arith, ground arith)
  where
    frames : (init_memphy mp size flag).1.free_fp_list ≡ of_list (count_up 0 (size / paging_pagesz))
    frames = ground (arith, fill_frames-count_up (size / 256 - 1) 1, count_up-pred (size / 256))

-- After init_memphy of a device of one whole page, the first request for a frame gets frame 0, and
-- the second follows a link that was never written.
init_memphy-one_page :
    (mp : Memphy) (size flag old : ℕ)
    → paging_pagesz ≤ size
    → size < 2 * paging_pagesz
    → (mp' : Memphy) × (get_freefp (init_memphy mp size flag).1 old ≡ ok (success, mp', 0))
      × (get_freefp mp' old ≡ fault uninitialised)
unfolding init_memphy format get_freefp
init_memphy-one_page mp size flag old one two =
    (record (init_memphy mp size flag).1 { free_fp_list = dangling }, ground arith, ground arith)

-- `maxsz` keeps the low 32 bits of the size, as a signed number. Where these are less than a page
-- or have the top bit set, as for 4 GiB, the device gets no frame list at all, and init_memphy
-- reports success.
init_memphy-truncated :
    (mp : Memphy) (size flag : ℕ)
    → (size % 2 ^ 32 < paging_pagesz) ⊎ (2 ^ 31 ≤ size % 2 ^ 32)
    → ((init_memphy mp size flag).0 ≡ success)
      × ((init_memphy mp size flag).1.free_fp_list ≡ mp.free_fp_list)
unfolding init_memphy format
init_memphy-truncated mp size flag h = (ground arith, ground arith)

-- `k` requests in a row.
abbrev pub gets : ℕ → List Op
gets k = replicate k (get 0)

abbrev pub handed : ℕ → ℕ → List Reply
handed start zero = []
handed start (suc k) = (success, start) ∷ handed (suc start) k

stack_run-gets :
    (k start : ℕ)
    → stack_run (count_up start k) (gets k ++ get 0 ∷ [])
      ≡ (handed start k ++ (failure, 0) ∷ [], [])
unfolding stack_run
stack_run-gets zero start = refl
stack_run-gets (suc k) start = rw (stack_run-gets k (suc start))

-- From a device that init_memphy set up with two pages or more, and fewer than 2 ^ 31 bytes, the
-- frames 0, 1, ... are handed out in order, each once, as many as the size has whole pages; the
-- request after the last one is refused.
pub init_memphy-exhausts :
    (mp : Memphy) (size flag : ℕ)
    → 2 * paging_pagesz ≤ size
    → size < 2 ^ 31
    → run (init_memphy mp size flag).1 (gets (size / paging_pagesz) ++ get 0 ∷ [])
      ≡ ok (
        handed 0 (size / paging_pagesz) ++ (failure, 0) ∷ [],
        with_frames (init_memphy mp size flag).1 end,
      )
init_memphy-exhausts mp size flag two fits =
    ap (λ frames. run (with_frames start frames) requests)
      (init_memphy-frames mp size flag two fits).1
    ∙ run_refines requests start (count_up 0 n)
    ∙ ap (λ (o : List Reply × List ℕ). ok (o.0, with_frames start (of_list o.1)))
        (stack_run-gets n 0)
  where
    n : ℕ
    n = size / paging_pagesz

    start : Memphy
    start = (init_memphy mp size flag).1

    requests : List Op
    requests = gets n ++ get 0 ∷ []

init_memphy-rdmflg : (mp : Memphy) (size : ℕ) → (init_memphy mp size 0).1.rdmflg ≡ 0
unfolding init_memphy format
init_memphy-rdmflg mp size = ground arith

-- A device that init_memphy set up for sequential access, of whatever size, refuses every read and
-- write, at every address, and stays as it is.
init_memphy-sequential :
    (mp : Memphy) (size addr v : ℕ)
    → let (_, mp') = init_memphy mp size 0 in
      (read (ptr mp') addr v ≡ ok (failure, ptr mp', v))
      × (write (ptr mp') addr v ≡ ok (failure, ptr mp'))
init_memphy-sequential mp size addr v =
    sequential_refuses (init_memphy mp size 0).1 addr v (init_memphy-rdmflg mp size)
