-- ===== src/Paging/Fault.antt =====
-- pg_getpage on a swap device with some free frames.
use hk252_co2017_nhom2_btl.Pte.{paging_fpn, page_present}
use hk252_co2017_nhom2_btl.Vma.{enlist_pgn_node}
use hk252_co2017_nhom2_btl.Prelude.{
  List, Outcome, [], arith, end, failure, if◌then◌else◌, is_failure, length, of_list, ok, ptr, refl,
  replicate, success, ℕ, ℤ, ◌++◌, ◌>>=◌, ◌∷◌, ◌≡◌,
}
use hk252_co2017_nhom2_btl.Mm.{Mm, Krnl}
use hk252_co2017_nhom2_btl.Memphy.{Memphy}
use hk252_co2017_nhom2_btl.Memphy.Frames.{with_frames, get_freefp-node, get_freefp-end}
use hk252_co2017_nhom2_btl.Paging.{
  paging_fpn, page_present, enlist_pgn_node, pte_get_entry, page_fault, pg_getpage,
}
use hk252_co2017_nhom2_btl.Paging.Fifo.{init_of, find_victim_page-two}

-- The kernel with the pages `fifo` in use and the frames `frames` free on the swap device.
abbrev pub with_pages : Krnl → Mm → Memphy → List ℕ → List ℕ → Krnl
with_pages krnl mm mswp fifo frames = record krnl {
  mm = ptr (record mm { fifo_pgn = of_list fifo });
  active_mswp = ptr (with_frames mswp (of_list frames));
}

module _ (vic swp : ℕ) (krnl : Krnl) (mm : Mm) (mswp : Memphy) where
  pg_getpage-served :
      (p q : ℕ) (ps frames : List ℕ) (f pgn fpn : ℕ)
      → pg_getpage vic swp (with_pages krnl mm mswp (p ∷ q ∷ ps) (f ∷ frames)) pgn fpn
        ≡ ok (success, with_pages krnl mm mswp (pgn ∷ p ∷ init_of q ps) frames, 0)
  unfolding pg_getpage page_fault enlist_pgn_node pte_get_entry page_present paging_fpn
  pg_getpage-served p q ps frames f pgn fpn = ground (
    arith,
    find_victim_page-two (record mm { fifo_pgn = of_list (p ∷ q ∷ ps) }) p q vic ps refl,
    get_freefp-node mswp f swp (of_list frames),
  )

  pg_getpage-refused :
      (p q : ℕ) (ps : List ℕ) (pgn fpn : ℕ)
      → pg_getpage vic swp (with_pages krnl mm mswp (p ∷ q ∷ ps) []) pgn fpn
        ≡ ok (failure, with_pages krnl mm mswp (p ∷ init_of q ps) [], fpn)
  unfolding pg_getpage page_fault pte_get_entry page_present
  pg_getpage-refused p q ps pgn fpn = ground (
    arith,
    find_victim_page-two (record mm { fifo_pgn = of_list (p ∷ q ∷ ps) }) p q vic ps refl,
    get_freefp-end mswp swp,
  )

  -- A sequence of page accesses, up to the first that fails: the frames, and the kernel. `old` is
  -- what the variable for the frame holds before each access, which a caller does not initialise.
  pub get_pages : ℕ → Krnl → List ℕ → Outcome (ℤ × List ℕ × Krnl)
  get_pages old k [] = ok (success, [], k)
  get_pages old k (pgn ∷ pgns) = do
    (status, k', fpn) ← pg_getpage vic swp k pgn old
    if is_failure status
        then ok (failure, [], k')
        else do (last, fpns, k'') ← get_pages old k' pgns; ok (last, fpn ∷ fpns, k'')

  -- With two pages or more in use, pg_getpage succeeds exactly as often in a row as the swap device
  -- has free frames, to whatever pages, the same one again included, each time with frame 0,
  -- whatever the caller's variable held before; the access after them fails. The swap device has no
  -- free frame then, and RAM is as before.
  pub get_pages-exhausts :
      (old p q : ℕ) (ps frames pgns : List ℕ) (last : ℕ)
      → length pgns ≡ length frames
      → (k : Krnl) × (get_pages old
            (with_pages krnl mm mswp (p ∷ q ∷ ps) frames)
            (pgns ++ last ∷ [])
          ≡ ok (failure, replicate (length frames) 0, k))
        × (k.active_mswp ≡ ptr (with_frames mswp end))
        × (k.mram ≡ krnl.mram)
  unfolding get_pages
  get_pages-exhausts old p q ps [] [] last e = (
    with_pages krnl mm mswp (p ∷ init_of q ps) [],
    rw (pg_getpage-refused p q ps last old),
    refl,
    refl,
  )
  get_pages-exhausts old p q ps [] (pgn ∷ pgns) last e = absurd (omega arith)
  get_pages-exhausts old p q ps (f ∷ frames) [] last e = absurd (omega arith)
  get_pages-exhausts old p q ps (f ∷ frames) (pgn ∷ pgns) last e =
      let (k, runs, swap, ram) =
        get_pages-exhausts old pgn p (init_of q ps) frames pgns last (omega arith) in
      (k, ground (arith, pg_getpage-served p q ps frames f pgn old, runs), swap, ram)
