-- ===== src/Paging/Release.antt =====
-- free_pcb_memph: which frames go back to which device.
use hk252_co2017_nhom2_btl.Pte.{paging_fpn, paging_swp, page_present}
use hk252_co2017_nhom2_btl.Prelude.{
  Bool-cases, List, [], ap, arith, false, get_elem?, if◌then◌else◌, inl, inr, length, of_list, ok,
  ptr, refl, some, suc, success, sym, true, ℕ, ◌%◌, ◌+◌, ◌<◌, ◌==◌, ◌^◌, ◌∙◌, ◌∷◌, ◌≡◌,
}
use hk252_co2017_nhom2_btl.Mm.{Mm, Machine}
use hk252_co2017_nhom2_btl.Memphy.{put_freefp, Memphy}
use hk252_co2017_nhom2_btl.Memphy.Frames.{with_frames}
use hk252_co2017_nhom2_btl.Paging.{
  paging_swp, paging_fpn, page_present, free_page, free_loop, free_pcb_memph, paging_max_pgn,
}

-- The frames of the entries that are marked present, and of the others, last entry first, in front
-- of `frames`.
pub to_ram : List ℕ → List ℕ → List ℕ
to_ram [] frames = frames
to_ram (pte ∷ ptes) frames =
    to_ram ptes
      (if page_present (pte % 2 ^ 32) == 0 then frames else paging_fpn (pte % 2 ^ 32) ∷ frames)

pub to_swap : List ℕ → List ℕ → List ℕ
to_swap [] frames = frames
to_swap (pte ∷ ptes) frames =
    to_swap ptes
      (if page_present (pte % 2 ^ 32) == 0 then paging_swp (pte % 2 ^ 32) ∷ frames else frames)

free_page_absent :
    (mram mswp : Memphy) (pte : ℕ) (ram swap : List ℕ)
    → (page_present (pte % 2 ^ 32) == 0) ≡ true
    → free_page
        (some pte)
        (ptr (with_frames mram (of_list ram)))
        (ptr (with_frames mswp (of_list swap)))
      ≡ ok (
        ptr (with_frames mram (of_list ram)),
        ptr (with_frames mswp (of_list (paging_swp (pte % 2 ^ 32) ∷ swap))),
      )
unfolding free_page put_freefp
free_page_absent mram mswp pte ram swap e = rw e

free_page_present :
    (mram mswp : Memphy) (pte : ℕ) (ram swap : List ℕ)
    → (page_present (pte % 2 ^ 32) == 0) ≡ false
    → free_page
        (some pte)
        (ptr (with_frames mram (of_list ram)))
        (ptr (with_frames mswp (of_list swap)))
      ≡ ok (
        ptr (with_frames mram (of_list (paging_fpn (pte % 2 ^ 32) ∷ ram))),
        ptr (with_frames mswp (of_list swap)),
      )
unfolding free_page put_freefp
free_page_present mram mswp pte ram swap e = rw e

-- `ptes` are the entries of `pgd` from `start` on.
free_loop_lem :
    (mram mswp : Memphy) (pgd : List ℕ) (start : ℕ) (ptes ram swap : List ℕ)
    → ((i : ℕ) → i < length ptes → get_elem? pgd (start + i) ≡ get_elem? ptes i)
    → free_loop
        (length ptes)
        start
        pgd
        (ptr (with_frames mram (of_list ram)))
        (ptr (with_frames mswp (of_list swap)))
      ≡ ok (
        ptr (with_frames mram (of_list (to_ram ptes ram))),
        ptr (with_frames mswp (of_list (to_swap ptes swap))),
      )
unfolding free_loop to_ram to_swap
free_loop_lem mram mswp pgd start [] ram swap h = refl
free_loop_lem mram mswp pgd start (pte ∷ ptes) ram swap h =
    elim (Bool-cases (page_present (pte % 2 ^ 32) == 0)) [
      | inl absent ↦
          rw (here, free_page_absent mram mswp pte ram swap absent, absent)
            (free_loop_lem mram mswp pgd (start + 1) ptes ram (paging_swp (pte % 2 ^ 32) ∷ swap)
              later)
      | inr present ↦
          rw (here, free_page_present mram mswp pte ram swap present, present)
            (free_loop_lem mram mswp pgd (start + 1) ptes (paging_fpn (pte % 2 ^ 32) ∷ ram) swap
              later)
    ]
  where
    here : get_elem? pgd start ≡ some pte
    here = ap (get_elem? pgd) (omega arith) ∙ h 0 (omega arith)

    later : (i : ℕ) → i < length ptes → get_elem? pgd (start + 1 + i) ≡ get_elem? ptes i
    later i lt = ap (get_elem? pgd) (omega arith) ∙ h (suc i) (omega arith)

-- With the lock free, both devices present and a page directory of PAGING_MAX_PGN entries,
-- free_pcb_memph succeeds: the RAM device gets the frame of each entry that is marked present, and
-- the active swap device one frame for each other entry, in front of their free frames; nothing
-- else of the machine changes.
pub free_pcb_memph-frames :
    (m : Machine) (mm : Mm) (mram mswp : Memphy) (pgd ram swap : List ℕ)
    → m.mmvm_lock ≡ false
    → m.os ≡ record {
      mm = ptr mm;
      mram = ptr (with_frames mram (of_list ram));
      active_mswp = ptr (with_frames mswp (of_list swap));
    }
    → mm.pgd ≡ ptr pgd
    → length pgd ≡ paging_max_pgn
    → free_pcb_memph m
      ≡ ok (
        success,
        record m {
          os = record {
            mm = ptr mm;
            mram = ptr (with_frames mram (of_list (to_ram pgd ram)));
            active_mswp = ptr (with_frames mswp (of_list (to_swap pgd swap)));
          };
        },
      )
unfolding free_pcb_memph
free_pcb_memph-frames m mm mram mswp pgd ram swap free os at len = ground (
  arith,
  free,
  os,
  at,
  ap
        (λ n.
          free_loop n 0 pgd (ptr (with_frames mram (of_list ram)))
            (ptr (with_frames mswp (of_list swap))))
        (sym len)
      ∙ free_loop_lem mram mswp pgd 0 pgd ram swap (λ i p. ap (get_elem? pgd) (omega arith)),
)
