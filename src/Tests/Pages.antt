-- ===== src/Tests/Pages.antt =====
-- Pages in use, page accesses, and the end of a process (src/libmem.c).
use hk252_co2017_nhom2_btl.Prelude.{
  Always, List, [], end, failure, length-replicate, null, of_list, ok, pos, ptr, refl, replicate,
  success, ℕ, ◌∷◌, ◌≡◌,
}
use hk252_co2017_nhom2_btl.Memphy.{Memphy}
use hk252_co2017_nhom2_btl.Memphy.Frames.{with_frames}
use hk252_co2017_nhom2_btl.Mm.{Mm, Krnl, Machine}
use hk252_co2017_nhom2_btl.Vma.{enlist_pgn_node}
use hk252_co2017_nhom2_btl.Paging.{Locals, paging_max_pgn, find_victim_page, read, free_pcb_memph}
use hk252_co2017_nhom2_btl.Paging.Fifo.{find_victim_page-oldest}
use hk252_co2017_nhom2_btl.Paging.Fault.{with_pages, get_pages, get_pages-exhausts}
use hk252_co2017_nhom2_btl.Paging.Access.{IsInert, read-IsInert}
use hk252_co2017_nhom2_btl.Paging.Release.{to_ram, to_swap, free_pcb_memph-frames}
use hk252_co2017_nhom2_btl.Tests.Machines.{mm, machine}

abbrev pub device : Memphy
device = record {
  storage = 7 ∷ 8 ∷ 9 ∷ [];
  maxsz = pos 3;
  rdmflg = 1;
  cursor = 0;
  free_fp_list = of_list (4 ∷ 6 ∷ []);
  used_fp_list = end;
}

abbrev paged : Mm
paged = record mm { fifo_pgn = of_list (5 ∷ 2 ∷ 8 ∷ []) }

find_victim_page-oldest_example :
    find_victim_page paged 0 ≡ ok (success, record paged { fifo_pgn = of_list (5 ∷ 2 ∷ []) }, 8)
find_victim_page-oldest_example =
    find_victim_page-oldest paged 5 8 0 (2 ∷ []) (unfold enlist_pgn_node in refl)

abbrev single : Mm
single = record mm { fifo_pgn = of_list (5 ∷ []) }

get_pages-exhausts_example :
    (k : Krnl) × (get_pages 0 0 machine.os mm device 7
        (with_pages machine.os mm device (5 ∷ 2 ∷ []) (4 ∷ 6 ∷ []))
        (1 ∷ 1 ∷ 3 ∷ [])
      ≡ ok (failure, 0 ∷ 0 ∷ [], k))
    × (k.active_mswp ≡ ptr (with_frames device end))
    × (k.mram ≡ null)
get_pages-exhausts_example =
    get_pages-exhausts 0 0 machine.os mm device 7 5 2 [] (4 ∷ 6 ∷ []) (1 ∷ 1 ∷ []) 3 refl

abbrev locals : Locals
locals = record { fpn = 0; vicpgn = 0; swpfpn = 0 }

read-IsInert_example : Always (IsInert machine 9) (read locals machine (pos 0) (pos 0) 3 9)
read-IsInert_example = read-IsInert locals machine (pos 0) (pos 0) 3 9

abbrev table : List ℕ
table = replicate paging_max_pgn 5

abbrev mapped : Mm
mapped = record mm { pgd = ptr table }

abbrev full : Machine
full = record machine {
  os = record {
    mm = ptr mapped;
    mram = ptr (with_frames device (of_list (1 ∷ [])));
    active_mswp = ptr (with_frames device (of_list (2 ∷ [])));
  };
}

free_pcb_memph-frames_example :
    free_pcb_memph full
    ≡ ok (
      success,
      record full {
        os = record {
          mm = ptr mapped;
          mram = ptr (with_frames device (of_list (to_ram table (1 ∷ []))));
          active_mswp = ptr (with_frames device (of_list (to_swap table (2 ∷ []))));
        };
      },
    )
free_pcb_memph-frames_example =
    free_pcb_memph-frames full mapped device device table (1 ∷ []) (2 ∷ []) refl refl refl
      (length-replicate {A = ℕ} paging_max_pgn 5)
