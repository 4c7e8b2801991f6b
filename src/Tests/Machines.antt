-- ===== src/Tests/Machines.antt =====
-- A machine between two calls, its allocations and its system calls (src/libmem.c, src/syscall.c).
use hk252_co2017_nhom2_btl.Alloc.Errors.{free-twice}
use hk252_co2017_nhom2_btl.Prelude.{
  List, [], arith, end, failure, false, node, null, of_list, ok, pos, ptr, refl, replicate, set,
  success, ℕ, ◌+◌, ◌<◌, ◌^◌, ◌∷◌, ◌≡◌, ◌≤◌,
}
use hk252_co2017_nhom2_btl.FreeList.Cover.{inside}
use hk252_co2017_nhom2_btl.Mm.{Region, Vma, Mm, Machine}
use hk252_co2017_nhom2_btl.Syscall.{Table, Regs, memmap, listsyscall}
use hk252_co2017_nhom2_btl.Alloc.{alloc, free}
use hk252_co2017_nhom2_btl.Alloc.Ready.{IsReady, owners, cleared, updated}
use hk252_co2017_nhom2_btl.Alloc.Balance.{alloc-owners, free-owners}
use hk252_co2017_nhom2_btl.Alloc.Grow.{alloc-grows, alloc-twice_overlaps}
use hk252_co2017_nhom2_btl.Alloc.Reuse.{free-alloc}

abbrev pub held : Region
held = record { rg_start = 16; rg_end = 32 }

abbrev pub free_regions : List Region
free_regions = record { rg_start = 0; rg_end = 8 } ∷ record { rg_start = 64; rg_end = 100 } ∷ []

abbrev pub symbols : List Region
symbols = held ∷ replicate 29 (record { rg_start = 0; rg_end = 0 })

abbrev pub area : Vma
area = record {
  vm_id = 0;
  vm_start = 0;
  vm_end = 256;
  sbrk = 100;
  vm_freerg_list = of_list free_regions;
}

abbrev pub mm : Mm
mm = record { pgd = null; mmap = node area end; symrgtbl = symbols; fifo_pgn = end }

abbrev pub machine : Machine
machine = record { os = record { mm = ptr mm; mram = null; active_mswp = null }; mmvm_lock = false }

abbrev pub machine-IsReady : IsReady machine area end free_regions symbols
machine-IsReady = record {
  mm = mm;
  unlocked = refl;
  at_mm = refl;
  first_area = refl;
  numbered = refl;
  listed = refl;
  table = refl;
  full_table = refl;
  tame = (omega arith, omega arith, (omega arith, omega arith, tt));
}

abbrev pub calls : Table
calls = (0, listsyscall) ∷ (17, memmap) ∷ []

alloc-owners_example :
    (m' : Machine) × (left : List Region) × (new : Region) × (alloc calls
        (λ i. i)
        0
        1
        machine
        (pos 0)
        (pos 0)
        16
      ≡ ok (success, m', new.rg_start))
    × IsReady m' (record area { vm_freerg_list = of_list left }) end left (set symbols 0 new)
    × (new.rg_end ≡ new.rg_start + 16)
    × (new.rg_end < 2 ^ 63)
    × ((x : ℕ) → owners left (set symbols 0 new) x + inside held x ≡ owners free_regions symbols x)
alloc-owners_example =
    alloc-owners calls (λ i. i) 0 1 machine area end free_regions symbols 0 16 held machine-IsReady
      refl (omega arith) refl

free-owners_example :
    (m' : Machine) × (free machine (pos 0) (pos 0) ≡ ok (success, m'))
    × IsReady m'
        (record area { vm_freerg_list = of_list (held ∷ free_regions) })
        end
        (held ∷ free_regions)
        (set symbols 0 cleared)
    × ((x : ℕ)
        → owners (held ∷ free_regions) (set symbols 0 cleared) x ≡ owners free_regions symbols x)
free-owners_example =
    free-owners machine area end free_regions symbols 0 held machine-IsReady refl (omega arith)
      (omega arith)

free-twice_example :
    (m' : Machine) × (free machine (pos 0) (pos 0) ≡ ok (success, m'))
    × (free m' (pos 0) (pos 0) ≡ ok (failure, m'))
free-twice_example =
    free-twice machine area end free_regions symbols 0 held machine-IsReady refl (omega arith)
      (omega arith)

alloc-grows_example :
    alloc calls (λ i. i) 0 1 machine (pos 0) (pos 3) 40
    ≡ ok (
      success,
      updated machine mm area end free_regions
          (set symbols 3 (record { rg_start = 100; rg_end = 140 })),
      100,
    )
alloc-grows_example =
    alloc-grows calls (λ i. i) 0 1 machine area end free_regions symbols 3 40 machine-IsReady
      (omega arith) (omega arith) (omega arith) refl

alloc-twice_overlaps_example :
    (m' : Machine) × (m'' : Machine) × (syms'' : List Region) × (v' : Vma) × (alloc calls
        (λ i. i)
        0
        1
        machine
        (pos 0)
        (pos 3)
        40
      ≡ ok (success, m', 100))
    × (alloc calls (λ i. i) 0 1 m' (pos 0) (pos 4) 50 ≡ ok (success, m'', 100))
    × IsReady m'' v' end free_regions syms''
    × (2 ≤ owners free_regions syms'' 100)
alloc-twice_overlaps_example =
    alloc-twice_overlaps calls (λ i. i) 0 1 machine area end free_regions symbols 3 4 40 50
      machine-IsReady (omega arith) (omega arith) (omega arith) (omega arith) (omega arith)
      (omega arith) (omega arith) (omega arith) refl refl

free-alloc_example :
    (m' : Machine) × (free machine (pos 0) (pos 0) ≡ ok (success, m'))
    × (alloc calls (λ i. i) 0 1 m' (pos 0) (pos 0) 16 ≡ ok (success, machine, 16))
free-alloc_example =
    free-alloc calls (λ i. i) 0 1 machine area end (record { rg_start = 0; rg_end = 8 })
      (record { rg_start = 64; rg_end = 100 } ∷ []) symbols 0 held machine-IsReady refl
      (omega arith) (omega arith) (omega arith)

abbrev swap_out : Regs
swap_out = record { a1 = 3; a2 = 0; a3 = 0 }
