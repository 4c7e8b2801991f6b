-- ===== src/Alloc/Grow.antt =====
-- __alloc past the break.
use hk252_co2017_nhom2_btl.Prelude.{
  Chain, List, ap, arith, false, get_elem?-set_ne, get_elem?-set_self, length, length-set, of_list,
  ok, pos, set, success, sym, to_int_small, ℕ, ◌+◌, ◌<◌, ◌^◌, ◌∙◌, ◌≡◌, ◌≢◌, ◌≤◌,
}
use hk252_co2017_nhom2_btl.Mm.{Region, Vma, Machine}
use hk252_co2017_nhom2_btl.Vma.Lookup.{get_vma_by_num-zero}
use hk252_co2017_nhom2_btl.FreeList.Cover.{has_room}
use hk252_co2017_nhom2_btl.FreeList.{unset}
use hk252_co2017_nhom2_btl.FreeList.Serve.{get_free_vmrg_area-full}
use hk252_co2017_nhom2_btl.Syscall.{Table}
use hk252_co2017_nhom2_btl.Syscall.Dispatch.{syscall-inc}
use hk252_co2017_nhom2_btl.Alloc.Ready.{cover-ge_two, updated-IsReady, owners, IsReady, updated}
use hk252_co2017_nhom2_btl.Alloc.{alloc, grow}

module _ (table : Table) (junk : ℕ → ℕ) (value pid : ℕ) where
  -- On a machine between two calls where no free region is long enough, __alloc of `size` < 2 ^ 31
  -- bytes for one of the 30 entries succeeds, whatever the table of system calls holds: the entry
  -- gets the region from the break (which is below 2 ^ 31) on, and nothing else of the machine
  -- changes, the break and the free list included.
  pub alloc-grows :
      (m : Machine) (v : Vma) (rest : Chain Vma) (free_list syms : List Region) (i size : ℕ)
      (ready : IsReady m v rest free_list syms)
      → i < 30
      → size < 2 ^ 31
      → v.sbrk < 2 ^ 31
      → has_room size free_list ≡ false
      → alloc table junk value pid m (pos 0) (pos i) size
        ≡ ok (
          success,
          updated m ready.mm v rest free_list
              (set syms i (record { rg_start = v.sbrk; rg_end = v.sbrk + size })),
          v.sbrk,
        )
  unfolding alloc grow
  alloc-grows m v rest free_list syms i size ready lt h b full =
      let (new, runs) =
        get_free_vmrg_area-full ready.mm (pos 0) 0 size v free_list unset
          (get_vma_by_num-zero ready.mm v rest ready.first_area ready.numbered)
          (ground (arith, ready.first_area)) ready.listed ready.tame h full in
      ground (
        arith,
        ready.unlocked,
        ready.at_mm,
        ready.first_area,
        ready.table,
        ready.listed,
        ready.full_table,
        to_int_small size h,
        to_int_small v.sbrk b,
        get_vma_by_num-zero ready.mm v rest ready.first_area ready.numbered,
        runs,
        syscall-inc table junk value m.os pid 17 0 size,
      )

  -- On a machine between two calls, two requests of positive sizes below 2 ^ 31, for different
  -- entries, that find no free region long enough both succeed with the same address, the break
  -- (which is below 2 ^ 31), and in the state after them that address has at least two owners.
  pub alloc-twice_overlaps :
      (m : Machine) (v : Vma) (rest : Chain Vma) (free_list syms : List Region) (i j size size' : ℕ)
      → IsReady m v rest free_list syms
      → i < 30
      → j < 30
      → i ≢ j
      → 0 < size
      → size < 2 ^ 31
      → 0 < size'
      → size' < 2 ^ 31
      → v.sbrk < 2 ^ 31
      → has_room size free_list ≡ false
      → has_room size' free_list ≡ false
      → (m' : Machine) × (m'' : Machine) × (syms'' : List Region) × (v' : Vma) × (alloc table junk
            value pid m
            (pos 0)
            (pos i)
            size
          ≡ ok (success, m', v.sbrk))
        × (alloc table junk value pid m' (pos 0) (pos j) size' ≡ ok (success, m'', v.sbrk))
        × IsReady m'' v' rest free_list syms''
        × (2 ≤ owners free_list syms'' v.sbrk)
  alloc-twice_overlaps m v rest fl syms i j size size' ready li lj ne p h p' h' b full full' = (
    updated m ready.mm v rest fl (set syms i new),
    updated m' ready'.mm (record v { vm_freerg_list = of_list fl }) rest fl
        (set (set syms i new) j new'),
    set (set syms i new) j new',
    v',
    alloc-grows m v rest fl syms i size ready li h b full,
    alloc-grows m' v' rest fl (set syms i new) j size' ready' lj h' b full',
    updated-IsReady ready' fl j new' ready.tame,
    owned,
  )
    where
      new : Region
      new = record { rg_start = v.sbrk; rg_end = v.sbrk + size }

      new' : Region
      new' = record { rg_start = v.sbrk; rg_end = v.sbrk + size' }

      v' : Vma
      v' = record v { vm_freerg_list = of_list fl }

      m' : Machine
      m' = updated m ready.mm v rest fl (set syms i new)

      ready' : IsReady m' v' rest fl (set syms i new)
      ready' = updated-IsReady ready fl i new ready.tame

      owned : 2 ≤ owners fl (set (set syms i new) j new') v.sbrk
      owned = ground (
        arith,
        cover-ge_two (set (set syms i new) j new') i j v.sbrk ne
            (get_elem?-set_ne (set syms i new) j i new' (λ e. ne (sym e))
              ∙ get_elem?-set_self syms i new
                  (omega (arith, ap length ready.table, ready.full_table)))
            (get_elem?-set_self (set syms i new) j new'
              (omega (arith, ready.full_table, length-set syms i new))),
      )
