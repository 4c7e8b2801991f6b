-- ===== src/Alloc/History.antt =====
-- Calls of __alloc that the free list serves and calls of __free, in any order.
use hk252_co2017_nhom2_btl.Prelude.{
  ap, arith, get_elem?_total, of_list, ok, pos, set, success, sym, true, ℕ, ℤ, ◌<◌, ◌^◌, ◌∙◌, ◌≡◌,
}
use mathlib.Core.Path.{subst}
use hk252_co2017_nhom2_btl.Mm.{Machine}
use hk252_co2017_nhom2_btl.FreeList.Cover.{has_room}
use hk252_co2017_nhom2_btl.Syscall.{Table}
use hk252_co2017_nhom2_btl.Alloc.{alloc, free}
use hk252_co2017_nhom2_btl.Alloc.Balance.{alloc-owners}
use hk252_co2017_nhom2_btl.Alloc.Disjoint.{
  IsDisjoint, free_of, free_of_ready, IsTame-set, free-IsDisjoint,
}

-- One call: a request that some free region can serve, or a release of an entry.
pub data Step (table : Table) (junk : ℕ → ℕ) (value pid : ℕ) : Machine → Machine → Type 0 where
  serve :
      {m m' : Machine} (i size addr : ℕ)
      → i < 30
      → size < 2 ^ 31
      → has_room size (free_of m) ≡ true
      → alloc table junk value pid m (pos 0) (pos i) size ≡ ok (success, m', addr)
      → Step table junk value pid m m'
  release :
      {m m' : Machine} (i : ℕ) (status : ℤ)
      → i < 30
      → free m (pos 0) (pos i) ≡ ok (status, m')
      → Step table junk value pid m m'

-- Any number of calls, one after the other.
pub data History (table : Table) (junk : ℕ → ℕ) (value pid : ℕ) : Machine → Machine → Type 0 where
  stop : {m : Machine} → History table junk value pid m m
  then_on :
      {m m' m'' : Machine}
      → Step table junk value pid m m'
      → History table junk value pid m' m''
      → History table junk value pid m m''

module _ (table : Table) (junk : ℕ → ℕ) (value pid : ℕ) where
  alloc-IsDisjoint :
      (m : Machine) (i size : ℕ)
      → IsDisjoint m
      → i < 30
      → size < 2 ^ 31
      → has_room size (free_of m) ≡ true
      → (addr : ℕ) × (m' : Machine) × (alloc table junk value pid m (pos 0) (pos i) size
          ≡ ok (success, m', addr))
        × IsDisjoint m'
  alloc-IsDisjoint m i size d lt h room =
      let (old, e) = get_elem?_total d.syms i (omega (arith, d.ready.full_table)) in
      let (m', left, new, runs, ready, exact, below, same) =
        alloc-owners table junk value pid m d.v d.rest d.free_list d.syms i size old d.ready e h
          (ap (has_room size) (sym (free_of_ready d.ready)) ∙ room) in
      (
        new.rg_start,
        m',
        runs,
        record {
          v = record d.v { vm_freerg_list = of_list left };
          rest = d.rest;
          free_list = left;
          syms = set d.syms i new;
          ready = ready;
          tame_syms = IsTame-set d.syms i new d.tame_syms (omega (arith, exact)) below;
          single = λ x. omega (arith, same x, d.single x);
        },
      )

  Step-IsDisjoint : {m m' : Machine} → Step table junk value pid m m' → IsDisjoint m → IsDisjoint m'
  Step-IsDisjoint {m} (serve i size addr lt h room e) d =
      let (addr', m'', runs, d') = alloc-IsDisjoint m i size d lt h room in
      subst IsDisjoint (cc (e, runs)) d'
  Step-IsDisjoint {m} (release i status lt e) d =
      let (status', m'', runs, d') = free-IsDisjoint m i d lt in subst IsDisjoint (cc (e, runs)) d'

  -- From a machine between two calls whose regions, in the free list and the symbol table together,
  -- do not share an address, any sequence of calls of __alloc and __free, in any order, for entries
  -- below 30, with each request of less than 2 ^ 31 bytes and one that some free region can serve,
  -- leads to such a machine again.
  pub History-IsDisjoint :
      {m m' : Machine} → History table junk value pid m m' → IsDisjoint m → IsDisjoint m'
  History-IsDisjoint stop d = d
  History-IsDisjoint (then_on step rest) d = History-IsDisjoint rest (Step-IsDisjoint step d)
