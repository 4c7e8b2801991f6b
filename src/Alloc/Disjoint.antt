-- ===== src/Alloc/Disjoint.antt =====
-- Machines of which no address has two owners, and one call of __free.
use hk252_co2017_nhom2_btl.Alloc.Errors.{free-refuses}
use hk252_co2017_nhom2_btl.Alloc.Balance.{free-owners}
use hk252_co2017_nhom2_btl.Prelude.{
  Chain, List, [], ap, arith, dangling, dec_lt, end, failure, get_elem?, get_elem?_total, inr,
  lt-length_of_get_elem?, node, null, of_list, ok, pos, ptr, refl, set, some, suc, success, wild,
  zero, ℕ, ℕ_discrete, ℤ, ◌<◌, ◌^◌, ◌∙◌, ◌∷◌, ◌≡◌, ◌≢◌, ◌≤◌,
}
use hk252_co2017_nhom2_btl.Mm.{Region, Vma, Machine}
use hk252_co2017_nhom2_btl.FreeList.{enlist_vm_freerg_list, get_symrg_byid}
use hk252_co2017_nhom2_btl.FreeList.Cover.{IsTame}
use hk252_co2017_nhom2_btl.Alloc.{free, free_entry}
use hk252_co2017_nhom2_btl.Alloc.Ready.{
  cover-set, updated-IsReady, IsReady, owners, cleared, updated,
}

-- No address has two owners: the regions of the free list and of the symbol table are disjoint.
pub record IsDisjoint (m : Machine) : Type 0 where
  pub v : Vma
  pub rest : Chain Vma
  pub free_list : List Region
  pub syms : List Region
  pub ready : IsReady m v rest free_list syms
  pub tame_syms : IsTame syms
  pub single : (x : ℕ) → owners free_list syms x ≤ 1

abbrev pub chain_list : Chain Region → List Region
chain_list end = []
chain_list dangling = []
chain_list (node r rest) = r ∷ chain_list rest

-- The free regions of the first area.
abbrev pub free_of : Machine → List Region
free_of m = elim m.os.mm [
  | null ↦ []
  | wild ↦ []
  | ptr mm ↦ elim mm.mmap [ end ↦ [] | dangling ↦ [] | node v rest ↦ chain_list v.vm_freerg_list ]
]

chain_list-of_list : (rs : List Region) → chain_list (of_list rs) ≡ rs
chain_list-of_list [] = refl
chain_list-of_list (r ∷ rs) = ap (λ l. r ∷ l) (chain_list-of_list rs)

pub free_of_ready :
    {m : Machine} {v : Vma} {rest : Chain Vma} {free_list syms : List Region}
    → IsReady m v rest free_list syms
    → free_of m ≡ free_list
free_of_ready {m} {v} {rest} {free_list} {syms} ready =
    ground (arith, ready.at_mm, ready.first_area, ready.listed, chain_list-of_list free_list)

pub IsTame-set :
    (rs : List Region) (i : ℕ) (r : Region)
    → IsTame rs
    → r.rg_start ≤ r.rg_end
    → r.rg_end < 2 ^ 63
    → IsTame (set rs i r)
IsTame-set [] i r t p q = tt
IsTame-set (s ∷ rs) zero r t p q = (p, q, t.2)
IsTame-set (s ∷ rs) (suc i) r t p q = (t.0, t.1, IsTame-set rs i r t.2 p q)

IsTame-get :
    (rs : List Region) (i : ℕ) {r : Region}
    → IsTame rs
    → get_elem? rs i ≡ some r
    → (r.rg_start ≤ r.rg_end) × (r.rg_end < 2 ^ 63)
IsTame-get [] i t e = absurd (cc e)
IsTame-get (s ∷ rs) zero t e = ground (arith, t.0, t.1, e)
IsTame-get (s ∷ rs) (suc i) t e = IsTame-get rs i t.2 e

-- An entry with an empty region that is not cleared: it is cleared, and the list is as before.
free_empty :
    (m : Machine) (v : Vma) (rest : Chain Vma) (free_list syms : List Region) (i : ℕ) (old : Region)
    (ready : IsReady m v rest free_list syms)
    → get_elem? syms i ≡ some old
    → old.rg_start ≡ old.rg_end
    → old.rg_end ≢ 0
    → free m (pos 0) (pos i)
      ≡ ok (success, updated m ready.mm v rest free_list (set syms i cleared))
unfolding free free_entry enlist_vm_freerg_list get_symrg_byid
free_empty m v rest free_list syms i old ready e p q = ground (
  arith,
  ready.unlocked,
  ready.at_mm,
  ready.first_area,
  ready.table,
  ready.listed,
  ready.full_table,
  lt-length_of_get_elem? syms i e,
  e,
)

-- A call of __free for an entry returns, and leaves disjoint regions.
pub free-IsDisjoint :
    (m : Machine) (i : ℕ)
    → IsDisjoint m
    → i < 30
    → (status : ℤ) × (m' : Machine) × (free m (pos 0) (pos i) ≡ ok (status, m')) × IsDisjoint m'
free-IsDisjoint m i d lt =
    let (old, e) = get_elem?_total d.syms i (omega (arith, d.ready.full_table)) in
    let (ordered, small) = IsTame-get d.syms i d.tame_syms e in
    let tame : IsTame (set d.syms i cleared) =
      IsTame-set d.syms i cleared d.tame_syms (omega arith) (omega arith) in
    elim (dec_lt old.rg_start old.rg_end) [
      | yes p ↦
          (let (m', runs, ready, same) =
              free-owners m d.v d.rest d.free_list d.syms i old d.ready e p small in
            (
              success,
              m',
              runs,
              record {
                v = record d.v { vm_freerg_list = of_list (old ∷ d.free_list) };
                rest = d.rest;
                free_list = old ∷ d.free_list;
                syms = set d.syms i cleared;
                ready = ready;
                tame_syms = tame;
                single = λ x. omega (arith, same x, d.single x);
              },
            ))
      | no p ↦ elim (ℕ_discrete old.rg_end 0) [
        | yes z ↦ (
          failure,
          m,
          free-refuses m d.v d.rest d.free_list d.syms (pos i) d.ready
              (inr (inr (i, refl, e ∙ ap some (is_cleared old (omega arith) z)))),
          d,
        )
        | no z ↦ (
          success,
          updated m d.ready.mm d.v d.rest d.free_list (set d.syms i cleared),
          free_empty m d.v d.rest d.free_list d.syms i old d.ready e (omega arith) z,
          record {
            v = record d.v { vm_freerg_list = of_list d.free_list };
            rest = d.rest;
            free_list = d.free_list;
            syms = set d.syms i cleared;
            ready = updated-IsReady d.ready d.free_list i cleared d.ready.tame;
            tame_syms = tame;
            single = λ x. ground (arith, cover-set d.syms i cleared x e, d.single x);
          },
        )
      ]
    ]
  where
    is_cleared : (r : Region) → r.rg_start ≡ 0 → r.rg_end ≡ 0 → r ≡ cleared
    is_cleared r p q = ground (arith, p, q)
