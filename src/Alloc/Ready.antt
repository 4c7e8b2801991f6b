-- ===== src/Alloc/Ready.antt =====
-- The state of the machine between two calls, and the owners of an address.
use hk252_co2017_nhom2_btl.Prelude.{
  Chain, List, [], arith, false, get_elem?, get_elem?-set_ne, length, length-set, node, of_list,
  ptr, refl, set, some, suc, zero, ℕ, ◌+◌, ◌∙◌, ◌∷◌, ◌≡◌, ◌≢◌, ◌≤◌,
}
use hk252_co2017_nhom2_btl.Mm.{Region, Vma, Mm, Machine, with_mm, unlock}
use hk252_co2017_nhom2_btl.FreeList.Cover.{inside, cover, IsTame}

-- A machine between two calls: the lock is free, the process has a memory map whose first area is
-- number 0 and has the free regions `free_list`, and a symbol table with the regions `syms`.
pub record IsReady (m : Machine) (v : Vma) (rest : Chain Vma) (free_list syms : List Region)
    : Type 0 where
  pub mm : Mm
  pub unlocked : m.mmvm_lock ≡ false
  pub at_mm : m.os.mm ≡ ptr mm
  pub first_area : mm.mmap ≡ node v rest
  pub numbered : v.vm_id ≡ 0
  pub listed : v.vm_freerg_list ≡ of_list free_list
  pub table : mm.symrgtbl ≡ syms
  pub full_table : length syms ≡ 30
  pub tame : IsTame free_list

-- How often an address is owned: by the free list or by an entry of the symbol table.
abbrev pub owners : List Region → List Region → ℕ → ℕ
owners free_list syms x = cover free_list x + cover syms x

pub cover-set :
    (syms : List Region) (i : ℕ) (r : Region) (x : ℕ) {old : Region}
    → get_elem? syms i ≡ some old
    → cover (set syms i r) x + inside old x ≡ cover syms x + inside r x
cover-set [] i r x e = absurd (cc e)
cover-set (s ∷ syms) zero r x e = ground (arith)
cover-set (s ∷ syms) (suc i) r x {old} e = omega (arith, cover-set syms i r x e)

abbrev pub cleared : Region
cleared = record { rg_start = 0; rg_end = 0 }

inside-cleared : (x : ℕ) → inside cleared x ≡ 0
inside-cleared x = ground arith

-- Two different entries that hold an address are two owners of it.
pub cover-ge_two :
    (syms : List Region) (i j x : ℕ) {r s : Region}
    → i ≢ j
    → get_elem? syms i ≡ some r
    → get_elem? syms j ≡ some s
    → inside r x + inside s x ≤ cover syms x
cover-ge_two syms i j x {r} {s} ne e f = omega (
  arith,
  inside-cleared x,
  cover-set syms i cleared x e,
  cover-set (set syms i cleared) j cleared x (get_elem?-set_ne syms i j cleared ne ∙ f),
)

-- The machine after its memory map got a new free list and a new symbol table.
abbrev pub updated : Machine → Mm → Vma → Chain Vma → List Region → List Region → Machine
updated m mm v rest left syms = unlock (
    with_mm m (record mm {
      mmap = node (record v { vm_freerg_list = of_list left }) rest;
      symrgtbl = syms;
    }))

pub updated-IsReady :
    {m : Machine} {v : Vma} {rest : Chain Vma} {free_list syms : List Region}
    (ready : IsReady m v rest free_list syms) (left : List Region) (i : ℕ) (r : Region)
    → IsTame left
    → IsReady
        (updated m ready.mm v rest left (set syms i r))
        (record v { vm_freerg_list = of_list left })
        rest
        left
        (set syms i r)
updated-IsReady {m} {v} {rest} {free_list} {syms} ready left i r t = record {
  mm = record ready.mm {
    mmap = node (record v { vm_freerg_list = of_list left }) rest;
    symrgtbl = set syms i r;
  };
  unlocked = refl;
  at_mm = refl;
  first_area = refl;
  numbered = ready.numbered;
  listed = refl;
  table = refl;
  full_table = length-set syms i r ∙ ready.full_table;
  tame = t;
}
