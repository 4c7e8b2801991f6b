-- ===== src/Os/Kernel.antt =====
-- src/os.c: the page directories of the kernel, which ld_routine sets up before its loop, in the build
-- with MM64. No other function of the program reads them.
use hk252_co2017_nhom2_btl.Prelude.{
  List, Outcome, [], ap, arith, fault, if◌then◌else◌, length, ltb, ok, out_of_bounds, refl,
  replicate, set, suc, zero, ℕ, ◌++◌, ◌+◌, ◌-◌, ◌/◌, ◌>>=◌, ◌^◌, ◌∙◌, ◌∷◌, ◌≡◌,
}

-- PAGING64_MAX_PGN
abbrev paging64_max_pgn : ℕ
paging64_max_pgn = (2 ^ 21 + 4096 - 1) / 4096

-- The blocks that `krnl_pgd`, ..., `krnl_pt` of `os` point to
record KernelTables : Type 0 where
  pub pgd : List ℕ
  pub p4d : List ℕ
  pub pud : List ℕ
  pub pmd : List ℕ
  pub pt : List ℕ

-- The addresses of the fields `krnl_p4d`, ..., `krnl_pt` of `os`
record KernelAddrs : Type 0 where
  pub p4d : ℕ
  pub pud : ℕ
  pub pmd : ℕ
  pub pt : ℕ

store_entry : List ℕ → ℕ → ℕ → Outcome (List ℕ)
store_entry table i v = if ltb i (length table) then ok (set table i v) else fault out_of_bounds

-- The `for`, from entry `i` on, with `left` rounds to go
fill_tables : KernelAddrs → ℕ → ℕ → KernelTables → Outcome KernelTables
fill_tables a zero i t = ok t
fill_tables a (suc left) i t = do
  pgd ← store_entry t.pgd i a.p4d
  p4d ← store_entry t.p4d i a.pud
  pud ← store_entry t.pud i a.pmd
  pmd ← store_entry t.pmd i a.pt
  pt ← store_entry t.pt i 0
  fill_tables a left (i + 1) (record { pgd = pgd; p4d = p4d; pud = pud; pmd = pmd; pt = pt })

-- The directories, on what malloc gave for the blocks
init_kernel_tables : KernelAddrs → KernelTables → Outcome KernelTables
init_kernel_tables a t = fill_tables a paging64_max_pgn 0 t

-- A table of which the first `i` entries are `v` already
abbrev partly : ℕ → ℕ → List ℕ → List ℕ
partly i v rest = replicate i v ++ rest

length-partly : (i v : ℕ) (rest : List ℕ) → length (partly i v rest) ≡ i + length rest
length-partly zero v rest = omega arith
length-partly (suc i) v rest = omega (arith, length-partly i v rest)

partly-cons : (i v : ℕ) (rest : List ℕ) → partly i v (v ∷ rest) ≡ partly (suc i) v rest
partly-cons zero v rest = refl
partly-cons (suc i) v rest = ap (λ xs. v ∷ xs) (partly-cons i v rest)

set-partly : (i v x : ℕ) (rest : List ℕ) → set (partly i v (x ∷ rest)) i v ≡ partly i v (v ∷ rest)
set-partly zero v x rest = refl
set-partly (suc i) v x rest = ap (λ xs. v ∷ xs) (set-partly i v x rest)

-- One more entry is written.
store_entry-partly :
    (i v left : ℕ) (rest : List ℕ)
    → length rest ≡ suc left
    → (rest' : List ℕ) × (length rest' ≡ left)
      × (store_entry (partly i v rest) i v ≡ ok (partly (i + 1) v rest'))
unfolding store_entry
store_entry-partly i v left [] e = absurd (omega (arith, e))
store_entry-partly i v left (x ∷ rest) e = (rest, omega (arith, e), written)
  where
    next : partly i v (v ∷ rest) ≡ partly (i + 1) v rest
    next = let e : suc i ≡ i + 1 = omega arith in partly-cons i v rest ∙ ap (λ k. partly k v rest) e

    written :
        (if ltb i (length (partly i v (x ∷ rest)))
          then ok (set (partly i v (x ∷ rest)) i v)
          else fault out_of_bounds)
        ≡ ok (partly (i + 1) v rest)
    written = ground (arith, length-partly i v (x ∷ rest), set-partly i v x rest, next)

partly-all : (i v : ℕ) (rest : List ℕ) → length rest ≡ 0 → partly i v rest ≡ replicate i v
partly-all zero v [] e = refl
partly-all (suc i) v [] e = ap (λ xs. v ∷ xs) (partly-all i v [] refl)
partly-all i v (x ∷ rest) e = absurd (omega (arith, e))

-- Tables of which `i` entries are written, in front of `rest`
abbrev begun : KernelAddrs → ℕ → KernelTables → KernelTables
begun a i rest = record {
  pgd = partly i a.p4d rest.pgd;
  p4d = partly i a.pud rest.p4d;
  pud = partly i a.pmd rest.pud;
  pmd = partly i a.pt rest.pmd;
  pt = partly i 0 rest.pt;
}

abbrev HaveSize : KernelTables → ℕ → Type 0
HaveSize t n =
    (length t.pgd ≡ n)
    × (length t.p4d ≡ n)
    × (length t.pud ≡ n)
    × (length t.pmd ≡ n)
    × (length t.pt ≡ n)

-- Tables with the same entry everywhere
abbrev filled : KernelAddrs → ℕ → KernelTables
filled a n = record {
  pgd = replicate n a.p4d;
  p4d = replicate n a.pud;
  pud = replicate n a.pmd;
  pmd = replicate n a.pt;
  pt = replicate n 0;
}

fill_tables-filled :
    (a : KernelAddrs) (left i : ℕ) (rest : KernelTables)
    → HaveSize rest left
    → fill_tables a left i (begun a i rest) ≡ ok (filled a (i + left))
unfolding fill_tables
fill_tables-filled a zero i rest (pgd, p4d, pud, pmd, pt) =
    let all_filled : begun a i rest ≡ filled a i = λ j. record {
      pgd = partly-all i a.p4d rest.pgd pgd j;
      p4d = partly-all i a.pud rest.p4d p4d j;
      pud = partly-all i a.pmd rest.pud pud j;
      pmd = partly-all i a.pt rest.pmd pmd j;
      pt = partly-all i 0 rest.pt pt j;
    } in
    let same : i ≡ i + 0 = omega arith in ap ok (all_filled ∙ ap (filled a) same)
fill_tables-filled a (suc left) i rest (pgd, p4d, pud, pmd, pt) =
    let (r1, n1, e1) = store_entry-partly i a.p4d left rest.pgd pgd in
    let (r2, n2, e2) = store_entry-partly i a.pud left rest.p4d p4d in
    let (r3, n3, e3) = store_entry-partly i a.pmd left rest.pud pud in
    let (r4, n4, e4) = store_entry-partly i a.pt left rest.pmd pmd in
    let (r5, n5, e5) = store_entry-partly i 0 left rest.pt pt in
    let same : i + 1 + left ≡ i + suc left = omega arith in
    rw (e1, e2, e3, e4, e5)
      (fill_tables-filled a left (i + 1)
          (record { pgd = r1; p4d = r2; pud = r3; pmd = r4; pt = r5 }) (n1, n2, n3, n4, n5)
        ∙ ap (λ n. ok (filled a n)) same)

-- Blocks of 512 words are enough for ld_routine: each entry of a table is the address of the field
-- that holds the next table, and those of the last one are 0.
init_kernel_tables-filled :
    (a : KernelAddrs) (t : KernelTables)
    → HaveSize t 512
    → init_kernel_tables a t ≡ ok (filled a 512)
unfolding init_kernel_tables
init_kernel_tables-filled a t size = fill_tables-filled a 512 0 t size
