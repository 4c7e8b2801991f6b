-- ===== src/Printing.antt =====
-- The functions of src/mm64.c that print lists, and dump of src/mem.c: what they print, as a list of
-- lines. print_pgtbl prints nothing.
pub mod Unused
use hk252_co2017_nhom2_btl.Prelude.{
  Chain, List, Outcome, [], dangling, end, failure, fault, get_elem?, if◌then◌else◌, node, none, ok,
  out_of_bounds, some, suc, success, uninitialised, zero, ℕ, ℤ, ◌*◌, ◌++◌, ◌+◌, ◌-◌, ◌==◌, ◌>>=◌,
  ◌>>◌, ◌∷◌,
}
use hk252_co2017_nhom2_btl.Mm.{Region, Vma}
use hk252_co2017_nhom2_btl.Segmented.{Memory, PageStat, page_size}

-- A line of a printed list: the name of the function, that name with "NULL list", a number, a range,
-- the empty line at the end, or the letter n that print_list_pgn has instead.
pub data Line : Type 0 where
  title : Line
  null_list : Line
  number : ℕ → Line
  range : (from to : ℕ) → Line
  blank : Line
  tail : Line

-- The `while` over a list, with what follows it
print_nodes : {A : Type 0} → (A → Line) → Line → Chain A → Outcome (List Line)
print_nodes line last end = ok (last ∷ [])
print_nodes line last dangling = fault uninitialised
print_nodes line last (node a rest) = do lines ← print_nodes line last rest; ok (line a ∷ lines)

print_list : {A : Type 0} → (A → Line) → Line → Chain A → Outcome (ℤ × List Line)
print_list line last end = ok (failure, null_list ∷ [])
print_list line last dangling = fault uninitialised
print_list line last (node a rest) = do
  lines ← print_nodes line last (node a rest)
  ok (success, title ∷ lines)

print_list_fp : Chain ℕ → Outcome (ℤ × List Line)
print_list_fp ifp = print_list number blank ifp

print_list_rg : Chain Region → Outcome (ℤ × List Line)
print_list_rg irg = print_list (λ rg. range rg.rg_start rg.rg_end) blank irg

print_list_vma : Chain Vma → Outcome (ℤ × List Line)
print_list_vma ivma = print_list (λ vma. range vma.vm_start vma.vm_end) blank ivma

print_list_pgn : Chain ℕ → Outcome (ℤ × List Line)
print_list_pgn ip = print_list number tail ip

-- A line of dump: a page in use, or a byte other than 0 of it
pub data DumpLine : Type 0 where
  page : (i : ℕ) (stat : PageStat) → DumpLine
  byte : (j value : ℕ) → DumpLine

-- The inner `for`, for `count` bytes from `j` on
dump_bytes : List ℕ → ℕ → ℕ → Outcome (List DumpLine)
dump_bytes ram zero j = ok []
dump_bytes ram (suc count) j = do
  value ← elim (get_elem? ram j) [ none ↦ fault out_of_bounds | some b ↦ ok b ]
  lines ← dump_bytes ram count (j + 1)
  ok (if value == 0 then lines else byte j value ∷ lines)

-- The outer `for`, from page `i` on: the last byte of each page is not looked at.
dump_pages : List ℕ → List PageStat → ℕ → Outcome (List DumpLine)
dump_pages ram [] i = ok []
dump_pages ram (stat ∷ stats) i = do
  bytes ← if stat.proc == 0 then ok [] else dump_bytes ram (page_size - 1) (i * page_size)
  lines ← dump_pages ram stats (i + 1)
  ok (if stat.proc == 0 then lines else page i stat ∷ bytes ++ lines)

pub dump : Memory → Outcome (List DumpLine)
dump m = dump_pages m.ram m.mem_stat 0
