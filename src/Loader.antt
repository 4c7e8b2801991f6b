-- ===== src/Loader.antt =====
-- src/loader.c: get_opcode and load. The conversions of stdio are a parameter; a text is the list of
-- its bytes, without the final 0.
pub mod Words
pub mod Load
pub mod Startable
use Prim.Native.Char.{code}
use Prim.Native.String.{String}
use hk252_co2017_nhom2_btl.Prelude.{
  Bool, List, Option, Outcome, [], false, fault, if◌then◌else◌, length, ltb, none, ok,
  out_of_bounds, some, suc, take, terminated, true, uninitialised, zero, ℕ, ◌%◌, ◌&&◌, ◌+◌, ◌==◌,
  ◌>>=◌, ◌>>◌, ◌^◌, ◌∷◌,
}
use hk252_co2017_nhom2_btl.Cpu.{
  Opcode, calc, alloc, free, read, write, kmalloc, kmem_cache_create, kmem_cache_alloc,
  copy_from_user, copy_to_user, syscall, Inst, Pcb,
}

-- The bytes of a literal.
abbrev pub codes : String → List ℕ
codes String.[] = []
codes (String.◌∷◌ c s) = code c ∷ codes s

-- `!strcmp(a, b)`
pub strcmp_same : List ℕ → List ℕ → Bool
strcmp_same [] [] = true
strcmp_same [] (y ∷ ys) = false
strcmp_same (x ∷ xs) [] = false
strcmp_same (x ∷ xs) (y ∷ ys) = x == y && strcmp_same xs ys

-- get_opcode; a word that is none of these ends the program.
pub get_opcode : List ℕ → Outcome Opcode
get_opcode opt =
    if strcmp_same opt (codes "calc")
    then ok calc
    else if strcmp_same opt (codes "alloc")
    then ok alloc
    else if strcmp_same opt (codes "free")
    then ok free
    else if strcmp_same opt (codes "read")
    then ok read
    else if strcmp_same opt (codes "write")
    then ok write
    else if strcmp_same opt (codes "kmalloc")
    then ok kmalloc
    else if strcmp_same opt (codes "kmem_cache_create")
    then ok kmem_cache_create
    else if strcmp_same opt (codes "kmem_cache_alloc")
    then ok kmem_cache_alloc
    else if strcmp_same opt (codes "copy_from_user")
    then ok copy_from_user
    else if strcmp_same opt (codes "copy_to_user")
    then ok copy_to_user
    else if strcmp_same opt (codes "syscall")
    then ok syscall
    else fault terminated

-- What stdio reads from a stream: a word by "%s", up to k numbers by k conversions of one fscanf,
-- and up to four numbers by fgets and sscanf. A conversion that fails ends its call.
pub record Scanner (S : Type 0) : Type 0 where
  pub scan_word : S → Option (List ℕ) × S
  pub scan_numbers : ℕ → S → List ℕ × S
  pub scan_line : S → List ℕ × S

-- The argument fields get the numbers that were read, in order; the others stay as they are.
unfoldable pub store_args : List ℕ → Inst → Inst
store_args [] ins = ins
store_args (a ∷ []) ins = record ins { arg_0 = a }
store_args (a ∷ b ∷ []) ins = record ins { arg_0 = a; arg_1 = b }
store_args (a ∷ b ∷ c ∷ []) ins = record ins { arg_0 = a; arg_1 = b; arg_2 = c }
store_args (a ∷ b ∷ c ∷ d ∷ rest) ins = record ins { arg_0 = a; arg_1 = b; arg_2 = c; arg_3 = d }

-- `char opcode[10]` after "%s": a word that does not fit, with its final 0, is written past the end,
-- and where none is read the buffer keeps the word before, if there was one.
pub store_word : Option (List ℕ) → Option (List ℕ) → Outcome (List ℕ)
store_word none none = fault uninitialised
store_word (some opt) none = ok opt
store_word buffer (some word) = if ltb (length word) 10 then ok word else fault out_of_bounds

-- The process that load sets up. The fields `regs` of the code's process and of a page table are not
-- written.
pub record Loaded : Type 0 where
  pub pcb : Pcb
  pub priority : ℕ
  pub bp : ℕ
  pub path : List ℕ

module _ {S : Type 0} (sc : Scanner S) where
  open sc use {scan_word, scan_numbers, scan_line}

  -- The `switch` of load.
  unfoldable pub scan_args : Opcode → S → List ℕ × S
  scan_args calc s = ([], s)
  scan_args kmem_cache_alloc s = scan_numbers 2 s
  scan_args kmalloc s = scan_numbers 2 s
  scan_args alloc s = scan_numbers 2 s
  scan_args free s = scan_numbers 1 s
  scan_args kmem_cache_create s = scan_numbers 3 s
  scan_args read s = scan_numbers 3 s
  scan_args write s = scan_numbers 3 s
  scan_args copy_from_user s = scan_line s
  scan_args copy_to_user s = scan_line s
  scan_args syscall s = scan_line s

  -- One round of the `for` on `text[i]`, which holds `blank` from malloc.
  pub load_inst : Inst → Option (List ℕ) → S → Outcome (Inst × List ℕ × S)
  load_inst blank buffer s0 = do
    let (word, s) = scan_word s0
    opt ← store_word buffer word
    op ← get_opcode opt
    let (args, s') = scan_args op s
    ok (store_args args (record blank { opcode = op }), opt, s')

  -- The `for`, with `left` rounds to go.
  pub load_text : (ℕ → Inst) → ℕ → ℕ → Option (List ℕ) → S → Outcome (List Inst)
  load_text blank zero i buffer s = ok []
  load_text blank (suc left) i buffer s = do
    (ins, opt, s') ← load_inst (blank i) buffer s
    rest ← load_text blank left (i + 1) (some opt) s'
    ok (ins ∷ rest)

  -- The first fscanf: `priority` and `code->size` keep what malloc gave where it fails.
  pub store_header : List ℕ → ℕ → ℕ → ℕ × ℕ
  store_header [] priority size = (priority, size)
  store_header (p ∷ []) priority size = (p, size)
  store_header (p ∷ n ∷ rest) priority size = (p, n)

  -- load, on the static `avail_pid`, the bytes of the path, and what fopen gives for it; `old` is the
  -- block from malloc, and `blank` the instructions before they are written. The second result is
  -- the new `avail_pid`. A path is cut to 16 bytes, twice the size of a pointer.
  pub load : Loaded → (ℕ → Inst) → ℕ → List ℕ → Option S → Outcome (Loaded × ℕ)
  load old blank avail_pid path none = fault terminated
  load old blank avail_pid path (some file) = do
    let (header, s) = scan_numbers 2 file
    let (priority, size) = store_header header old.priority old.pcb.size
    text ← load_text blank size 0 none s
    ok (
      record {
        pcb = record old.pcb { pid = avail_pid; text = text; size = size; pc = 0 };
        priority = priority;
        bp = 2 ^ 10;
        path = take 16 path;
      },
      (avail_pid + 1) % 2 ^ 32,
    )
