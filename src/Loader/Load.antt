-- ===== src/Loader/Load.antt =====
-- load on a file that spells a program.
use hk252_co2017_nhom2_btl.Prelude.{
  Bool, List, Option, [], arith, fault, get_elem?, if◌then◌else◌, length, ltb, none, ok,
  out_of_bounds, refl, some, suc, take, true, zero, ℕ, ◌%◌, ◌&&◌, ◌+◌, ◌^◌, ◌∷◌, ◌≡◌,
}
use hk252_co2017_nhom2_btl.Cpu.{
  Opcode, Inst, calc, alloc, free, read, write, kmalloc, kmem_cache_create, kmem_cache_alloc,
  copy_from_user, copy_to_user, syscall,
}
use hk252_co2017_nhom2_btl.Loader.{
  Scanner, store_args, store_word, Loaded, scan_args, load_inst, load_text, store_header, load,
}
use hk252_co2017_nhom2_btl.Loader.Words.{word_of, get_opcode_iff}

-- The word of the instruction fits the buffer.
abbrev pub is_short : Opcode → Bool
is_short op = ltb (length (word_of op)) 10

-- An instruction as it stands in a file: its word and the numbers after it.
abbrev pub Line : Type 0
Line = Opcode × List ℕ

unfoldable pub all_short : List Line → Bool
all_short [] = true
all_short ((op, args) ∷ lines) = is_short op && all_short lines

-- How many numbers stand after the word of an instruction; none where they are all that stand on the
-- line, up to four.
abbrev pub numbers_after : Opcode → Option ℕ
numbers_after calc = some 0
numbers_after free = some 1
numbers_after alloc = some 2
numbers_after kmalloc = some 2
numbers_after kmem_cache_alloc = some 2
numbers_after kmem_cache_create = some 3
numbers_after read = some 3
numbers_after write = some 3
numbers_after copy_from_user = none
numbers_after copy_to_user = none
numbers_after syscall = none

-- The number at position `k` of a line, or what the field held before
abbrev pub field : List ℕ → ℕ → ℕ → ℕ
field args k before = elim (get_elem? args k) [ none ↦ before | some n ↦ n ]

-- The instruction of a line: its numbers are its arguments, in order.
abbrev pub instruction : Inst → Line → Inst
instruction blank (op, args) = record {
  opcode = op;
  arg_0 = field args 0 blank.arg_0;
  arg_1 = field args 1 blank.arg_1;
  arg_2 = field args 2 blank.arg_2;
  arg_3 = field args 3 blank.arg_3;
}

-- The instructions of the lines, the first of them at `text[i]`.
unfoldable pub filled : (ℕ → Inst) → ℕ → List Line → List Inst
filled blank i [] = []
filled blank i (line ∷ lines) = instruction (blank i) line ∷ filled blank (i + 1) lines

store_args-instruction :
    (blank : Inst) (op : Opcode) (args : List ℕ)
    → store_args args (record blank { opcode = op }) ≡ instruction blank (op, args)
unfolding store_args
store_args-instruction blank op [] = refl
store_args-instruction blank op (a ∷ []) = refl
store_args-instruction blank op (a ∷ b ∷ []) = refl
store_args-instruction blank op (a ∷ b ∷ c ∷ []) = refl
store_args-instruction blank op (a ∷ b ∷ c ∷ d ∷ rest) = refl

module _ {S : Type 0} (sc : Scanner S) where
  -- The conversions read so many numbers from the stream, or those of the rest of the line.
  abbrev pub ReadsNumbers : Option ℕ → S → List ℕ → S → Type 0
  ReadsNumbers (some zero) s args s' = (args ≡ []) × (s ≡ s')
  ReadsNumbers (some (suc n)) s args s' =
      (sc.scan_numbers (suc n) s ≡ (args, s')) × (length args ≡ suc n)
  ReadsNumbers none s args s' = sc.scan_line s ≡ (args, s')

  scan_args-numbers :
      (op : Opcode) (s s' : S) (args : List ℕ)
      → ReadsNumbers (numbers_after op) s args s'
      → scan_args sc op s ≡ (args, s')
  unfolding scan_args
  scan_args-numbers calc s s' args (e, f) = cc (e, f)
  scan_args-numbers free s s' args h = h.0
  scan_args-numbers alloc s s' args h = h.0
  scan_args-numbers kmalloc s s' args h = h.0
  scan_args-numbers kmem_cache_alloc s s' args h = h.0
  scan_args-numbers kmem_cache_create s s' args h = h.0
  scan_args-numbers read s s' args h = h.0
  scan_args-numbers write s s' args h = h.0
  scan_args-numbers copy_from_user s s' args h = h
  scan_args-numbers copy_to_user s s' args h = h
  scan_args-numbers syscall s s' args h = h

  -- The conversions read the lines from the stream, in order.
  pub data Spells : S → List Line → Type 0 where
    spells_end : {s : S} → Spells s []
    spells_next :
        {s s' s'' : S} {op : Opcode} {args : List ℕ} {lines : List Line}
        → sc.scan_word s ≡ (some (word_of op), s')
        → ReadsNumbers (numbers_after op) s' args s''
        → Spells s'' lines
        → Spells s ((op, args) ∷ lines)

  load_text-Spells :
      (blank : ℕ → Inst) (i : ℕ) (buffer : Option (List ℕ)) {s : S} {lines : List Line}
      → Spells s lines
      → load_text sc blank (length lines) i buffer s
        ≡ (if all_short lines then ok (filled blank i lines) else fault out_of_bounds)
  unfolding load_text load_inst store_word all_short filled
  load_text-Spells blank i buffer spells_end = refl
  load_text-Spells blank i none (spells_next {op} {args} w a rest) = ground (
    arith,
    w,
    scan_args-numbers op _ _ args a,
    store_args-instruction (blank i) op args,
    (get_opcode_iff (word_of op) op).1 refl,
    load_text-Spells blank (i + 1) (some (word_of op)) rest,
  )
  load_text-Spells blank i (some opt) (spells_next {op} {args} w a rest) = ground (
    arith,
    w,
    scan_args-numbers op _ _ args a,
    store_args-instruction (blank i) op args,
    (get_opcode_iff (word_of op) op).1 refl,
    load_text-Spells blank (i + 1) (some (word_of op)) rest,
  )

  -- Where the conversions read a priority, the number of lines and then the lines from the file,
  -- each the word of an instruction and as many numbers as it takes (none for calc, one for free,
  -- two for alloc, kmalloc and kmem_cache_alloc, three for kmem_cache_create, read and write, and
  -- for the other three those that stand on the line), load returns the process whose instructions
  -- are those of the lines, in order, with the numbers of a line in its argument fields, in order,
  -- and the other fields as they were; it has the next process number, the counter at 0 and the
  -- path cut to 16 bytes. This is so if the words of all lines fit the buffer of 10 bytes; if one
  -- does not, the buffer is written past its end.
  pub load-Spells :
      (old : Loaded) (blank : ℕ → Inst) (avail_pid priority : ℕ) (path : List ℕ) (file s : S)
      (lines : List Line)
      → sc.scan_numbers 2 file ≡ (priority ∷ length lines ∷ [], s)
      → Spells s lines
      → load sc old blank avail_pid path (some file) ≡ (
          if all_short lines
          then ok (
            record {
              pcb = record old.pcb {
                pid = avail_pid;
                text = filled blank 0 lines;
                size = length lines;
                pc = 0;
              };
              priority = priority;
              bp = 2 ^ 10;
              path = take 16 path;
            },
            (avail_pid + 1) % 2 ^ 32,
          )
          else fault out_of_bounds)
  unfolding load store_header
  load-Spells old blank avail_pid priority path file s lines h spells =
      ground (arith, h, load_text-Spells blank 0 none spells)
