-- ===== src/Tests/Loading.antt =====
-- Reading a program file (src/loader.c) and a configuration (src/os.c). A stream is the list of its words and numbers.
use hk252_co2017_nhom2_btl.Prelude.{
  Always, List, Option, [], arith, none, ok, pos, refl, some, suc, zero, ℕ, ◌^◌, ◌↔◌, ◌∷◌, ◌≡◌,
}
use hk252_co2017_nhom2_btl.Cpu.{Inst, calc, alloc, write}
use hk252_co2017_nhom2_btl.Loader.{codes, Scanner, Loaded, load, get_opcode}
use hk252_co2017_nhom2_btl.Loader.Load.{
  all_short, Line, spells_end, spells_next, filled, load-Spells,
}
use hk252_co2017_nhom2_btl.Os.{LdArg}
use hk252_co2017_nhom2_btl.Config.{read_config}
use hk252_co2017_nhom2_btl.Config.Read.{
  Entry, all_fit, args_of, numbers_end, numbers_next, entries_end, entries_next,
  read_config-Entries,
}
use hk252_co2017_nhom2_btl.Loader.Startable.{IsStartable, load-IsStartable}
use hk252_co2017_nhom2_btl.Loader.Words.{get_opcode_iff, word_of}

pub data Token : Type 0 where
  word : List ℕ → Token
  number : ℕ → Token

abbrev word_first : List Token → Option (List ℕ) × List Token
word_first [] = (none, [])
word_first (word w ∷ s) = (some w, s)
word_first (number n ∷ s) = (none, number n ∷ s)

abbrev numbers_first : ℕ → List Token → List ℕ × List Token
numbers_first zero s = ([], s)
numbers_first (suc k) [] = ([], [])
numbers_first (suc k) (word w ∷ s) = ([], word w ∷ s)
numbers_first (suc k) (number n ∷ s) = let (ns, s') = numbers_first k s in (n ∷ ns, s')

abbrev pub tokens : Scanner (List Token)
tokens = record {
  scan_word = word_first;
  scan_numbers = numbers_first;
  scan_line = numbers_first 4;
}

-- The file "1 2", "alloc 300 0", "calc".
abbrev file : List Token
file = number 1 ∷ number 2 ∷ word (codes "alloc") ∷ number 300 ∷ number 0 ∷ word (codes "calc") ∷ []

abbrev lines : List Line
lines = (alloc, 300 ∷ 0 ∷ []) ∷ (calc, []) ∷ []

abbrev blank : ℕ → Inst
blank i = record { opcode = calc; arg_0 = 7; arg_1 = 7; arg_2 = 7; arg_3 = 7 }

abbrev old : Loaded
old = record {
  pcb = record { pid = 0; text = []; size = 5; pc = 9; regs = [] };
  priority = 0;
  bp = 0;
  path = [];
}

load-Spells_example :
    load tokens old blank 4 (codes "input/proc/s0") (some file)
    ≡ ok (
      record {
        pcb = record { pid = 4; text = filled blank 0 lines; size = 2; pc = 0; regs = [] };
        priority = 1;
        bp = 2 ^ 10;
        path = codes "input/proc/s0";
      },
      5,
    )
unfolding all_short
load-Spells_example =
    load-Spells tokens old blank 4 1 (codes "input/proc/s0") file _ lines refl
      (spells_next refl (refl, refl) (spells_next refl (refl, refl) spells_end))

load-IsStartable_example :
    Always (IsStartable tokens 4) (load tokens old blank 4 (codes "input/proc/s0") (some file))
load-IsStartable_example = load-IsStartable tokens old blank 4 (codes "input/proc/s0") (some file)

-- The file "2 1 1", "2048 512 0 0 0", "3 s0 1".
abbrev entries : List Entry
entries = record { start_time = 3; name = codes "s0"; prio = 1 } ∷ []

abbrev config_file : List Token
config_file =
    number 2
    ∷ number 1
    ∷ number 1
    ∷ number 2048
    ∷ number 512
    ∷ number 0
    ∷ number 0
    ∷ number 0
    ∷ number 3
    ∷ word (codes "s0")
    ∷ number 1
    ∷ []

abbrev blank_arg : LdArg
blank_arg = record { path = []; start_time = 9; prio = 9 }

read_config-Entries_example :
    read_config tokens (λ i. blank_arg) (some config_file)
    ≡ ok (record {
      time_slot = pos 2;
      num_cpus = pos 1;
      num_processes = pos 1;
      memramsz = 2048;
      memswpsz = 512 ∷ 0 ∷ 0 ∷ 0 ∷ [];
      ld_processes = args_of entries;
    })
unfolding all_fit
read_config-Entries_example =
    read_config-Entries tokens (λ i. blank_arg) config_file _ _ _ 2 1 2048 (512 ∷ 0 ∷ 0 ∷ 0 ∷ [])
      entries refl
      (numbers_next refl
        (numbers_next refl (numbers_next refl (numbers_next refl (numbers_next refl numbers_end)))))
      refl (entries_next refl refl refl entries_end) (omega arith) (omega arith) (omega arith)

get_opcode_iff_example : (get_opcode (codes "write") ≡ ok write) ↔ (codes "write" ≡ word_of write)
get_opcode_iff_example = get_opcode_iff (codes "write") write
