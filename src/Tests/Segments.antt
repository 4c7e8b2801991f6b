-- ===== src/Tests/Segments.antt =====
-- The build without paging (src/mem.c, src/cpu.c), and its test (src/paging.c).
use hk252_co2017_nhom2_btl.Prelude.{List, [], char_to_arg, null, pos, replicate, set, ℕ, ◌^◌, ◌∷◌}
use hk252_co2017_nhom2_btl.Cpu.{Inst, calc, alloc, read, write}
use hk252_co2017_nhom2_btl.Loader.{Loaded, codes}
use hk252_co2017_nhom2_btl.Loader.Load.{Line, filled}
use mathlib.Core.Option
use hk252_co2017_nhom2_btl.Segmented.Run.{SegProc, SegSurroundings}
use hk252_co2017_nhom2_btl.PagingTest.{Blocks, loaded}
use hk252_co2017_nhom2_btl.Tests.Loading.{Token, number, word}

-- The file "1 3", "alloc 300 1", "write 9 1 2", "read 1 16 2".
abbrev file : List Token
file =
    number 1
    ∷ number 3
    ∷ word (codes "alloc")
    ∷ number 300
    ∷ number 1
    ∷ word (codes "write")
    ∷ number 9
    ∷ number 1
    ∷ number 2
    ∷ word (codes "read")
    ∷ number 1
    ∷ number 16
    ∷ number 2
    ∷ []

abbrev lines : List Line
lines = (alloc, 300 ∷ 1 ∷ []) ∷ (write, 9 ∷ 1 ∷ 2 ∷ []) ∷ (read, 1 ∷ 16 ∷ 2 ∷ []) ∷ []

abbrev blank : ℕ → Inst
blank i = record { opcode = calc; arg_0 = 7; arg_1 = 7; arg_2 = 7; arg_3 = 7 }

abbrev text : List Inst
text = filled blank 0 lines

abbrev blocks : Blocks
blocks = record {
  old = record {
    pcb = record { pid = 0; text = []; size = 5; pc = 9; regs = replicate 10 2048 };
    priority = 0;
    bp = 0;
    path = [];
  };
  blank = blank;
  krnl = record { mm = null; mram = null; active_mswp = null };
  page_table = record { rows = []; size = pos 4 };
}

-- The process with number `pid`
abbrev made : ℕ → Loaded
made pid = record {
  pcb = record { pid = pid; text = text; size = 3; pc = 0; regs = replicate 10 2048 };
  priority = 1;
  bp = 2 ^ 10;
  path = codes "input/p0";
}

abbrev locals : SegSurroundings
locals = record { table = []; junk = λ i. 0; value = 0; physical = 5; byte = 200 }

-- A process at its end, after its read
abbrev at_end : ℕ → SegProc
at_end pid = record (loaded blocks (made pid)) {
  pc = 3;
  seg = record (loaded blocks (made pid)).seg {
    regs = set (replicate 10 2048) 2 (char_to_arg 200);
  };
}

-- What holds of each instruction holds of the one at a position.
abbrev Each : (Inst → Type 0) → List Inst → Type 0
Each P [] = Unit
Each P (ins ∷ rest) = P ins × Each P rest
