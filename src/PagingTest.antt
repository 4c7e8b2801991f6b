-- ===== src/PagingTest.antt =====
-- main of src/paging.c, a test of the build without MM_PAGING: two processes of one program take turns
-- on the memory of src/mem.c, which dump prints at the end.
pub mod Silent
use hk252_co2017_nhom2_btl.Prelude.{
  List, Option, Outcome, false, ok, pos, replicate, suc, zero, ℕ, ◌>>=◌, ◌>>◌,
}
use hk252_co2017_nhom2_btl.Mm.{Krnl}
use hk252_co2017_nhom2_btl.Cpu.{Inst}
use hk252_co2017_nhom2_btl.Loader.{Loaded, Scanner, codes, load}
use hk252_co2017_nhom2_btl.Segmented.{Memory, PageStat, PageTable, num_pages, ram_size}
use hk252_co2017_nhom2_btl.Segmented.Run.{SegProc, SegSurroundings, seg_run}
use hk252_co2017_nhom2_btl.Printing.{DumpLine, dump}

-- What malloc gives load for a process: the process, its instructions, its kernel, which load does
-- not set, and its page table, which it does not fill.
pub record Blocks : Type 0 where
  pub old : Loaded
  pub blank : ℕ → Inst
  pub krnl : Krnl
  pub page_table : PageTable

-- A process as `run` sees it
abbrev pub loaded : Blocks → Loaded → SegProc
loaded b p = record {
  pid = p.pcb.pid;
  text = p.pcb.text;
  size = p.pcb.size;
  pc = p.pcb.pc;
  krnl = b.krnl;
  seg = record { regs = p.pcb.regs; page_table = b.page_table; bp = p.bp };
}

abbrev pub zero_stat : PageStat
zero_stat = record { proc = 0; index = pos 0; next = pos 0 }

-- The static variables of mem.c at the start of a program, which does not call init_mem.
pub statics : Memory
statics = record {
  ram = replicate ram_size 0;
  mem_stat = replicate num_pages zero_stat;
  mem_lock = false;
}

-- The `for`, with `left` rounds to go; `run` does not change `proc->code->size`.
pub take_turns :
    SegSurroundings → ℕ → SegProc → SegProc → Memory → Outcome (SegProc × SegProc × Memory)
take_turns s zero ld proc m = ok (ld, proc, m)
take_turns s (suc left) ld proc m = do
  (_, proc', m1) ← seg_run s proc m
  (_, ld', m2) ← seg_run s ld m1
  take_turns s left ld' proc' m2

-- main, on what fopen gives for the path, and on the blocks of the two calls of load. The first
-- process number is 1.
pub paging_main :
    {S : Type 0}
    → Scanner S
    → SegSurroundings
    → Option S
    → Blocks
    → Blocks
    → Outcome (SegProc × SegProc × Memory × List DumpLine)
paging_main sc s file b_ld b_proc = do
  (ld, avail_pid) ← load sc b_ld.old b_ld.blank 1 (codes "input/p0") file
  (proc, _) ← load sc b_proc.old b_proc.blank avail_pid (codes "input/p0") file
  (ld', proc', m) ← take_turns s proc.pcb.size (loaded b_ld ld) (loaded b_proc proc) statics
  lines ← dump m
  ok (ld', proc', m, lines)
