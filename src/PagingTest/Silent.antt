-- ===== src/PagingTest/Silent.antt =====
-- What main of src/paging.c leaves and prints.
use hk252_co2017_nhom2_btl.Prelude.{Option, get_elem?, length, some, ℕ, ◌<◌, ◌^◌, ◌≡◌}
use hk252_co2017_nhom2_btl.Cpu.{Inst}
use hk252_co2017_nhom2_btl.Loader.{Loaded, Scanner}
use hk252_co2017_nhom2_btl.Segmented.Run.{SegProc, SegSurroundings}
use hk252_co2017_nhom2_btl.Segmented.Run.Steps.{Fits, all_registers, moved}
use hk252_co2017_nhom2_btl.PagingTest.{Blocks}

-- The process after its last instruction
abbrev ended : ℕ → SegProc → SegProc
ended byte proc = moved proc proc.size (all_registers byte proc.text proc.seg.regs)

module _ {S : Type 0} (sc : Scanner S) (s : SegSurroundings) (file : Option S) where
  -- The instructions of a loaded process can run.
  abbrev CanRun : Blocks → Loaded → Type 0
  CanRun b p =
      (p.pcb.size < 2 ^ 32)
      × ((i : ℕ) (ins : Inst)
          → get_elem? p.pcb.text i ≡ some ins
          → Fits s p.pcb.pid b.krnl (length p.pcb.regs) ins ins.opcode)
