-- ===== src/Segmented/Run/Steps.antt =====
-- The steps of a process on memory in segments and pages: what `run` leaves of it.
use hk252_co2017_nhom2_btl.Prelude.{
  List, Returns, [], ap, ap₂, arith, char_to_arg, dec_lt, drop, drop-get_elem?, drop-length, false,
  get_elem?, get_elem?_total, inl, inr, length, length-set, min, ok, pos, refl, set, some, suc,
  success, sym, take, zero, ℕ, ℤ, ◌%◌, ◌+◌, ◌<◌, ◌^◌, ◌∙◌, ◌∷◌, ◌≡◌, ◌≤◌, ◌⊎◌,
}
use mathlib.Core.Path.{subst}
use hk252_co2017_nhom2_btl.Mm.{Krnl}
use hk252_co2017_nhom2_btl.Cpu.{Inst, Opcode, calc, syscall, u32}
use hk252_co2017_nhom2_btl.Syscall.{libsyscall}
use hk252_co2017_nhom2_btl.Segmented.{Memory, SegPcb}
use hk252_co2017_nhom2_btl.Segmented.Access.{
  alloc-refused, free_data-succeeds, read-uninitialised, write-refused,
}
use hk252_co2017_nhom2_btl.Segmented.Run.{SegProc, SegSurroundings, seg_execute, seg_run}
use hk252_co2017_nhom2_btl.Cpu

-- What an instruction needs to run: its registers are among the `count`
-- that there are, and a system call returns.
abbrev pub Fits : SegSurroundings → ℕ → Krnl → ℕ → Inst → Opcode → Type 0
Fits s pid krnl count ins Cpu.free = u32 ins.arg_0 < count
Fits s pid krnl count ins Cpu.read = (u32 ins.arg_0 < count) × (u32 ins.arg_2 < count)
Fits s pid krnl count ins Cpu.write = u32 ins.arg_1 < count
Fits s pid krnl count ins syscall =
    Returns
      (libsyscall s.table s.junk s.value krnl pid (u32 ins.arg_0) ins.arg_1 ins.arg_2 ins.arg_3)
Fits s pid krnl count ins op = Unit

-- What an instruction leaves in the registers: a read stores the byte that was in its local.
abbrev pub registers_after : ℕ → Inst → Opcode → List ℕ → List ℕ
registers_after byte ins Cpu.read regs = set regs (u32 ins.arg_2) (char_to_arg byte)
registers_after byte ins op regs = regs

abbrev pub all_registers : ℕ → List Inst → List ℕ → List ℕ
all_registers byte [] regs = regs
all_registers byte (ins ∷ text) regs =
    all_registers byte text (registers_after byte ins ins.opcode regs)

abbrev pub with_regs : SegProc → List ℕ → SegPcb
with_regs proc regs = record proc.seg { regs = regs }

pub seg_execute-runs :
    (s : SegSurroundings) (proc : SegProc) (m : Memory) (ins : Inst) (op : Opcode)
    → m.mem_lock ≡ false
    → Fits s proc.pid proc.krnl (length proc.seg.regs) ins op
    → (stat : ℤ) × (seg_execute s proc m ins op
        ≡ ok (stat, with_regs proc (registers_after s.byte ins op proc.seg.regs), m))
unfolding seg_execute
seg_execute-runs s proc m ins calc on fit = (_, refl)
seg_execute-runs s proc m ins Cpu.alloc on fit =
    (pos 1, rw (alloc-refused m proc.seg (u32 ins.arg_0) (u32 ins.arg_1) on) refl)
seg_execute-runs s proc m ins Cpu.free on fit =
    let (r, e) = get_elem?_total proc.seg.regs (u32 ins.arg_0) fit in
    (success, rw (free_data-succeeds proc.seg (u32 ins.arg_0) r e) refl)
seg_execute-runs s proc m ins Cpu.read on (from, to) =
    let (r, e) = get_elem?_total proc.seg.regs (u32 ins.arg_0) from in
    (
      success,
      rw
          (read-uninitialised m s.physical s.byte proc.seg (u32 ins.arg_0) (u32 ins.arg_1)
            (u32 ins.arg_2) r e to)
          refl,
    )
seg_execute-runs s proc m ins Cpu.write on fit =
    let (r, e) = get_elem?_total proc.seg.regs (u32 ins.arg_1) fit in
    (
      pos 1,
      rw (write-refused m s.physical proc.seg (ins.arg_0 % 256) (u32 ins.arg_1) (u32 ins.arg_2) r e)
          refl,
    )
seg_execute-runs s proc m ins syscall on (stat, e) = (stat, rw e refl)
seg_execute-runs s proc m ins Cpu.kmalloc on fit = (_, refl)
seg_execute-runs s proc m ins Cpu.kmem_cache_create on fit = (_, refl)
seg_execute-runs s proc m ins Cpu.kmem_cache_alloc on fit = (_, refl)
seg_execute-runs s proc m ins Cpu.copy_from_user on fit = (_, refl)
seg_execute-runs s proc m ins Cpu.copy_to_user on fit = (_, refl)

-- Where the counter stands after `n` steps.
abbrev pub pc_after : ℕ → SegProc → ℕ
pc_after n proc = min (proc.pc + n) proc.size

abbrev pub moved : SegProc → ℕ → List ℕ → SegProc
moved proc pc regs = record proc { pc = pc; seg = with_regs proc regs }

-- The process after `n` steps
abbrev pub ran : ℕ → ℕ → SegProc → SegProc
ran byte n proc =
    moved proc (pc_after n proc)
      (all_registers byte (take n (drop proc.pc proc.text)) proc.seg.regs)

-- A process whose instructions can all run
pub record IsReady (s : SegSurroundings) (proc : SegProc) : Type 0 where
  pub inside : proc.pc ≤ proc.size
  pub sized : proc.size ≡ length proc.text
  pub small : proc.size < 2 ^ 32
  pub fits :
      (i : ℕ) (ins : Inst)
      → get_elem? proc.text i ≡ some ins
      → Fits s proc.pid proc.krnl (length proc.seg.regs) ins ins.opcode

-- The instruction at the counter, or none at the end.
next_inst :
    (s : SegSurroundings) (proc : SegProc)
    → IsReady s proc
    → ((ins : Inst) × (get_elem? proc.text proc.pc ≡ some ins)
        × (drop proc.pc proc.text ≡ ins ∷ drop (suc proc.pc) proc.text)
        × (proc.pc < proc.size))
      ⊎ ((drop proc.pc proc.text ≡ []) × (proc.pc ≡ proc.size))
next_inst s proc ready = elim (dec_lt proc.pc proc.size) [
  | yes lt ↦
      (let (ins, e) = get_elem?_total proc.text proc.pc (omega (arith, lt, ready.sized)) in
        inl (ins, e, drop-get_elem? proc.text proc.pc e, lt))
  | no last ↦
      (let e : proc.pc ≡ proc.size = omega (arith, ready.inside, last) in
        inr (ap (λ k. drop k proc.text) (e ∙ ready.sized) ∙ drop-length proc.text, e))
]

seg_run-executes :
    (s : SegSurroundings) (proc : SegProc) (m m' : Memory) (ins : Inst) (stat : ℤ) (seg : SegPcb)
    → proc.pc < proc.size
    → get_elem? proc.text proc.pc ≡ some ins
    → seg_execute s proc m ins ins.opcode ≡ ok (stat, seg, m')
    → seg_run s proc m ≡ ok (stat, record proc { pc = (proc.pc + 1) % 2 ^ 32; seg = seg }, m')
unfolding seg_run
seg_run-executes s proc m m' ins stat seg lt e runs = ground (arith, lt, e, runs)

seg_run-refused :
    (s : SegSurroundings) (proc : SegProc) (m : Memory)
    → proc.pc ≡ proc.size
    → seg_run s proc m ≡ ok (pos 1, proc, m)
unfolding seg_run
seg_run-refused s proc m e = ground (arith, e)

-- The process after one step, of an instruction or none.
ran-one :
    (byte : ℕ) (proc : SegProc) (ins : Inst) (rest : List Inst)
    → drop proc.pc proc.text ≡ ins ∷ rest
    → proc.pc < proc.size
    → ran byte 1 proc ≡ moved proc (suc proc.pc) (registers_after byte ins ins.opcode proc.seg.regs)
ran-one byte proc ins rest d lt =
    ap₂ (moved proc) (omega (arith, lt)) (ap (λ xs. all_registers byte (take 1 xs) proc.seg.regs) d)

ran-none :
    (byte n : ℕ) (proc : SegProc)
    → drop proc.pc proc.text ≡ []
    → proc.pc ≡ proc.size
    → ran byte n proc ≡ proc
ran-none byte n proc d e =
    ap₂ (moved proc) (omega (arith, e))
      (ap (λ xs. all_registers byte (take n xs) proc.seg.regs) d ∙ none_taken n)
  where
    none_taken : (n : ℕ) → all_registers byte (take n []) proc.seg.regs ≡ proc.seg.regs
    none_taken zero = refl
    none_taken (suc n) = refl

pub seg_run-ran :
    (s : SegSurroundings) (proc : SegProc) (m : Memory)
    → m.mem_lock ≡ false
    → IsReady s proc
    → (stat : ℤ) × (seg_run s proc m ≡ ok (stat, ran s.byte 1 proc, m))
seg_run-ran s proc m on ready = elim (next_inst s proc ready) [
  | inl (ins, e, d, lt) ↦
      (let (stat, runs) = seg_execute-runs s proc m ins ins.opcode on (ready.fits proc.pc ins e) in
        let regs : List ℕ = registers_after s.byte ins ins.opcode proc.seg.regs in
        let pc : (proc.pc + 1) % 2 ^ 32 ≡ suc proc.pc = omega (arith, lt, ready.small) in
        (
          stat,
          seg_run-executes s proc m m ins stat (with_regs proc regs) lt e runs
              ∙ ap (λ p. ok (stat, p, m))
                  (ap (λ k. moved proc k regs) pc ∙ sym (ran-one s.byte proc ins _ d lt)),
        ))
  | inr (d, e) ↦ (
    pos 1,
    seg_run-refused s proc m e ∙ ap (λ p. ok (pos 1, p, m)) (sym (ran-none s.byte 1 proc d e)),
  )
]

-- One step and then `n` are `suc n`.
pub ran-ran :
    (s : SegSurroundings) (byte n : ℕ) (proc : SegProc)
    → IsReady s proc
    → ran byte n (ran byte 1 proc) ≡ ran byte (suc n) proc
ran-ran s byte n proc ready = elim (next_inst s proc ready) [
  | inl (ins, e, d, lt) ↦
      ap (ran byte n) (ran-one byte proc ins _ d lt)
      ∙ ap₂ (moved proc) (omega (arith, lt))
          (ap (λ xs. all_registers byte (take (suc n) xs) proc.seg.regs) (sym d))
  | inr (d, e) ↦
      ap (ran byte n) (ran-none byte 1 proc d e)
      ∙ ran-none byte n proc d e
      ∙ sym (ran-none byte (suc n) proc d e)
]

length-registers_after :
    (byte : ℕ) (ins : Inst) (op : Opcode) (regs : List ℕ)
    → length (registers_after byte ins op regs) ≡ length regs
length-registers_after byte ins Cpu.read regs = length-set regs (u32 ins.arg_2) (char_to_arg byte)
length-registers_after byte ins op regs = refl

pub ran-IsReady :
    (s : SegSurroundings) (proc : SegProc) → IsReady s proc → IsReady s (ran s.byte 1 proc)
ran-IsReady s proc ready = elim (next_inst s proc ready) [
  | inl (ins, e, d, lt) ↦ subst (IsReady s) (sym (ran-one s.byte proc ins _ d lt)) (record {
    inside = omega (arith, lt);
    sized = ready.sized;
    small = ready.small;
    fits = λ i other at.
        subst (λ n. Fits s proc.pid proc.krnl n other other.opcode)
          (sym (length-registers_after s.byte ins ins.opcode proc.seg.regs))
          (ready.fits i other at);
  })
  | inr (d, e) ↦ subst (IsReady s) (sym (ran-none s.byte 1 proc d e)) ready
]
