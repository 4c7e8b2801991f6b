-- ===== src/Loader/Startable.antt =====
-- What holds of every process that load returns, whatever the file.
use hk252_co2017_nhom2_btl.Prelude.{
  Always, Always-trans, List, Option, Outcome, [], ap, arith, fault, if◌then◌else◌, length, ltb,
  none, ok, out_of_bounds, refl, some, suc, sym, true, zero, ℕ, ◌+◌, ◌∙◌, ◌∷◌, ◌≡◌,
}
use hk252_co2017_nhom2_btl.Cpu.{Opcode, Inst}
use hk252_co2017_nhom2_btl.Loader.{
  get_opcode, Scanner, store_args, store_word, Loaded, scan_args, load_inst, load_text,
  store_header, load,
}
use hk252_co2017_nhom2_btl.Loader.Words.{get_opcode_iff}
use hk252_co2017_nhom2_btl.Loader.Load.{is_short}

-- All instructions have words that fit the buffer.
abbrev pub IsShort : List Inst → Type 0
IsShort [] = Unit
IsShort (ins ∷ text) = (is_short ins.opcode ≡ true) × IsShort text

store_args-opcode : (args : List ℕ) (ins : Inst) → (store_args args ins).opcode ≡ ins.opcode
unfolding store_args
store_args-opcode [] ins = refl
store_args-opcode (a ∷ []) ins = refl
store_args-opcode (a ∷ b ∷ []) ins = refl
store_args-opcode (a ∷ b ∷ c ∷ []) ins = refl
store_args-opcode (a ∷ b ∷ c ∷ d ∷ rest) ins = refl

abbrev Fits : List ℕ → Type 0
Fits word = ltb (length word) 10 ≡ true

abbrev FitsIfAny : Option (List ℕ) → Type 0
FitsIfAny none = Unit
FitsIfAny (some word) = Fits word

store_word-Fits :
    (buffer word : Option (List ℕ)) → FitsIfAny buffer → Always Fits (store_word buffer word)
unfolding store_word
store_word-Fits none none h = tt
store_word-Fits (some opt) none h = h
store_word-Fits none (some word) h = fitting word
  where
    fitting : (w : List ℕ) → Always Fits (if ltb (length w) 10 then ok w else fault out_of_bounds)
    fitting w = ground arith
store_word-Fits (some opt) (some word) h = ground arith

-- A word that fits and is one of the known ones belongs to a short instruction.
get_opcode-is_short : (opt : List ℕ) → Fits opt → Always (λ op. is_short op ≡ true) (get_opcode opt)
get_opcode-is_short opt fits = known (get_opcode opt) refl
  where
    known : (r : Outcome Opcode) → get_opcode opt ≡ r → Always (λ op. is_short op ≡ true) r
    known (ok op) e = ap (λ w. ltb (length w) 10) (sym ((get_opcode_iff opt op).0 e)) ∙ fits
    known (fault e) q = tt

module _ {S : Type 0} (sc : Scanner S) where
  load_inst-short :
      (blank : Inst) (buffer : Option (List ℕ)) (s : S)
      → FitsIfAny buffer
      → Always (λ r. (is_short r.0.opcode ≡ true) × Fits r.1) (load_inst sc blank buffer s)
  unfolding load_inst
  load_inst-short blank buffer s h =
      let after = λ (r : Inst × List ℕ × S). (is_short r.0.opcode ≡ true) × Fits r.1 in
      Always-trans Fits after _ _ (store_word-Fits buffer (sc.scan_word s).0 h) λ opt fits.
        Always-trans (λ op. is_short op ≡ true) after _ _ (get_opcode-is_short opt fits)
          λ op short. (
            ap is_short (
                  store_args-opcode (scan_args sc op (sc.scan_word s).1).0
                    (record blank { opcode = op }))
                ∙ short,
            fits,
          )

  load_text-IsShort :
      (blank : ℕ → Inst) (left i : ℕ) (buffer : Option (List ℕ)) (s : S)
      → FitsIfAny buffer
      → Always (λ text. (length text ≡ left) × IsShort text) (load_text sc blank left i buffer s)
  unfolding load_text
  load_text-IsShort blank zero i buffer s h = (refl, tt)
  load_text-IsShort blank (suc left) i buffer s h =
      Always-trans (λ r. (is_short r.0.opcode ≡ true) × Fits r.1)
        (λ text. (length text ≡ suc left) × IsShort text) _ _ (load_inst-short (blank i) buffer s h)
        λ r good.
          Always-trans (λ text. (length text ≡ left) × IsShort text)
            (λ text. (length text ≡ suc left) × IsShort text) _ _
            (load_text-IsShort blank left (i + 1) (some r.1) r.2 good.1)
            λ rest short. (ap suc short.0, (good.0, short.1))

  -- What every loaded process satisfies.
  abbrev pub IsStartable : ℕ → Loaded × ℕ → Type 0
  IsStartable avail_pid r =
      (r.0.pcb.pid ≡ avail_pid)
      × (r.0.pcb.pc ≡ 0)
      × (length r.0.pcb.text ≡ r.0.pcb.size)
      × IsShort r.0.pcb.text

  -- Whatever the file holds, a process that load returns has the process number that was next, its
  -- counter at 0, as many instructions as its size says, and only instructions whose words have
  -- fewer than 10 bytes.
  pub load-IsStartable :
      (old : Loaded) (blank : ℕ → Inst) (avail_pid : ℕ) (path : List ℕ) (file : Option S)
      → Always (IsStartable avail_pid) (load sc old blank avail_pid path file)
  unfolding load
  load-IsStartable old blank avail_pid path none = tt
  load-IsStartable old blank avail_pid path (some file) =
      Always-trans
        (λ text.
          (length text ≡ (store_header sc (sc.scan_numbers 2 file).0 old.priority old.pcb.size).1)
          × IsShort text)
        (IsStartable avail_pid) _ _
        (load_text-IsShort blank
          (store_header sc (sc.scan_numbers 2 file).0 old.priority old.pcb.size).1 0 none
          (sc.scan_numbers 2 file).1 tt)
        λ text short. (refl, refl, short.0, short.1)
