-- ===== src/Loader/Words.antt =====
-- The words of the instructions, and get_opcode as their inverse.
use hk252_co2017_nhom2_btl.Prelude.{
  Bool-cases, List, Outcome, [], ap, arith, if◌then◌else◌, inl, inr, ok, refl, sym, true, ℕ, ◌↔◌,
  ◌∙◌, ◌∷◌, ◌≡◌,
}
use hk252_co2017_nhom2_btl.Cpu.{
  Opcode, calc, alloc, free, read, write, kmalloc, kmem_cache_create, kmem_cache_alloc,
  copy_from_user, copy_to_user, syscall,
}
use hk252_co2017_nhom2_btl.Loader.{codes, strcmp_same, get_opcode}

-- The word of an instruction.
abbrev pub word_of : Opcode → List ℕ
word_of calc = codes "calc"
word_of alloc = codes "alloc"
word_of free = codes "free"
word_of read = codes "read"
word_of write = codes "write"
word_of kmalloc = codes "kmalloc"
word_of kmem_cache_create = codes "kmem_cache_create"
word_of kmem_cache_alloc = codes "kmem_cache_alloc"
word_of copy_from_user = codes "copy_from_user"
word_of copy_to_user = codes "copy_to_user"
word_of syscall = codes "syscall"

strcmp_same-eq : (xs ys : List ℕ) → strcmp_same xs ys ≡ true → xs ≡ ys
unfolding strcmp_same
strcmp_same-eq [] [] h = refl
strcmp_same-eq [] (y ∷ ys) h = absurd (cc h)
strcmp_same-eq (x ∷ xs) [] h = absurd (cc h)
strcmp_same-eq (x ∷ xs) (y ∷ ys) h = ground (arith, strcmp_same-eq xs ys)

word_of-get_opcode : (op : Opcode) → get_opcode (word_of op) ≡ ok op
unfolding get_opcode strcmp_same
word_of-get_opcode calc = refl
word_of-get_opcode alloc = refl
word_of-get_opcode free = refl
word_of-get_opcode read = refl
word_of-get_opcode write = refl
word_of-get_opcode kmalloc = refl
word_of-get_opcode kmem_cache_create = refl
word_of-get_opcode kmem_cache_alloc = refl
word_of-get_opcode copy_from_user = refl
word_of-get_opcode copy_to_user = refl
word_of-get_opcode syscall = refl

-- One test of get_opcode: where it holds, the word is known.
abbrev Reads : List ℕ → Outcome Opcode → Type 0
Reads opt r = (op : Opcode) → r ≡ ok op → opt ≡ word_of op

test-Reads :
    (opt : List ℕ) (op : Opcode) (rest : Outcome Opcode)
    → Reads opt rest
    → Reads opt (if strcmp_same opt (word_of op) then ok op else rest)
test-Reads opt op rest later op' h = elim (Bool-cases (strcmp_same opt (word_of op))) [
  | inl same ↦
      strcmp_same-eq opt (word_of op) same
      ∙ ap word_of (cc (sym (ap (λ b. if b then ok op else rest) same) ∙ h))
  | inr other ↦ later op' (ground (arith, h, other))
]

get_opcode-Reads : (opt : List ℕ) → Reads opt (get_opcode opt)
unfolding get_opcode
get_opcode-Reads opt = test-Reads opt calc _ (
    test-Reads opt alloc _ (
      test-Reads opt free _ (
        test-Reads opt read _ (
          test-Reads opt write _ (
            test-Reads opt kmalloc _ (
              test-Reads opt kmem_cache_create _ (
                test-Reads opt kmem_cache_alloc _ (
                  test-Reads opt copy_from_user _ (
                    test-Reads opt copy_to_user _
                      (test-Reads opt syscall _ (λ op h. absurd (cc h))))))))))))

-- get_opcode yields an opcode exactly for the word that spells it in the table of words, one for
-- each opcode.
pub get_opcode_iff : (opt : List ℕ) (op : Opcode) → (get_opcode opt ≡ ok op) ↔ (opt ≡ word_of op)
get_opcode_iff opt op = (get_opcode-Reads opt op, λ e. ap get_opcode e ∙ word_of-get_opcode op)
