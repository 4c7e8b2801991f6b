-- ===== src/Segmented/Access.antt =====
-- Addresses in segments and pages, and what the accesses report.
use hk252_co2017_nhom2_btl.Prelude.{
  arith, char_to_arg, false, get_elem?, length, null, ok, pos, pos_part, refl, set, some, suc,
  success, zero, ℕ, ◌*◌, ◌+◌, ◌<◌, ◌^◌, ◌≡◌,
}
use hk252_co2017_nhom2_btl.Segmented.{
  Memory, SegPcb, get_offset, get_first_lv, get_second_lv, scan_rows, get_trans_table, translate,
  reserve, alloc_mem, free_data, free_mem, read_mem, write_mem, alloc, read, write,
}
use hk252_co2017_nhom2_btl.Prelude.Bits.{bit_and-ones}

pub get_second_lv-digits :
    (addr : ℕ)
    → addr < 2 ^ 64
    → (get_first_lv addr * 2 ^ 15 + get_second_lv addr * 2 ^ 10 + get_offset addr ≡ addr)
      × (get_second_lv addr < 2 ^ 5)
      × (get_offset addr < 2 ^ 10)
unfolding get_first_lv get_second_lv get_offset
get_second_lv-digits addr h = omega (arith, bit_and-ones 10 addr)

scan_rows-null : (left : ℕ) → scan_rows left ≡ null
unfolding scan_rows
scan_rows-null zero = refl
scan_rows-null (suc left) = scan_rows-null left

-- A read stores the byte that was in its local, and reports success.
pub read-uninitialised :
    (m : Memory) (junk byte : ℕ) (proc : SegPcb) (source offset destination address : ℕ)
    → get_elem? proc.regs source ≡ some address
    → destination < length proc.regs
    → read m junk byte proc source offset destination
      ≡ ok (success, record proc { regs = set proc.regs destination (char_to_arg byte) })
unfolding read read_mem translate get_trans_table
read-uninitialised m junk byte proc source offset destination address e lt =
    ground (arith, e, scan_rows-null (pos_part proc.page_table.size))

pub write-refused :
    (m : Memory) (junk : ℕ) (proc : SegPcb) (byte destination offset address : ℕ)
    → get_elem? proc.regs destination ≡ some address
    → write m junk proc byte destination offset ≡ ok (pos 1, m)
unfolding write write_mem translate get_trans_table
write-refused m junk proc byte destination offset address e =
    ground (arith, e, scan_rows-null (pos_part proc.page_table.size))

pub alloc-refused :
    (m : Memory) (proc : SegPcb) (size reg_index : ℕ)
    → m.mem_lock ≡ false
    → alloc m proc size reg_index ≡ ok (pos 1, m, proc)
unfolding alloc alloc_mem reserve
alloc-refused m proc size reg_index free = ground (arith, free)

pub free_data-succeeds :
    (proc : SegPcb) (reg_index address : ℕ)
    → get_elem? proc.regs reg_index ≡ some address
    → free_data proc reg_index ≡ ok success
unfolding free_data free_mem
free_data-succeeds proc reg_index address e = ground (arith, e)
