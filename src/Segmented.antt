-- ===== src/Segmented.antt =====
-- src/mem.c, and alloc, free_data, read and write of src/cpu.c: memory in segments and pages, for the
-- build without MM_PAGING. `ram` holds the bytes of `_ram`.
pub mod Access
pub mod Run
use hk252_co2017_nhom2_btl.Prelude.{
  Bool, List, Outcome, Ptr, add64, bit_and, blocked, char_to_arg, false, fault, get_elem?,
  if◌then◌else◌, is_zero, length, ltb, none, null, ok, out_of_bounds, pos, pos_part, ptr, replicate,
  set, some, suc, success, true, uninitialised, wild, zero, ℕ, ℤ, ◌%◌, ◌*◌, ◌+◌, ◌-◌, ◌/◌, ◌==◌,
  ◌>>=◌, ◌>>◌, ◌^◌,
}

-- `struct trans_table_t` and `struct page_table_t`, of which a table has 32 rows
pub record TransTable : Type 0 where
  pub v_index : List ℕ
  pub size : ℤ

pub record PageTable : Type 0 where
  pub rows : List (ℕ × Ptr TransTable)
  pub size : ℤ

-- An entry of `_mem_stat`
pub record PageStat : Type 0 where
  pub proc : ℕ
  pub index : ℤ
  pub next : ℤ

-- The static variables of mem.c
pub record Memory : Type 0 where
  pub ram : List ℕ
  pub mem_stat : List PageStat
  pub mem_lock : Bool

-- The fields of `struct pcb_t` that these functions use
pub record SegPcb : Type 0 where
  pub regs : List ℕ
  pub page_table : PageTable
  pub bp : ℕ

abbrev pub offset_len : ℕ
offset_len = 10

abbrev pub page_len : ℕ
page_len = 5

abbrev pub page_size : ℕ
page_size = 2 ^ offset_len

abbrev pub num_pages : ℕ
num_pages = 2 ^ (20 - offset_len)

abbrev pub ram_size : ℕ
ram_size = 2 ^ 20

pub init_mem : Memory
init_mem = record {
  ram = replicate ram_size 0;
  mem_stat = replicate num_pages (record { proc = 0; index = pos 0; next = pos 0 });
  mem_lock = false;
}

-- `~((~0U) << OFFSET_LEN)` is a 32-bit mask.
pub get_offset : ℕ → ℕ
get_offset addr = bit_and addr (2 ^ 32 - 1 - (2 ^ 32 - 1) * 2 ^ offset_len % 2 ^ 32)

pub get_first_lv : ℕ → ℕ
get_first_lv addr = addr / 2 ^ (offset_len + page_len)

-- 64-bit subtraction, of a number that is not larger
pub get_second_lv : ℕ → ℕ
get_second_lv addr = addr / 2 ^ offset_len - get_first_lv addr * 2 ^ page_len % 2 ^ 64

-- The `for` of get_trans_table, with an empty body, and `return NULL`
pub scan_rows : ℕ → Ptr TransTable
scan_rows zero = null
scan_rows (suc left) = scan_rows left

pub get_trans_table : ℕ → PageTable → Ptr TransTable
get_trans_table index page_table = scan_rows (pos_part page_table.size)

-- The `for` of translate from row `i` on
pub find_page : ℕ → List ℕ → ℕ → ℕ → Outcome Bool
find_page zero rows i second_lv = ok false
find_page (suc left) rows i second_lv =
    let later = find_page left rows (i + 1) second_lv in
    elim (get_elem? rows i) [
      | none ↦ fault out_of_bounds
      | some v ↦ if v == second_lv then ok true else later
    ]

-- translate; `physical_addr` is never written.
pub translate : ℕ → ℕ → SegPcb → Outcome (Bool × ℕ)
translate virtual_addr physical_addr proc =
    elim (get_trans_table (get_first_lv virtual_addr) proc.page_table) [
      | null ↦ ok (false, physical_addr)
      | wild ↦ fault uninitialised
      | ptr t ↦ do
        found ← find_page (pos_part t.size) t.v_index 0 (get_second_lv virtual_addr)
        ok (found, physical_addr)
    ]

-- The test of a size against the page size is the wrong way round here, as in the source.
pub pages_of : ℕ → ℕ
pages_of size = if size % page_size == 0 then size / page_size + 1 else size / page_size

-- alloc_mem from the test of `mem_avail` on
pub reserve : Bool → ℕ → SegPcb → ℕ × SegPcb
reserve mem_avail size proc =
    if mem_avail
    then (proc.bp, record proc { bp = (proc.bp + pages_of size * page_size) % 2 ^ 32 })
    else (0, proc)

-- alloc_mem: `mem_avail` is 0 throughout. The lock is taken and given back.
pub alloc_mem : Memory → ℕ → SegPcb → Outcome (ℕ × Memory × SegPcb)
alloc_mem m size proc =
    if m.mem_lock
    then fault blocked
    else (let (ret_mem, proc') = reserve false size proc in
        ok (ret_mem, record m { mem_lock = false }, proc'))

pub free_mem : ℕ → SegPcb → ℤ
free_mem address proc = success

-- read_mem and write_mem; `physical_addr` holds `junk` before.
pub read_mem : Memory → ℕ → ℕ → SegPcb → ℕ → Outcome (ℤ × ℕ)
read_mem m junk address proc byte = do
  (valid, physical_addr) ← translate address junk proc
  if valid
      then (elim (get_elem? m.ram physical_addr) [
        | none ↦ fault out_of_bounds
        | some b ↦ ok (success, b)
      ])
      else ok (pos 1, byte)

pub write_mem : Memory → ℕ → ℕ → SegPcb → ℕ → Outcome (ℤ × Memory)
write_mem m junk address proc byte = do
  (valid, physical_addr) ← translate address junk proc
  if valid
      then (if ltb physical_addr (length m.ram)
          then ok (success, record m { ram = set m.ram physical_addr byte })
          else fault out_of_bounds)
      else ok (pos 1, m)

-- The accesses `proc->regs[i]`
abbrev pub reg_at : SegPcb → ℕ → Outcome ℕ
reg_at proc i = elim (get_elem? proc.regs i) [ none ↦ fault out_of_bounds | some r ↦ ok r ]

abbrev pub set_reg : SegPcb → ℕ → ℕ → Outcome SegPcb
set_reg proc i v =
    if ltb i (length proc.regs)
    then ok (record proc { regs = set proc.regs i v })
    else fault out_of_bounds

-- alloc of cpu.c
pub alloc : Memory → SegPcb → ℕ → ℕ → Outcome (ℤ × Memory × SegPcb)
alloc m proc size reg_index = do
  (addr, m', proc') ← alloc_mem m size proc
  if addr == 0
      then ok (pos 1, m', proc')
      else do proc'' ← set_reg proc' reg_index addr; ok (success, m', proc'')

pub free_data : SegPcb → ℕ → Outcome ℤ
free_data proc reg_index = do addr ← reg_at proc reg_index; ok (free_mem addr proc)

-- read of cpu.c: the local `data` holds `byte` before, and a `char` extends its sign.
pub read : Memory → ℕ → ℕ → SegPcb → ℕ → ℕ → ℕ → Outcome (ℤ × SegPcb)
read m junk byte proc source offset destination = do
  address ← reg_at proc source
  (status, data_) ← read_mem m junk (add64 address offset) proc byte
  if is_zero status
      then ok (pos 1, proc)
      else do proc' ← set_reg proc destination (char_to_arg data_); ok (success, proc')

-- write of cpu.c
pub write : Memory → ℕ → SegPcb → ℕ → ℕ → ℕ → Outcome (ℤ × Memory)
write m junk proc byte destination offset = do
  address ← reg_at proc destination
  write_mem m junk (add64 address offset) proc byte
