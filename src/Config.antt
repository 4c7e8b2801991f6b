-- ===== src/Config.antt =====
-- src/os.c: read_config, in the build where the sizes of the devices stand in the file. The
-- conversions of stdio are those of the loader. The format of the last fscanf reads a number, a word
-- and a number, up to the first that fails.
pub mod Read
use hk252_co2017_nhom2_btl.Prelude.{
  List, Option, Outcome, [], fault, if◌then◌else◌, length, ltb, none, ok, out_of_bounds, pos_part,
  some, suc, terminated, to_int, uninitialised, zero, ℕ, ℤ, ◌++◌, ◌+◌, ◌>>=◌, ◌>>◌, ◌∷◌,
}
use hk252_co2017_nhom2_btl.Loader.{Scanner, codes}
use hk252_co2017_nhom2_btl.Os.{LdArg}

-- What read_config sets: `time_slot`, `num_cpus`, `num_processes`, `memramsz`, `memswpsz` and
-- `ld_processes`
pub record Config : Type 0 where
  pub time_slot : ℤ
  pub num_cpus : ℤ
  pub num_processes : ℤ
  pub memramsz : ℕ
  pub memswpsz : List ℕ
  pub ld_processes : List LdArg

abbrev pub paging_max_mmswp : ℕ
paging_max_mmswp = 4

-- The first strcat puts these 11 bytes into `path`, which has 100.
abbrev pub proc_dir : List ℕ
proc_dir = codes "input/proc/"

-- `char proc[100]` after "%s", and the second strcat: both texts end with a 0.
pub join_path : Option (List ℕ) → Outcome (List ℕ)
join_path none = fault uninitialised
join_path (some proc) =
    if ltb (length proc) 100
    then (if ltb (length (proc_dir ++ proc)) 100
        then ok (proc_dir ++ proc)
        else fault out_of_bounds)
    else fault out_of_bounds

-- The number that a conversion stores, or what was there before
abbrev pub stored : List ℕ → ℕ → ℕ
stored [] old = old
stored (n ∷ ns) old = n

-- The three numbers of the first line; the static variables are 0 before.
abbrev pub first_line : List ℕ → ℕ × ℕ × ℕ
first_line [] = (0, 0, 0)
first_line (a ∷ []) = (a, 0, 0)
first_line (a ∷ b ∷ []) = (a, b, 0)
first_line (a ∷ b ∷ c ∷ rest) = (a, b, c)

module _ {S : Type 0} (sc : Scanner S) where
  open sc use {scan_word, scan_numbers}

  -- One round of the last `for`; `blank` is what malloc gave for its fields.
  pub read_process : LdArg → S → Outcome (LdArg × S)
  read_process blank s0 =
      let (starts, s) = scan_numbers 1 s0 in
      elim starts [
        | [] ↦ fault uninitialised
        | start_time ∷ rest ↦ do
          let (word, s') = scan_word s
          path ← join_path word
          let (prios, s'') = scan_numbers 1 s'
          ok (record { path = path; start_time = start_time; prio = stored prios blank.prio }, s'')
      ]

  -- The last `for`, with `left` rounds to go
  pub read_processes : (ℕ → LdArg) → ℕ → ℕ → S → Outcome (List LdArg × S)
  read_processes blank zero i s = ok ([], s)
  read_processes blank (suc left) i s = do
    (arg, s') ← read_process (blank i) s
    (args, s'') ← read_processes blank left (i + 1) s'
    ok (arg ∷ args, s'')

  -- The loop over the swap devices: `left` of them, whose static sizes are 0 before.
  pub read_sizes : ℕ → S → List ℕ × S
  read_sizes zero s = ([], s)
  read_sizes (suc left) s =
      let (size, s') = scan_numbers 1 s in
      let (sizes, s'') = read_sizes left s' in (stored size 0 ∷ sizes, s'')

  -- read_config on what fopen gives for the path
  pub read_config : (ℕ → LdArg) → Option S → Outcome Config
  read_config blank none = fault terminated
  read_config blank (some file) = do
    let (header, s) = scan_numbers 3 file
    let (ram, s') = scan_numbers 1 s
    let (sizes, s'') = read_sizes paging_max_mmswp s'
    let (time_slot, num_cpus, num_processes) = first_line header
    (args, rest) ← read_processes blank (pos_part (to_int num_processes)) 0 s''
    ok (record {
      time_slot = to_int time_slot;
      num_cpus = to_int num_cpus;
      num_processes = to_int num_processes;
      memramsz = stored ram 0;
      memswpsz = sizes;
      ld_processes = args;
    })
