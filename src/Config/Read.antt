-- ===== src/Config/Read.antt =====
-- read_config on a file that spells a configuration.
use hk252_co2017_nhom2_btl.Prelude.{
  Bool, List, [], arith, fault, if◌then◌else◌, length, ltb, ok, out_of_bounds, pos, refl, some,
  to_int_small, true, ℕ, ◌&&◌, ◌++◌, ◌+◌, ◌<◌, ◌^◌, ◌∷◌, ◌≡◌,
}
use mathlib.Core.Path.{subst}
use hk252_co2017_nhom2_btl.Loader.{Scanner}
use hk252_co2017_nhom2_btl.Os.{LdArg}
use hk252_co2017_nhom2_btl.Config.{
  read_process, read_processes, read_config, proc_dir, join_path, read_sizes,
}

-- A process as it stands in the file: start time, name and priority.
pub record Entry : Type 0 where
  pub start_time : ℕ
  pub name : List ℕ
  pub prio : ℕ

-- The names fit into `path` after the directory.
unfoldable pub all_fit : List Entry → Bool
all_fit [] = true
all_fit (e ∷ entries) = ltb (length e.name) 89 && all_fit entries

unfoldable pub arg_of : Entry → LdArg
arg_of e = record { path = proc_dir ++ e.name; start_time = e.start_time; prio = e.prio }

unfoldable pub args_of : List Entry → List LdArg
args_of [] = []
args_of (e ∷ entries) = arg_of e ∷ args_of entries

join_path_lem :
    (name : List ℕ)
    → join_path (some name)
      ≡ (if ltb (length name) 89 then ok (proc_dir ++ name) else fault out_of_bounds)
unfolding join_path
join_path_lem name = ground arith

module _ {S : Type 0} (sc : Scanner S) where
  open sc use {scan_word, scan_numbers}

  -- Conversions of one number each read the numbers, in order.
  pub data Numbers : S → List ℕ → S → Type 0 where
    numbers_end : {s : S} → Numbers s [] s
    numbers_next :
        {s s' s'' : S} {n : ℕ} {ns : List ℕ}
        → scan_numbers 1 s ≡ (n ∷ [], s')
        → Numbers s' ns s''
        → Numbers s (n ∷ ns) s''

  -- The conversions of the last loop read the entries, in order.
  pub data Entries : S → List Entry → S → Type 0 where
    entries_end : {s : S} → Entries s [] s
    entries_next :
        {s s1 s2 s3 s' : S} {e : Entry} {entries : List Entry}
        → scan_numbers 1 s ≡ (e.start_time ∷ [], s1)
        → scan_word s1 ≡ (some e.name, s2)
        → scan_numbers 1 s2 ≡ (e.prio ∷ [], s3)
        → Entries s3 entries s'
        → Entries s (e ∷ entries) s'

  read_sizes-Numbers :
      {s s' : S} {sizes : List ℕ}
      → Numbers s sizes s'
      → read_sizes sc (length sizes) s ≡ (sizes, s')
  unfolding read_sizes
  read_sizes-Numbers numbers_end = refl
  read_sizes-Numbers (numbers_next e rest) = ground (arith, e, read_sizes-Numbers rest)

  read_processes-Entries :
      (blank : ℕ → LdArg) (i : ℕ) {s s' : S} {entries : List Entry}
      → Entries s entries s'
      → read_processes sc blank (length entries) i s
        ≡ (if all_fit entries then ok (args_of entries, s') else fault out_of_bounds)
  unfolding read_processes read_process all_fit args_of arg_of
  read_processes-Entries blank i entries_end = refl
  read_processes-Entries blank i (entries_next {e = e} a b c rest) =
      ground (arith, a, b, c, join_path_lem e.name, read_processes-Entries blank (i + 1) rest)

  -- Where the conversions read the three numbers of the first line, each below 2 ^ 31, the sizes of
  -- the RAM and of four swap devices, and then as many processes as the first line says, each as
  -- start time, name and priority, read_config sets exactly these numbers and processes, each with
  -- the path of its name in the directory input/proc, if all names have fewer than 89 bytes; if one
  -- is longer, a buffer is written past its end.
  pub read_config-Entries :
      (blank : ℕ → LdArg) (file s1 s2 s3 : S) (time_slot num_cpus ram : ℕ) (sizes : List ℕ)
      (entries : List Entry)
      → scan_numbers 3 file ≡ (time_slot ∷ num_cpus ∷ length entries ∷ [], s1)
      → Numbers s1 (ram ∷ sizes) s2
      → length sizes ≡ 4
      → Entries s2 entries s3
      → time_slot < 2 ^ 31
      → num_cpus < 2 ^ 31
      → length entries < 2 ^ 31
      → read_config sc blank (some file) ≡ (
          if all_fit entries
          then ok (record {
            time_slot = pos time_slot;
            num_cpus = pos num_cpus;
            num_processes = pos (length entries);
            memramsz = ram;
            memswpsz = sizes;
            ld_processes = args_of entries;
          })
          else fault out_of_bounds)
  unfolding read_config
  read_config-Entries blank file s1 s2 s3 time_slot num_cpus ram sizes entries h
        (numbers_next {s' = mid} e nums) four lines a b c =
      ground (
        arith,
        h,
        e,
        subst (λ k. read_sizes sc k mid ≡ (sizes, s2)) four (read_sizes-Numbers nums),
        to_int_small time_slot a,
        to_int_small num_cpus b,
        to_int_small (length entries) c,
        read_processes-Entries blank 0 lines,
      )
