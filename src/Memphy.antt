-- ===== src/Memphy.antt =====
-- src/mm-memphy.c: the physical memory devices (RAM and swap), byte storage behind a random or a
-- sequential access mode, and the list of free frames.
-- A function that fills an out-parameter takes its old value and returns the new one; `mp` is a
-- pointer that may be NULL where the source tests it.
pub mod Cursor
pub mod Storage
pub mod Frames
pub mod Init
use hk252_co2017_nhom2_btl.Prelude.{
  ℕ, zero, suc, ◌+◌, ◌-◌, ◌/◌, ◌%◌, Bool, true, false, ◌&&◌, not, Option, none, some, List, ltb,
  ◌==◌, if◌then◌else◌, get_elem?, set, length, replicate, ℤ, pos, pos_part, ltb_ℤ, to_int, success,
  failure, Outcome, ok, fault, null_deref, uninitialised, out_of_bounds, out_of_fuel, ◌>>=◌, Ptr,
  null, wild, ptr, Chain, end, dangling, node,
}

-- PAGING_PAGESZ of include/mm.h
abbrev pub paging_pagesz : ℕ
paging_pagesz = 256

-- `struct memphy_struct`. `storage` holds the bytes that malloc gave; a byte is a pattern below 256.
pub record Memphy : Type 0 where
  pub storage : List ℕ
  pub maxsz : ℤ
  pub rdmflg : ℕ
  pub cursor : ℕ
  pub free_fp_list : Chain ℕ
  pub used_fp_list : Chain ℕ

-- An access `mp->storage[addr]`.
pub storage_at : Memphy → ℕ → Outcome ℕ
storage_at mp addr = elim (get_elem? mp.storage addr) [ none ↦ fault out_of_bounds | some v ↦ ok v ]

pub store_at : Memphy → ℕ → ℕ → Outcome Memphy
store_at mp addr v =
    if ltb addr (length mp.storage)
    then ok (record mp { storage = set mp.storage addr v })
    else fault out_of_bounds

-- The `while` of MEMPHY_mv_csr over `numstep` and `mp->cursor`; the loop body runs only where
-- `numstep < mp->maxsz`, so the modulus is positive.
pub mv_csr_loop : ℕ → ℤ → ℕ → ℕ → ℕ → Outcome ℕ
mv_csr_loop zero maxsz offset numstep cursor = fault out_of_fuel
mv_csr_loop (suc fuel) maxsz offset numstep cursor =
    let rest = mv_csr_loop fuel maxsz offset (numstep + 1) ((cursor + 1) % pos_part maxsz) in
    if ltb numstep offset && ltb_ℤ (pos numstep) maxsz then rest else ok cursor

-- The fuel is one more than the number of cells.
pub mv_csr : Memphy → ℕ → Outcome (ℤ × Memphy)
mv_csr mp offset = do
  cursor ← mv_csr_loop (suc (pos_part mp.maxsz)) mp.maxsz offset 0 0
  ok (success, record mp { cursor = cursor })

pub seq_read : Ptr Memphy → ℕ → ℕ → Outcome (ℤ × Ptr Memphy × ℕ)
seq_read null addr value = ok (failure, null, value)
seq_read wild addr value = fault uninitialised
seq_read (ptr mp) addr value =
    if mp.rdmflg == 0
    then ok (failure, ptr mp, value)
    else do (_, mp') ← mv_csr mp addr; v ← storage_at mp' addr; ok (success, ptr mp', v)

-- MEMPHY_read
pub read : Ptr Memphy → ℕ → ℕ → Outcome (ℤ × Ptr Memphy × ℕ)
read null addr value = ok (failure, null, value)
read wild addr value = fault uninitialised
read (ptr mp) addr value =
    if mp.rdmflg == 0
    then seq_read (ptr mp) addr value
    else do v ← storage_at mp addr; ok (success, ptr mp, v)

pub seq_write : Ptr Memphy → ℕ → ℕ → Outcome (ℤ × Ptr Memphy)
seq_write null addr value = ok (failure, null)
seq_write wild addr value = fault uninitialised
seq_write (ptr mp) addr value =
    if mp.rdmflg == 0
    then ok (failure, ptr mp)
    else do (_, mp') ← mv_csr mp addr; mp'' ← store_at mp' addr value; ok (success, ptr mp'')

-- MEMPHY_write
pub write : Ptr Memphy → ℕ → ℕ → Outcome (ℤ × Ptr Memphy)
write null addr value = ok (failure, null)
write wild addr value = fault uninitialised
write (ptr mp) addr value =
    if mp.rdmflg == 0
    then seq_write (ptr mp) addr value
    else do mp' ← store_at mp addr value; ok (success, ptr mp')

-- The `for` of MEMPHY_format: the frames `iter`, `iter + 1`, ..., `count` of them, ended by NULL.
pub fill_frames : ℕ → ℕ → Chain ℕ
fill_frames zero iter = end
fill_frames (suc count) iter = node iter (fill_frames count (iter + 1))

-- `pagesz` is positive at the only call. A negative `maxsz` gives a quotient that is not positive,
-- and is read as 0 here. The link of the first frame is written only if there is a second one.
pub format : Memphy → ℕ → ℤ × Memphy
format mp pagesz =
    let numfp = pos_part mp.maxsz / pagesz in
    if numfp == 0 then (failure, mp) else (
      success,
      record mp {
        free_fp_list = node 0 (if ltb 1 numfp then fill_frames (numfp - 1) 1 else dangling);
      },
    )

pub get_freefp : Memphy → ℕ → Outcome (ℤ × Memphy × ℕ)
get_freefp mp retfpn = elim mp.free_fp_list [
  | end ↦ ok (failure, mp, retfpn)
  | dangling ↦ fault uninitialised
  | node fpn next ↦ ok (success, record mp { free_fp_list = next }, fpn)
]

unfoldable pub put_freefp : Memphy → ℕ → ℤ × Memphy
put_freefp mp fpn = (success, record mp { free_fp_list = node fpn mp.free_fp_list })

-- `mp` is the structure before the call, of which the links and the cursor may survive. malloc
-- is taken to succeed.
pub init_memphy : Memphy → ℕ → ℕ → ℤ × Memphy
init_memphy mp max_size randomflg =
    let (_, formatted) =
      format (record mp { storage = replicate max_size 0; maxsz = to_int max_size })
        paging_pagesz in
    let flagged = record formatted { rdmflg = if randomflg == 0 then 0 else 1 } in
    if flagged.rdmflg == 0 then (success, record flagged { cursor = 0 }) else (success, flagged)
