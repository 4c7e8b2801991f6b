-- ===== src/Memphy/Cursor.antt =====
-- MEMPHY_mv_csr: the position that the loop computes.
use native.Mathlib.Nat.{mod-eq_of_lt, mod_self}
use hk252_co2017_nhom2_btl.Prelude.{
  arith, if◌then◌else◌, ltb, min, ok, pos_part, suc, success, zero, ℕ, ℤ, ◌%◌, ◌+◌, ◌<◌, ◌≡◌, ◌≤◌,
}
use hk252_co2017_nhom2_btl.Memphy.{Memphy, mv_csr_loop, mv_csr}

-- What the loop has reached after `numstep` rounds: `numstep`, or 0 once it has gone round.
abbrev at_step : ℕ → ℕ → ℕ
at_step m n = if ltb n m then n else 0

at_step-suc : (m n : ℕ) → n < m → (at_step m n + 1) % m ≡ at_step m (n + 1)
at_step-suc m n h = ground (arith, mod-eq_of_lt {n = n + 1} {m = m}, mod_self m)

mv_csr_loop_lem :
    (fuel : ℕ) (maxsz : ℤ) (offset n : ℕ)
    → pos_part maxsz < fuel + n
    → n ≤ offset
    → n ≤ pos_part maxsz
    → mv_csr_loop fuel maxsz offset n (at_step (pos_part maxsz) n)
      ≡ ok (at_step (pos_part maxsz) (min offset (pos_part maxsz)))
unfolding mv_csr_loop
mv_csr_loop_lem zero maxsz offset n enough p q = absurd (omega arith)
mv_csr_loop_lem (suc fuel) maxsz offset n enough p q =
    ground (arith, at_step-suc (pos_part maxsz) n, mv_csr_loop_lem fuel maxsz offset (n + 1))

-- MEMPHY_mv_csr returns, with success: the cursor is at `offset` where that is inside the device
-- and at 0 otherwise, and nothing else changes.
mv_csr_lem :
    (mp : Memphy) (offset : ℕ)
    → mv_csr mp offset
      ≡ ok (success, record mp { cursor = if ltb offset (pos_part mp.maxsz) then offset else 0 })
unfolding mv_csr
mv_csr_lem mp offset = ground (arith, mv_csr_loop_lem (suc (pos_part mp.maxsz)) mp.maxsz offset 0)
