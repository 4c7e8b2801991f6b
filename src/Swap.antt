-- ===== src/Swap.antt =====
-- src/mm64.c: __swap_cp_page, which copies one page between two devices, byte by byte. The two
-- devices are distinct objects, as at its only call (RAM and the active swap device).
pub mod Copy
use hk252_co2017_nhom2_btl.Prelude.{
  ℕ, zero, suc, ◌+◌, ◌*◌, ◌%◌, ◌^◌, ℤ, success, Outcome, ok, ◌>>=◌, Ptr,
}
use hk252_co2017_nhom2_btl.Memphy
use hk252_co2017_nhom2_btl.Memphy.{Memphy, paging_pagesz}

-- `fpn * PAGING_PAGESZ + cellidx` in 64 bits
pub cell_addr : ℕ → ℕ → ℕ
cell_addr fpn cellidx = (fpn * paging_pagesz + cellidx) % 2 ^ 64

-- The `for` loop, with `left` rounds to go. `junk` is what the local `data` holds in each round
-- before MEMPHY_read fills it; the statuses of the read and the write are dropped.
pub swap_cp_loop :
    (ℕ → ℕ) → ℕ → ℕ → ℕ → ℕ → Ptr Memphy → Ptr Memphy → Outcome (Ptr Memphy × Ptr Memphy)
swap_cp_loop junk srcfpn dstfpn zero cellidx mpsrc mpdst = ok (mpsrc, mpdst)
swap_cp_loop junk srcfpn dstfpn (suc left) cellidx mpsrc mpdst = do
  (_, mpsrc', byte) ← Memphy.read mpsrc (cell_addr srcfpn cellidx) (junk cellidx)
  (_, mpdst') ← Memphy.write mpdst (cell_addr dstfpn cellidx) byte
  swap_cp_loop junk srcfpn dstfpn left (cellidx + 1) mpsrc' mpdst'

-- __swap_cp_page
pub swap_cp_page : (ℕ → ℕ) → Ptr Memphy → ℕ → Ptr Memphy → ℕ → Outcome (ℤ × Ptr Memphy × Ptr Memphy)
swap_cp_page junk mpsrc srcfpn mpdst dstfpn = do
  (mpsrc', mpdst') ← swap_cp_loop junk srcfpn dstfpn paging_pagesz 0 mpsrc mpdst
  ok (success, mpsrc', mpdst')
