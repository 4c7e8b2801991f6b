-- ===== src/Swap/Copy.antt =====
-- __swap_cp_page: the pages before and after a copy.
use hk252_co2017_nhom2_btl.Prelude.{
  List, Ptr, arith, fault, get_elem?, get_elem?-set_ne, get_elem?-set_self, get_elem?_total, length,
  length-set, ok, ptr, refl, set, some, suc, success, uninitialised, wild, zero, ℕ, ℕ_discrete, ◌%◌,
  ◌*◌, ◌+◌, ◌<◌, ◌^◌, ◌∙◌, ◌≡◌, ◌≢◌, ◌≤◌,
}
use hk252_co2017_nhom2_btl.Memphy.{Memphy, paging_pagesz}
use hk252_co2017_nhom2_btl.Memphy.Storage.{read-random, write-random, read-wild}
use hk252_co2017_nhom2_btl.Swap.{cell_addr, swap_cp_loop, swap_cp_page}

-- `out` is `dst` with the cells `lo..256` of page `dstfpn` taken from page `srcfpn` of `src`.
pub record IsCopied (lo srcfpn dstfpn : ℕ) (src dst out : List ℕ) : Type 0 where
  pub same_length : length out ≡ length dst
  pub inside :
      (i : ℕ)
      → lo ≤ i
      → i < paging_pagesz
      → get_elem? out (dstfpn * paging_pagesz + i) ≡ get_elem? src (srcfpn * paging_pagesz + i)
  pub below : (j : ℕ) → j < dstfpn * paging_pagesz + lo → get_elem? out j ≡ get_elem? dst j
  pub above : (j : ℕ) → (dstfpn + 1) * paging_pagesz ≤ j → get_elem? out j ≡ get_elem? dst j

-- Page `fpn` lies inside the storage, and its addresses fit 64 bits.
pub record HasPage (mp : Memphy) (fpn : ℕ) : Type 0 where
  pub random : mp.rdmflg ≢ 0
  pub fits : (fpn + 1) * paging_pagesz ≤ length mp.storage
  pub small : length mp.storage ≤ 2 ^ 64

module _ (junk : ℕ → ℕ) (src : Memphy) (srcfpn dstfpn : ℕ) (from : HasPage src srcfpn) where
  copy_byte :
      (dst : Memphy) (i v : ℕ)
      → HasPage dst dstfpn
      → i < 256
      → get_elem? src.storage (srcfpn * 256 + i) ≡ some v
      → (left : ℕ)
      → swap_cp_loop junk srcfpn dstfpn (suc left) i (ptr src) (ptr dst)
        ≡ swap_cp_loop junk srcfpn dstfpn left
            (i + 1)
            (ptr src)
            (ptr (record dst { storage = set dst.storage (dstfpn * 256 + i) v }))
  unfolding swap_cp_loop cell_addr
  copy_byte dst i v to lt e left = rw (
    src_addr,
    dst_addr,
    read-random src (srcfpn * 256 + i) (junk i) from.random e,
    write-random dst (dstfpn * 256 + i) v to.random (omega arith),
  )
    where
      src_addr : (srcfpn * 256 + i) % 2 ^ 64 ≡ srcfpn * 256 + i
      src_addr = omega arith

      dst_addr : (dstfpn * 256 + i) % 2 ^ 64 ≡ dstfpn * 256 + i
      dst_addr = omega arith

  IsCopied-set :
      (dst out : List ℕ) (i : ℕ) {v : ℕ}
      → i < 256
      → dstfpn * 256 + i < length dst
      → get_elem? src.storage (srcfpn * 256 + i) ≡ some v
      → IsCopied (i + 1) srcfpn dstfpn src.storage (set dst (dstfpn * 256 + i) v) out
      → IsCopied i srcfpn dstfpn src.storage dst out
  IsCopied-set dst out i {v} lt room e rest = record {
    same_length = rest.same_length ∙ length-set dst (dstfpn * 256 + i) v;
    inside = λ j p q. elim (ℕ_discrete i j) [
      | yes same ↦ ground (
        arith,
        rest.below (dstfpn * 256 + i) (omega arith),
        get_elem?-set_self dst (dstfpn * 256 + i) v room,
      )
      | no other ↦ rest.inside j (omega arith) q
    ];
    below = λ j p.
        rest.below j (omega arith) ∙ get_elem?-set_ne dst (dstfpn * 256 + i) j v (omega arith);
    above = λ j p. rest.above j p ∙ get_elem?-set_ne dst (dstfpn * 256 + i) j v (omega arith);
  }

  swap_cp_loop-IsCopied :
      (left i : ℕ) (dst : Memphy)
      → i + left ≡ 256
      → HasPage dst dstfpn
      → (out : List ℕ) × (swap_cp_loop junk srcfpn dstfpn left i (ptr src) (ptr dst)
          ≡ ok (ptr src, ptr (record dst { storage = out })))
        × IsCopied i srcfpn dstfpn src.storage dst.storage out
  swap_cp_loop-IsCopied zero i dst e to = (
    dst.storage,
    unfold swap_cp_loop in refl,
    record {
      same_length = refl;
      inside = λ j p q. absurd (omega arith);
      below = λ j p. refl;
      above = λ j p. refl;
    },
  )
  swap_cp_loop-IsCopied (suc left) i dst e to =
      let (v, byte) = get_elem?_total src.storage (srcfpn * 256 + i) (omega (arith, from.fits)) in
      let next : Memphy = record dst { storage = set dst.storage (dstfpn * 256 + i) v } in
      let same : length next.storage ≡ length dst.storage =
        length-set dst.storage (dstfpn * 256 + i) v in
      let (out, runs, copied) = swap_cp_loop-IsCopied left (i + 1) next (omega arith) (record {
        random = to.random;
        fits = omega (arith, to.fits);
        small = omega (arith, to.small);
      }) in
      (
        out,
        copy_byte dst i v to (omega arith) byte left ∙ runs,
        IsCopied-set dst.storage out i (omega arith) (omega (arith, to.fits)) byte copied,
      )

-- Between random-access devices that hold both pages, with storage of at most 2 ^ 64 bytes,
-- __swap_cp_page succeeds, leaves the source device as it is, and changes the destination's storage
-- in that page alone, which becomes equal to the source page.
pub swap_cp_page-IsCopied :
    (junk : ℕ → ℕ) (src dst : Memphy) (srcfpn dstfpn : ℕ)
    → HasPage src srcfpn
    → HasPage dst dstfpn
    → (out : List ℕ) × (swap_cp_page junk (ptr src) srcfpn (ptr dst) dstfpn
        ≡ ok (success, ptr src, ptr (record dst { storage = out })))
      × IsCopied 0 srcfpn dstfpn src.storage dst.storage out
unfolding swap_cp_page
swap_cp_page-IsCopied junk src dst srcfpn dstfpn from to =
    let (out, runs, copied) =
      swap_cp_loop-IsCopied junk src srcfpn dstfpn from 256 0 dst (omega arith) to in
    (out, rw runs, copied)

pub swap_cp_page-wild :
    (junk : ℕ → ℕ) (srcfpn dstfpn : ℕ) (mpdst : Ptr Memphy)
    → swap_cp_page junk wild srcfpn mpdst dstfpn ≡ fault uninitialised
unfolding swap_cp_page swap_cp_loop
swap_cp_page-wild junk srcfpn dstfpn mpdst = rw (read-wild (cell_addr srcfpn 0) (junk 0))
