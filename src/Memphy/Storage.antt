-- ===== src/Memphy/Storage.antt =====
-- MEMPHY_read and MEMPHY_write, by access mode and address.
use hk252_co2017_nhom2_btl.Prelude.{
  Outcome, Ptr, arith, failure, fault, get_elem?, get_elem?-set_ne, get_elem?-set_self,
  get_elem?_past, length, ok, out_of_bounds, ptr, refl, set, some, success, uninitialised, wild, ℕ,
  ℤ, ◌<◌, ◌>>=◌, ◌≡◌, ◌≢◌, ◌≤◌,
}
use hk252_co2017_nhom2_btl.Memphy.{Memphy, storage_at, store_at, read, write, seq_read, seq_write}

-- What the caller sees of a read: the status and the byte.
abbrev pub reply : Outcome (ℤ × Ptr Memphy × ℕ) → Outcome (ℤ × ℕ)
reply r = r >>= λ o. ok (o.0, o.2)

pub read-random :
    (mp : Memphy) (addr old : ℕ) {v : ℕ}
    → mp.rdmflg ≢ 0
    → get_elem? mp.storage addr ≡ some v
    → read (ptr mp) addr old ≡ ok (success, ptr mp, v)
unfolding read storage_at
read-random mp addr old rdm e = ground arith

pub write-random :
    (mp : Memphy) (addr v : ℕ)
    → mp.rdmflg ≢ 0
    → addr < length mp.storage
    → write (ptr mp) addr v ≡ ok (success, ptr (record mp { storage = set mp.storage addr v }))
unfolding write store_at
write-random mp addr v rdm h = ground arith

pub read-wild : (addr old : ℕ) → read wild addr old ≡ fault uninitialised
unfolding read
read-wild addr old = refl

pub write-wild : (addr v : ℕ) → write wild addr v ≡ fault uninitialised
unfolding write
write-wild addr v = refl

-- On a random-access device a write inside the storage succeeds; then a read of its address gives
-- the byte written, and a read of any other address answers as before, faults included.
pub read-write :
    (mp : Memphy) (addr v : ℕ)
    → mp.rdmflg ≢ 0
    → addr < length mp.storage
    → (mp' : Memphy) × (write (ptr mp) addr v ≡ ok (success, ptr mp'))
      × ((old : ℕ) → reply (read (ptr mp') addr old) ≡ ok (success, v))
      × ((j old : ℕ) → addr ≢ j → reply (read (ptr mp') j old) ≡ reply (read (ptr mp) j old))
unfolding read write storage_at store_at
read-write mp addr v rdm h = (
  record mp { storage = set mp.storage addr v },
  ground arith,
  λ old. ground (arith, get_elem?-set_self mp.storage addr v),
  λ j old ne. ground (arith, get_elem?-set_ne mp.storage addr j v),
)

-- A read or write of a random-access device past its storage is an access out of bounds.
read-write_past_end :
    (mp : Memphy) (addr v : ℕ)
    → mp.rdmflg ≢ 0
    → length mp.storage ≤ addr
    → (read (ptr mp) addr v ≡ fault out_of_bounds) × (write (ptr mp) addr v ≡ fault out_of_bounds)
unfolding read write storage_at store_at
read-write_past_end mp addr v rdm h = (ground (arith, get_elem?_past mp.storage addr), ground arith)

pub sequential_refuses :
    (mp : Memphy) (addr v : ℕ)
    → mp.rdmflg ≡ 0
    → (read (ptr mp) addr v ≡ ok (failure, ptr mp, v))
      × (write (ptr mp) addr v ≡ ok (failure, ptr mp))
unfolding read write seq_read seq_write
sequential_refuses mp addr v e = (ground arith, ground arith)
