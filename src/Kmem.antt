-- ===== src/Kmem.antt =====
-- src/libmem.c: the kernel memory calls and the accesses to user and kernel memory, all of them
-- empty in the source.
use hk252_co2017_nhom2_btl.Prelude.{negsuc, pos, success, to_int, ℕ, ℤ}
use hk252_co2017_nhom2_btl.Mm.{Machine}

pub kmalloc : Machine → ℤ → ℤ → ℕ → ℕ × Machine
kmalloc m vmaid rgid size = (0, m)

pub kmem_cache_alloc : Machine → ℤ → ℤ → ℤ → ℕ × Machine
kmem_cache_alloc m vmaid rgid cache_pool_id = (0, m)

unfoldable pub libkmem_malloc : Machine → ℕ → ℕ → ℤ × Machine
libkmem_malloc m size reg_index = (success, m)

unfoldable pub libkmem_cache_pool_create : Machine → ℕ → ℕ → ℕ → ℤ × Machine
libkmem_cache_pool_create m size align cache_pool_id = (success, m)

unfoldable pub libkmem_cache_alloc : Machine → ℕ → ℕ → ℤ × Machine
unfolding kmem_cache_alloc
libkmem_cache_alloc m cache_pool_id reg_index =
    let (addr, m') = kmem_cache_alloc m (negsuc 0) (to_int reg_index) (to_int cache_pool_id) in
    (success, m')

unfoldable pub libkmem_copy_from_user : Machine → ℕ → ℕ → ℕ → ℕ → ℤ × Machine
libkmem_copy_from_user m source destination offset size = (success, m)

-- Unlike the others this one returns 1.
unfoldable pub libkmem_copy_to_user : Machine → ℕ → ℕ → ℕ → ℕ → ℤ × Machine
libkmem_copy_to_user m source destination offset size = (pos 1, m)

-- __read_kernel_mem, __write_kernel_mem, __read_user_mem and __write_user_mem; the byte to read
-- stays as it was.
pub read_kernel_mem : Machine → ℤ → ℤ → ℕ → ℕ → ℤ × Machine × ℕ
read_kernel_mem m vmaid rgid offset byte = (success, m, byte)

pub write_kernel_mem : Machine → ℤ → ℤ → ℕ → ℕ → ℤ × Machine
write_kernel_mem m vmaid rgid offset value = (success, m)

pub read_user_mem : Machine → ℤ → ℤ → ℕ → ℕ → ℤ × Machine × ℕ
read_user_mem m vmaid rgid offset byte = (success, m, byte)

pub write_user_mem : Machine → ℤ → ℤ → ℕ → ℕ → ℤ × Machine
write_user_mem m vmaid rgid offset value = (success, m)
