-- ===== src/Threads/Owners.antt =====
-- The process that a CPU holds (src/os.c).
use hk252_co2017_nhom2_btl.Prelude.{if◌then◌else◌, none, some, ℕ, ◌==◌}
use hk252_co2017_nhom2_btl.Threads.{CpuWork, head, put_back, checking, ready, CpuPlace}

abbrev pub unit : ℕ → ℕ → ℕ
unit h j = if h == j then 1 else 0

-- Whether a CPU holds process `j`
unfoldable pub owns_work : CpuWork → ℕ → ℕ
owns_work (head none t) j = 0
owns_work (head (some h) t) j = unit h j
owns_work (put_back t) j = 0
owns_work (checking t) j = 0
owns_work (ready h t) j = unit h j

unfoldable pub owns : CpuPlace → ℕ → ℕ
unfolding owns_work
owns (CpuPlace.works work) j = owns_work work j
owns (CpuPlace.due none t) j = 0
owns (CpuPlace.due (some h) t) j = unit h j
owns (CpuPlace.asleep none t) j = 0
owns (CpuPlace.asleep (some h) t) j = unit h j
owns CpuPlace.stopping j = 0
owns CpuPlace.halted j = 0
