-- ===== src/Printing/Unused.antt =====
-- dump of src/mem.c where no page is in use.
use hk252_co2017_nhom2_btl.Prelude.{List, [], arith, ok, refl, replicate, suc, zero, ℕ, ◌+◌, ◌≡◌}
use hk252_co2017_nhom2_btl.Segmented.{Memory, PageStat}
use hk252_co2017_nhom2_btl.Printing.{dump, dump_pages}

dump_pages-unused :
    (ram : List ℕ) (stat : PageStat) (n i : ℕ)
    → stat.proc ≡ 0
    → dump_pages ram (replicate n stat) i ≡ ok []
unfolding dump_pages
dump_pages-unused ram stat zero i e = refl
dump_pages-unused ram stat (suc n) i e = ground (arith, e, dump_pages-unused ram stat n (i + 1) e)

pub dump-unused :
    (m : Memory) (stat : PageStat) (n : ℕ)
    → m.mem_stat ≡ replicate n stat
    → stat.proc ≡ 0
    → dump m ≡ ok []
unfolding dump
dump-unused m stat n same e = rw same (dump_pages-unused m.ram stat n 0 e)
