-- ===== src/Main/Countdown.antt =====
-- How many steps the timer of src/timer.c and main of src/os.c have left when all threads have ended.
use hk252_co2017_nhom2_btl.Prelude.{
  Bool, arith, false, if◌then◌else◌, refl, sym, true, ℕ, ◌*◌, ◌+◌, ◌-◌, ◌<◌, ◌==◌, ◌≡◌, ◌≢◌, ◌≤◌,
}
use mathlib.Core.Path.{subst}
use hk252_co2017_nhom2_btl.Main.{
  MainPlace, frees, joins_cpu, joins_loader, joins_timer, returned, stops_timer,
}
use hk252_co2017_nhom2_btl.Timer.{
  bit_of, System, TimerPc, collect, detaches, exited, head, passes, reports, resume, resumes,
  returns, slot_begins, slot_ends, slot_refused, ticks,
}
use hk252_co2017_nhom2_btl.Timer

-- A slot in which not all of the devices had detached is followed by another one.
abbrev again : ℕ → ℕ → ℕ → ℕ
again m fsh event = if fsh == event then 0 else 2 * m + 5

abbrev pub timer_left : ℕ → TimerPc → ℕ
timer_left m TimerPc.head = 2 * m + 4
timer_left m (TimerPc.collect k fsh event) = (m - k) + (m + 3) + again m fsh event
timer_left m (TimerPc.resume k fsh event) = (m - k) + 1 + again m fsh event
timer_left m TimerPc.exited = 0

abbrev pub main_left : ℕ → MainPlace → ℕ
main_left n (joins_cpu i) = (n - i) + (n + 6)
main_left n joins_loader = n + 5
main_left n stops_timer = n + 4
main_left n joins_timer = n + 3
main_left n (frees left) = left + 1
main_left n returned = 0

pub timer_left_bounds : (m : ℕ) (t : TimerPc) → timer_left m t ≤ 4 * m + 8
timer_left_bounds m TimerPc.head = omega arith
timer_left_bounds m (TimerPc.collect k fsh event) = ground arith
timer_left_bounds m (TimerPc.resume k fsh event) = ground arith
timer_left_bounds m TimerPc.exited = omega arith

-- The timer comes nearer to its end with each step, when all devices have detached.
pub timer_counts :
    {m : ℕ} {c c' : System}
    → ((k : ℕ) → k < m → (c.device k).id.fsh ≡ true)
    → Timer.Step m c c'
    → c'.timer ≢ c.timer
    → timer_left m c'.timer < timer_left m c.timer
timer_counts {m} all (slot_begins e f) ne =
    subst (λ t. timer_left m (collect 0 0 0) < timer_left m t) (sym e) (omega arith)
timer_counts {m} all (slot_refused e f) ne = subst (λ t. 0 < timer_left m t) (sym e) (omega arith)
timer_counts {m} {c} all (passes {k} {f} {e} at lt seen) ne =
    subst
      (λ t.
        timer_left m (collect (k + 1) (f + bit_of (c.device k).id.fsh) (e + 1)) < timer_left m t)
      (sym at) (ground (arith, all k lt, lt))
timer_counts {m} all (ticks {k} {f} {e} at last) ne =
    subst (λ t. timer_left m (resume 0 f e) < timer_left m t) (sym at) (ground (arith, last))
timer_counts {m} all (resumes {k} {f} {e} at lt) ne =
    subst (λ t. timer_left m (resume (k + 1) f e) < timer_left m t) (sym at) (ground (arith, lt))
timer_counts {m} all (slot_ends {k} {f} {e} at last) ne =
    subst (λ t. timer_left m (if f == e then exited else head) < timer_left m t) (sym at)
      (ends (f == e) refl)
  where
    ends :
        (b : Bool)
        → (f == e) ≡ b
        → timer_left m (if f == e then exited else head) < timer_left m (resume k f e)
    ends true q = ground (arith, q, last)
    ends false q = ground (arith, q, last)
timer_counts all (reports i lt e) ne = absurd (ne refl)
timer_counts all (returns i lt e f) ne = absurd (ne refl)
timer_counts all (detaches i lt e) ne = absurd (ne refl)
timer_counts all Timer.stops ne = absurd (ne refl)
