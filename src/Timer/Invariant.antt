-- ===== src/Timer/Invariant.antt =====
-- What holds of the timer and all devices in every reachable state.
use hk252_co2017_nhom2_btl.Prelude.{
  arith, false, refl, replicate, suc, sym, true, update, update-all, zero, ℕ, ◌%◌, ◌+◌, ◌<◌, ◌==◌,
  ◌^◌, ◌||◌, ◌≡◌,
}
use mathlib.Core.Path.{subst}
use hk252_co2017_nhom2_btl.Timer.{
  fresh, attach_event, attached, Device, outside, TimerPc, head, collect, resume, System, bit_of,
  set_done, Step, slot_begins, slot_refused, passes, ticks, resumes, slot_ends, reports, returns,
  detaches, stops, device_at, start_timer, Reach, start, later,
}
use hk252_co2017_nhom2_btl.Timer.Counted.{
  Counted, Counted-update, passes-Counted, ends-Counted, ==-true, stops-Counted,
}
use hk252_co2017_nhom2_btl.Timer.Pace.{
  DeviceInv, begins-DeviceInv, refused-DeviceInv, passes-DeviceInv, ticks-DeviceInv,
  resumes_other-DeviceInv, resumes_self-DeviceInv, ends-DeviceInv, reports-DeviceInv,
  returns-DeviceInv, detaches-DeviceInv,
}

pub record Inv (n : ℕ) (s : System) : Type 0 where
  pub clock : s.time ≡ s.ended % 2 ^ 64
  pub devices : (i : ℕ) → i < n → DeviceInv s.timer s.ended i (s.device i)
  pub counted : Counted n s.timer_stop s.timer s.device

attached_lem : (n : ℕ) → attached n ≡ record { dev_list = replicate n fresh; timer_started = false }
unfolding attached attach_event
attached_lem zero = refl
attached_lem (suc n) = ground (arith, attached_lem n)

device_at-replicate :
    (n i : ℕ) → device_at (replicate n fresh) i ≡ record { id = fresh; pc = outside; turns = 0 }
device_at-replicate zero i = refl
device_at-replicate (suc n) zero = refl
device_at-replicate (suc n) (suc i) = device_at-replicate n i

start_timer-Inv : (n : ℕ) → Inv n (start_timer (attached n)).1
unfolding start_timer
start_timer-Inv n = record {
  clock = refl;
  devices = λ i lt.
      rw (attached_lem n, device_at-replicate n i)
        record {
          outside_idle = λ e. (refl, refl);
          waiting_live = λ e. refl;
          detached_fsh = λ e. absurd (cc e);
          reported = λ e. absurd (cc e);
          paced = λ e. refl;
        };
  counted = tt;
}

timer_at :
    {n : ℕ} {s : System} (t : TimerPc)
    → s.timer ≡ t
    → Inv n s
    → ((i : ℕ) → i < n → DeviceInv t s.ended i (s.device i)) × Counted n s.timer_stop t s.device
timer_at {n} {s} t e inv =
    subst
      (λ u.
        ((i : ℕ) → i < n → DeviceInv u s.ended i (s.device i)) × Counted n s.timer_stop u s.device)
      e (inv.devices, inv.counted)

-- A step of device `i` to `d`.
moved :
    {n : ℕ} {s : System} (i : ℕ) (d : Device)
    → ((s.device i).id.fsh ≡ true → d.id.fsh ≡ true)
    → Inv n s
    → DeviceInv s.timer s.ended i d
    → Inv n (record s { device = update s.device i d })
moved {n} {s} i d keeps inv new = record {
  clock = inv.clock;
  devices =
      λ j l. update-all s.device i d (DeviceInv s.timer s.ended) new j (λ ne. inv.devices j l);
  counted = Counted-update n s.timer_stop s.timer s.device i d keeps inv.counted;
}

-- Every step of the timer or a device keeps the invariant.
Step-Inv : {n : ℕ} {s t : System} → Step n s t → Inv n s → Inv n t
Step-Inv {n} {s} (slot_begins at on) inv =
    let (ds, c) = timer_at head at inv in
    record {
      clock = inv.clock;
      devices = λ i lt. begins-DeviceInv s.ended i (s.device i) (ds i lt);
      counted = (omega arith, refl, omega arith, λ q i lt. absurd (omega arith));
    }
Step-Inv {n} {s} (slot_refused at off) inv =
    let (ds, c) = timer_at head at inv in
    record {
      clock = inv.clock;
      devices = λ i lt. refused-DeviceInv s.ended i (s.device i) (ds i lt);
      counted = λ on. absurd (cc (on, off));
    }
Step-Inv {n} {s} (passes {k} {f} {e} at lt seen) inv =
    let (ds, c) = timer_at (collect k f e) at inv in
    record {
      clock = inv.clock;
      devices = λ i l.
          passes-DeviceInv s.ended i (s.device i) k f e (f + bit_of (s.device k).id.fsh) (e + 1)
            (λ same.
              subst (λ j. ((s.device j).id.done || (s.device j).id.fsh) ≡ true) (sym same) seen)
            (ds i l);
      counted = passes-Counted n s.timer_stop k f e s.device lt c;
    }
Step-Inv {n} {s} (ticks {k} {f} {e} at last) inv =
    let (ds, c) = timer_at (collect k f e) at inv in
    record {
      clock = omega (arith, inv.clock);
      devices = λ i l. ticks-DeviceInv s.ended i (s.device i) k f e f e (omega arith) (ds i l);
      counted = (
        omega arith,
        omega (arith, c.1),
        omega (arith, c.2),
        λ q i l. c.3 (omega arith) i (omega arith),
      );
    }
Step-Inv {n} {s} (resumes {k} {f} {e} at lt) inv =
    let (ds, c) = timer_at (resume k f e) at inv in
    record {
      clock = inv.clock;
      devices = λ i l.
          update-all s.device k (set_done (s.device k) false)
            (DeviceInv (resume (k + 1) f e) s.ended)
            (resumes_self-DeviceInv s.ended k (s.device k) f e (ds k lt)) i
            (λ ne. resumes_other-DeviceInv s.ended i (s.device i) k f e ne (ds i l));
      counted =
          Counted-update n s.timer_stop (resume (k + 1) f e) s.device k
            (set_done (s.device k) false) (λ q. q) (omega arith, c.1, c.2, c.3);
    }
Step-Inv {n} {s} (slot_ends {k} {f} {e} at last) inv =
    let (ds, c) = timer_at (resume k f e) at inv in
    record {
      clock = inv.clock;
      devices = λ i l. ends-DeviceInv s.ended i (s.device i) k f e (f == e) (omega arith) (ds i l);
      counted =
          ends-Counted n s.timer_stop (f == e) s.device
            (λ q. c.3 (omega (arith, ==-true f e q, c.1)));
    }
Step-Inv {n} {s} (reports i lt o) inv =
    moved i _ (λ q. q) inv (reports-DeviceInv s.timer s.ended i (s.device i) o (inv.devices i lt))
Step-Inv {n} {s} (returns i lt w o) inv =
    moved i _ (λ q. q) inv (returns-DeviceInv s.timer s.ended i (s.device i) w o (inv.devices i lt))
Step-Inv {n} {s} (detaches i lt o) inv =
    moved i _ (λ q. refl) inv
      (detaches-DeviceInv s.timer s.ended i (s.device i) o (inv.devices i lt))
Step-Inv {n} {s} stops inv = record {
  clock = inv.clock;
  devices = inv.devices;
  counted = stops-Counted n s.timer_stop s.timer s.device inv.counted;
}

pub Reach-Inv : {n : ℕ} {s : System} → Reach n s → Inv n s
Reach-Inv {n} start = start_timer-Inv n
Reach-Inv (later r step) = Step-Inv step (Reach-Inv r)
