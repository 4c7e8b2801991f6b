-- ===== src/Tests/Timers.antt =====
-- A run of the timer with two devices (src/timer.c).
use hk252_co2017_nhom2_btl.Prelude.{arith, refl, ◌%◌, ◌+◌, ◌^◌, ◌≡◌, ◌≤◌, ◌⊎◌}
use hk252_co2017_nhom2_btl.Timer.{
  System, slot_begins, passes, ticks, resumes, reports, returns, Reach, start, later, start_timer,
  attach_event, attached,
}
use hk252_co2017_nhom2_btl.Timer.Lockstep.{
  Moves, IsAwaited, Reach-turns, Reach-Moves, Reach-lockstep,
}

-- One slot of two devices; the first of them has returned from next_slot.
abbrev one_slot : (s : System) × Reach 2 s
unfolding start_timer attached attach_event
one_slot = (
  _,
  later
      (later
        (later
          (later
            (later
              (later (later (later start (reports 0 (omega arith) refl)) (slot_begins refl refl))
                (passes refl (omega arith) refl))
              (reports 1 (omega arith) refl))
            (passes refl (omega arith) refl))
          (ticks refl refl))
        (resumes refl (omega arith)))
      (returns 0 (omega arith) refl refl),
)

Reach-turns_example :
    ((one_slot.0.device 0).turns ≡ one_slot.0.ended)
    × (one_slot.0.time ≡ (one_slot.0.device 0).turns % 2 ^ 64)
unfolding start_timer attached attach_event
Reach-turns_example = Reach-turns one_slot.1 0 (omega arith) refl

Reach-Moves_example : Moves 2 one_slot.0 ⊎ IsAwaited 2 one_slot.0
unfolding start_timer attached attach_event
Reach-Moves_example = Reach-Moves one_slot.1 (λ e. absurd (cc e))

Reach-lockstep_example : (one_slot.0.device 0).turns ≤ (one_slot.0.device 1).turns + 1
unfolding start_timer attached attach_event
Reach-lockstep_example = Reach-lockstep one_slot.1 0 1 (omega arith) (omega arith) refl refl
