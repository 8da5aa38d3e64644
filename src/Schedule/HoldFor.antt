-- ===== src/Schedule/HoldFor.antt =====
-- When the server releases a scheduled send.
use stormbox.Base.{ℕ, ◌*◌, ◌≤◌, ◌<◌, Option, none, some, ◌≡◌, arith, ◌⊎◌, subst}
use stormbox.Base.Int.{ℤ, pos, ◌+ℤ◌, ◌-ℤ◌, ◌≤ℤ◌, ◌<ℤ◌, pos_part, +ℤ_parts, -ℤ_parts, parts_zero}
use stormbox.Schedule.{
  ServerClockReference, ScheduleClockWindow, clock_of, ceil_seconds, accepted, refused, hold,
  ScheduleTargetValidation, validate_instant, validate_schedule_target, compute_hold_for,
  schedule_clock_window_from_reference, server_clock_max_uncertainty_ms,
  submission_release_observation_delay_ms, expired, too_far,
}
use stormbox.Schedule.Window.{schedule_clock_window-IsNarrow}

-- What an accepted target tells.
record Accepts (target : ℤ) (limit : ℕ) (clock : ScheduleClockWindow) (at : ℤ) (held : ℕ)
    (by : ScheduleClockWindow) : Type 0 where
  pub same_target : at ≡ target
  pub same_clock : by ≡ clock
  pub future : clock.upper_ms <ℤ target
  pub rounded : held ≡ ceil_seconds (pos_part (target -ℤ clock.lower_ms))
  pub within : held ≤ limit

validate_instant-accepted :
    (target : ℤ) (limit : ℕ) (clock : ScheduleClockWindow) (at : ℤ) (held : ℕ)
    (by : ScheduleClockWindow)
    → validate_instant target limit clock ≡ accepted at held by
    → Accepts target limit clock at held by
unfolding validate_instant
validate_instant-accepted target limit clock at held by h = ground arith

compute_hold_for-Accepts :
    (target : ℤ) (limit : ℕ) (r : Option ServerClockReference) (now at : ℤ) (held : ℕ)
    (by : ScheduleClockWindow)
    → compute_hold_for (some target) (some limit) r now ≡ hold at held by
    → Accepts target limit (schedule_clock_window_from_reference r now) at held by
unfolding compute_hold_for validate_schedule_target clock_of
compute_hold_for-Accepts target limit r now at held by h = ground (
  arith,
  validate_instant-accepted target limit (schedule_clock_window_from_reference r now) at held by,
)

-- The instant at which a server whose clock shows `s` releases a message that it holds.
abbrev pub release : ℤ → ℕ → ℤ
release s held = s +ℤ pos (held * 1000)

release_bounds :
    (target lower upper s : ℤ) (held : ℕ)
    → held ≡ ceil_seconds (pos_part (target -ℤ lower))
    → lower ≤ℤ s
    → s ≤ℤ upper
    → upper ≤ℤ lower +ℤ pos server_clock_max_uncertainty_ms
    → upper <ℤ target
    → (target ≤ℤ release s held)
      × (release s held ≤ℤ target +ℤ pos submission_release_observation_delay_ms)
release_bounds target lower upper s held e a b c d = omega (
  arith,
  -ℤ_parts target lower,
  parts_zero (target -ℤ lower),
  +ℤ_parts lower (pos server_clock_max_uncertainty_ms),
  +ℤ_parts s (pos (held * 1000)),
  +ℤ_parts target (pos submission_release_observation_delay_ms),
)

-- A scheduled send whose hold was computed is released at its time or later, and at most 33 seconds
-- later, whatever the server's clock shows within the window that the transport measured. The hold
-- keeps within the server's limit.
pub compute_hold_for-release :
    (target : ℤ) (limit : ℕ) (r : Option ServerClockReference) (now s at : ℤ) (held : ℕ)
    (by : ScheduleClockWindow)
    → compute_hold_for (some target) (some limit) r now ≡ hold at held by
    → by.lower_ms ≤ℤ s
    → s ≤ℤ by.upper_ms
    → (held ≤ limit)
      × (target ≤ℤ release s held)
      × (release s held ≤ℤ target +ℤ pos submission_release_observation_delay_ms)
compute_hold_for-release target limit r now s at held by h a b =
    let clock = schedule_clock_window_from_reference r now in
    let c = compute_hold_for-Accepts target limit r now at held by h in
    let (early, late) =
      release_bounds target clock.lower_ms clock.upper_ms s held c.rounded
        (subst (λ (w : ScheduleClockWindow). w.lower_ms ≤ℤ s) c.same_clock a)
        (subst (λ (w : ScheduleClockWindow). s ≤ℤ w.upper_ms) c.same_clock b)
        (schedule_clock_window-IsNarrow r now).1 c.future in
    (c.within, early, late)

future_needs_hold :
    (target lower upper : ℤ)
    → lower ≤ℤ upper
    → upper <ℤ target
    → 0 < ceil_seconds (pos_part (target -ℤ lower))
future_needs_hold target lower upper h k = omega (arith, -ℤ_parts target lower)

-- What a validation that passes the test of the limit says of a target.
abbrev pub Decides : ℤ → ℕ → ScheduleClockWindow → ScheduleTargetValidation → Type 0
Decides target limit clock result =
    let needed = ceil_seconds (pos_part (target -ℤ clock.lower_ms)) in
    ((target ≤ℤ clock.upper_ms) × (result ≡ refused expired clock))
    ⊎ ((clock.upper_ms <ℤ target) × (limit < needed) × (result ≡ refused too_far clock))
    ⊎ ((clock.upper_ms <ℤ target) × (needed ≤ limit) × (result ≡ accepted target needed clock))

validate_instant-Decides :
    (target : ℤ) (limit : ℕ) (clock : ScheduleClockWindow)
    → 0 < limit
    → clock.lower_ms ≤ℤ clock.upper_ms
    → Decides target limit clock (validate_instant target limit clock)
unfolding validate_instant
validate_instant-Decides target limit clock positive narrow =
    ground (arith, future_needs_hold target clock.lower_ms clock.upper_ms)

-- With a positive limit the target decides the answer: it is refused as expired if the server's
-- clock may have passed it, refused as too far if it needs a longer hold than the limit, and
-- accepted with the hold that it needs otherwise.
pub validate_schedule_target-Decides :
    (target : ℤ) (limit : ℕ) (r : Option ServerClockReference) (now : ℤ)
    → 0 < limit
    → Decides target limit
        (schedule_clock_window_from_reference r now)
        (validate_schedule_target (some target) (some limit) none r now)
unfolding validate_schedule_target clock_of
validate_schedule_target-Decides target limit r now positive =
    validate_instant-Decides target limit (schedule_clock_window_from_reference r now) positive
      (schedule_clock_window-IsNarrow r now).0
