-- ===== src/Schedule.antt =====
-- src/utils/schedule-time.ts and src/sync/backends/jmap/schedule-time.ts: the server clock and the
-- HOLDFOR parameter of a scheduled send. Times are whole milliseconds; `none` stands for a value
-- that is no finite number, no safe integer or no absolute timestamp. `Date.parse` is outside the
-- model: a target is the instant that it gives.
pub mod Window
pub mod HoldFor
use stormbox.Base.{
  ℕ, suc, ◌+◌, ◌-◌, ◌*◌, ◌/◌, Bool, true, false, not, ◌&&◌, ◌||◌, Option, none, some, leb, ltb,
  if◌then◌else◌,
}
use stormbox.Base.Int.{ℤ, pos, negsuc, ◌+ℤ◌, ◌-ℤ◌, ◌≤ℤ◌, lebℤ, abs, pos_part, neg_part}

abbrev server_clock_max_age_ms : ℕ
server_clock_max_age_ms = 600000

abbrev pub server_clock_max_abs_offset_ms : ℕ
server_clock_max_abs_offset_ms = 86400000

abbrev pub server_clock_max_uncertainty_ms : ℕ
server_clock_max_uncertainty_ms = 31000

abbrev pub submission_release_observation_delay_ms : ℕ
submission_release_observation_delay_ms = server_clock_max_uncertainty_ms + 2000

pub record ServerClockReference : Type 0 where
  pub captured_at_ms : ℤ
  pub lower_offset_ms : ℤ
  pub uncertainty_ms : ℤ

pub data ClockSource : Type 0 where
  server local : ClockSource

pub record ScheduleClockWindow : Type 0 where
  pub source : ClockSource
  pub lower_ms : ℤ
  pub upper_ms : ℤ

abbrev local_window : ℤ → ScheduleClockWindow
local_window now = record { source = local; lower_ms = now; upper_ms = now }

unfoldable pub valid_clock_reference : ServerClockReference → ℤ → Bool
valid_clock_reference value local_now_ms =
    let age_ms = local_now_ms -ℤ value.captured_at_ms in
    lebℤ (pos 0) age_ms
    && (lebℤ age_ms (pos server_clock_max_age_ms)
        && (leb (abs value.lower_offset_ms) server_clock_max_abs_offset_ms
            && (lebℤ (pos 0) value.uncertainty_ms
                && (lebℤ value.uncertainty_ms (pos server_clock_max_uncertainty_ms)
                    && leb (abs (value.lower_offset_ms +ℤ value.uncertainty_ms))
                        server_clock_max_abs_offset_ms))))

unfoldable pub schedule_clock_window_from_reference :
    Option ServerClockReference → ℤ → ScheduleClockWindow
schedule_clock_window_from_reference none local_now_ms = local_window local_now_ms
schedule_clock_window_from_reference (some reference) local_now_ms =
    let lower_ms = local_now_ms +ℤ reference.lower_offset_ms in
    if valid_clock_reference reference local_now_ms
    then record {
      source = server;
      lower_ms = lower_ms;
      upper_ms = lower_ms +ℤ reference.uncertainty_ms;
    }
    else local_window local_now_ms

unfoldable pub normalized_clock_window : ScheduleClockWindow → ℤ → ScheduleClockWindow
normalized_clock_window window local_now_ms =
    if lebℤ window.lower_ms window.upper_ms then window else local_window local_now_ms

pub data Reason : Type 0 where
  invalid_target capability_unavailable expired too_far : Reason

pub data ScheduleTargetValidation : Type 0 where
  accepted : ℤ → ℕ → ScheduleClockWindow → ScheduleTargetValidation
  refused : Reason → ScheduleClockWindow → ScheduleTargetValidation

-- `Math.ceil(ms / 1000)` of a positive difference.
abbrev pub ceil_seconds : ℕ → ℕ
ceil_seconds ms = (ms + 999) / 1000

-- The clock that a validation goes by.
unfoldable pub clock_of :
    Option ScheduleClockWindow → Option ServerClockReference → ℤ → ScheduleClockWindow
clock_of none reference local_now_ms = schedule_clock_window_from_reference reference local_now_ms
clock_of (some window) reference local_now_ms = normalized_clock_window window local_now_ms

-- The tests on a target and a limit that could be read. A difference that is not positive gives
-- no hold, which the source refuses as expired.
unfoldable pub validate_instant : ℤ → ℕ → ScheduleClockWindow → ScheduleTargetValidation
validate_instant target_ms max_delayed_send clock =
    let hold_for = ceil_seconds (pos_part (target_ms -ℤ clock.lower_ms)) in
    if ltb max_delayed_send 1
    then refused capability_unavailable clock
    else if lebℤ target_ms clock.upper_ms
    then refused expired clock
    else if ltb hold_for 1
    then refused expired clock
    else if ltb max_delayed_send hold_for
    then refused too_far clock
    else accepted target_ms hold_for clock

unfoldable pub validate_schedule_target :
    Option ℤ
    → Option ℕ
    → Option ScheduleClockWindow
    → Option ServerClockReference
    → ℤ
    → ScheduleTargetValidation
validate_schedule_target none limit window reference now =
    refused invalid_target (clock_of window reference now)
validate_schedule_target (some target) none window reference now =
    refused capability_unavailable (clock_of window reference now)
validate_schedule_target (some target) (some limit) window reference now =
    validate_instant target limit (clock_of window reference now)

-- `computeHoldFor` throws a typed error in place of a refusal.
pub data ScheduleError : Type 0 where
  invalid_schedule_target schedule_capability_unavailable : ScheduleError
  schedule_expired schedule_too_far : ScheduleError

pub data HoldForResult : Type 0 where
  hold : ℤ → ℕ → ScheduleClockWindow → HoldForResult
  throws : ScheduleError → HoldForResult

abbrev error_of : Reason → ScheduleError
error_of invalid_target = invalid_schedule_target
error_of capability_unavailable = schedule_capability_unavailable
error_of expired = schedule_expired
error_of too_far = schedule_too_far

abbrev hold_result : ScheduleTargetValidation → HoldForResult
hold_result (accepted target hold_for clock) = hold target hold_for clock
hold_result (refused reason clock) = throws (error_of reason)

-- The target is tested before the limit, as `parseAbsoluteTarget` runs first.
unfoldable pub compute_hold_for :
    Option ℤ → Option ℕ → Option ServerClockReference → ℤ → HoldForResult
compute_hold_for none limit reference now = throws invalid_schedule_target
compute_hold_for (some target) none reference now = throws schedule_capability_unavailable
compute_hold_for (some target) (some limit) reference now =
    if ltb limit 1
    then throws schedule_capability_unavailable
    else hold_result (validate_schedule_target (some target) (some limit) none reference now)
