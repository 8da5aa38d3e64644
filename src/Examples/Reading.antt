-- ===== src/Examples/Reading.antt =====
-- Paging and scheduled sends at concrete values.
use stormbox.Base.{
  true, false, [], ◌∷◌, none, some, ◌≡◌, inr, refl, nat_eq, ◌≤◌, arith, leb, if◌then◌else◌,
}
use stormbox.Base.Int.{pos, ◌≤ℤ◌, ◌+ℤ◌, ◌-ℤ◌}
use stormbox.Paging.{
  CompleteQueryPage, CompleteQueryCursor, Options, CompleteQueryResult, complete,
  page_complete_query, paged, loop, round, take_page, after_visit,
}
use stormbox.Paging.Laws.{page_complete_query-ends}
use stormbox.Paging.Contents.{IsFaithful, IsWhole, Inv, page_complete_query-IsWhole}
use stormbox.Schedule.{
  ServerClockReference, ScheduleClockWindow, server, hold, compute_hold_for,
  validate_schedule_target, schedule_clock_window_from_reference,
  submission_release_observation_delay_ms, validate_instant, clock_of, valid_clock_reference,
}
use stormbox.Schedule.Window.{IsNarrow, schedule_clock_window-IsNarrow}
use stormbox.Schedule.HoldFor.{
  release, Decides, compute_hold_for-release, validate_schedule_target-Decides,
}

-- Three messages in pages of two.
abbrev of_three : CompleteQueryCursor → CompleteQueryPage
of_three c = record {
  ids = if leb 2 c.position then "m3" ∷ [] else "m1" ∷ "m2" ∷ [];
  query_state = some "s1";
  total = some 3;
  position = some c.position;
  limit = none;
}

abbrev in_twos : Options
in_twos = record {
  page_size = 2;
  start_position = 0;
  max_position = none;
  max_pages = some 10;
  allow_missing_query_state = false;
}

abbrev three_read : CompleteQueryResult
three_read = record {
  progress = record {
    pages = 2;
    position = 3;
    first_query_state = some (some "s1");
    total = some 3;
    stable_query_state = true;
    visited =
        record {
          ids = "m1" ∷ "m2" ∷ [];
          query_state = some "s1";
          total = some 3;
          position = some 0;
          limit = none;
        }
        ∷ record {
          ids = "m3" ∷ [];
          query_state = some "s1";
          total = some 3;
          position = some 2;
          limit = none;
        }
        ∷ [];
  };
  ending = complete;
}

three_are_read : page_complete_query 11 in_twos of_three ≡ paged three_read
unfolding page_complete_query loop round take_page after_visit
three_are_read = refl

page_complete_query-ends_example :
    (r : CompleteQueryResult) × (page_complete_query 11 in_twos of_three ≡ paged r)
page_complete_query-ends_example =
    page_complete_query-ends in_twos of_three 10 11 (inr (refl, omega arith)) (omega arith)

of_three-IsFaithful : IsFaithful of_three
of_three-IsFaithful c = refl

page_complete_query-IsWhole_example :
    Inv in_twos three_read.progress × IsWhole in_twos of_three three_read.progress
page_complete_query-IsWhole_example =
    page_complete_query-IsWhole in_twos of_three of_three-IsFaithful 11 three_read three_are_read
      refl

-- The server's clock is between 5 and 7 seconds ahead.
abbrev ahead : ServerClockReference
ahead = record {
  captured_at_ms = pos 900000;
  lower_offset_ms = pos 5000;
  uncertainty_ms = pos 2000;
}

abbrev window : ScheduleClockWindow
window = record { source = server; lower_ms = pos 1005000; upper_ms = pos 1007000 }

-- A send in an hour.
hour_is_held :
    compute_hold_for (some (pos 4600500)) (some 86400) (some ahead) (pos 1000000)
    ≡ hold (pos 4600500) 3596 window
unfolding compute_hold_for validate_schedule_target validate_instant clock_of valid_clock_reference
    schedule_clock_window_from_reference ◌-ℤ◌ ◌+ℤ◌
hour_is_held = refl

compute_hold_for-release_example :
    (3596 ≤ 86400)
    × (pos 4600500 ≤ℤ release (pos 1006000) 3596)
    × (release (pos 1006000) 3596 ≤ℤ pos 4600500 +ℤ pos submission_release_observation_delay_ms)
compute_hold_for-release_example =
    compute_hold_for-release (pos 4600500) 86400 (some ahead) (pos 1000000) (pos 1006000)
      (pos 4600500) 3596 window hour_is_held (omega arith) (omega arith)

validate_schedule_target-Decides_example :
    Decides
      (pos 4600500)
      86400
      (schedule_clock_window_from_reference (some ahead) (pos 1000000))
      (validate_schedule_target (some (pos 4600500)) (some 86400) none (some ahead) (pos 1000000))
validate_schedule_target-Decides_example =
    validate_schedule_target-Decides (pos 4600500) 86400 (some ahead) (pos 1000000) (omega arith)

schedule_clock_window-IsNarrow_example :
    IsNarrow (schedule_clock_window_from_reference (some ahead) (pos 1000000))
schedule_clock_window-IsNarrow_example = schedule_clock_window-IsNarrow (some ahead) (pos 1000000)
