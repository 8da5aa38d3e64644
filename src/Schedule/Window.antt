-- ===== src/Schedule/Window.antt =====
-- The clock window of `scheduleClockWindow` in src/utils/schedule-time.ts: its order and its width.
use stormbox.Base.{◌≤◌, true, Option, none, some, ◌≡◌, arith, inl, inr, Bool-cases}
use stormbox.Base.Int.{ℤ, pos, ◌+ℤ◌, ◌≤ℤ◌, abs, +ℤ_parts}
use stormbox.Schedule.{
  ServerClockReference, ScheduleClockWindow, valid_clock_reference,
  schedule_clock_window_from_reference, server_clock_max_uncertainty_ms,
  server_clock_max_abs_offset_ms,
}

-- A window in order, and no wider than the largest uncertainty.
abbrev pub IsNarrow : ScheduleClockWindow → Type 0
IsNarrow w =
    (w.lower_ms ≤ℤ w.upper_ms) × (w.upper_ms ≤ℤ w.lower_ms +ℤ pos server_clock_max_uncertainty_ms)

valid_clock_reference-bounds :
    (r : ServerClockReference) (now : ℤ)
    → valid_clock_reference r now ≡ true
    → (pos 0 ≤ℤ r.uncertainty_ms)
      × (r.uncertainty_ms ≤ℤ pos server_clock_max_uncertainty_ms)
      × (abs r.lower_offset_ms ≤ server_clock_max_abs_offset_ms)
unfolding valid_clock_reference
valid_clock_reference-bounds r now h = ground arith

window_upper :
    (lower u : ℤ)
    → pos 0 ≤ℤ u
    → u ≤ℤ pos server_clock_max_uncertainty_ms
    → (lower ≤ℤ lower +ℤ u) × (lower +ℤ u ≤ℤ lower +ℤ pos server_clock_max_uncertainty_ms)
window_upper lower u h k =
    omega (arith, +ℤ_parts lower u, +ℤ_parts lower (pos server_clock_max_uncertainty_ms))

-- The window that a reference gives is in order and at most 31 seconds wide, also when the
-- reference is refused and the local clock stands in.
pub schedule_clock_window-IsNarrow :
    (r : Option ServerClockReference) (now : ℤ)
    → IsNarrow (schedule_clock_window_from_reference r now)
unfolding schedule_clock_window_from_reference
schedule_clock_window-IsNarrow none now =
    omega (arith, +ℤ_parts now (pos server_clock_max_uncertainty_ms))
schedule_clock_window-IsNarrow (some r) now = elim (Bool-cases (valid_clock_reference r now)) [
  | inl h ↦
      let (a, b, _) = valid_clock_reference-bounds r now h in
      rw h (window_upper (now +ℤ r.lower_offset_ms) r.uncertainty_ms a b)
  | inr h ↦ rw h (omega (arith, +ℤ_parts now (pos server_clock_max_uncertainty_ms)))
]
