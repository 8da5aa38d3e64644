-- ===== src/Outbox/Control.antt =====
-- `notify`, `_kickDrain` and the timers of outbox-runner.ts: when a drain pass starts.
-- `passes` counts the drain passes that were started; the source keeps no such count.
pub mod Laws
use stormbox.Base.{ℕ, ◌+◌, Bool, true, false, not, ◌&&◌, List, [], ◌∷◌, if◌then◌else◌}

pub record Control : Type 0 where
  pub stopped : Bool
  pub drain_inflight : Bool
  pub kick_pending : Bool
  pub notify_timer : Bool
  pub wake_timer : Bool
  pub passes : ℕ

abbrev pub initial : Control
initial = record {
  stopped = false;
  drain_inflight = false;
  kick_pending = false;
  notify_timer = false;
  wake_timer = false;
  passes = 0;
}

kick_drain : Control → Control
kick_drain c =
    if c.stopped
    then c
    else if c.drain_inflight
    then c
    else record c { kick_pending = false; drain_inflight = true; passes = c.passes + 1 }

unfoldable pub notify : Bool → Control → Control
unfolding kick_drain
notify immediate c =
    let asked = record c { kick_pending = true } in
    if c.stopped
    then c
    else if c.drain_inflight
    then asked
    else if immediate
    then kick_drain (record asked { notify_timer = false })
    else if c.notify_timer
    then asked
    else record asked { notify_timer = true }

-- The callback of the notify timer, which runs only if the timer is armed.
unfoldable pub notify_timer_fires : Control → Control
unfolding kick_drain
notify_timer_fires c = if c.notify_timer then kick_drain (record c { notify_timer = false }) else c

-- `_scheduleNextWake` at the end of a pass, and its callback.
schedule_next_wake : Bool → Control → Control
schedule_next_wake row_waits c = record c { wake_timer = row_waits }

wake_timer_fires : Control → Control
unfolding kick_drain
wake_timer_fires c = if c.wake_timer then kick_drain (record c { wake_timer = false }) else c

-- The `finally` of `_kickDrain`.
pub drain_finishes : Control → Control
unfolding kick_drain
drain_finishes c =
    let idle = record c { drain_inflight = false } in
    if not c.drain_inflight
    then c
    else if c.kick_pending && not c.stopped
    then kick_drain idle
    else idle

-- `drain`, once no pass is in flight.
drain_now : Control → Control
unfolding kick_drain
drain_now c =
    if c.stopped
    then c
    else if c.drain_inflight
    then c
    else kick_drain (record c { kick_pending = true })

stop_timers : Control → Control
stop_timers c = record c { stopped = true; notify_timer = false; wake_timer = false }

pub data Event : Type 0 where
  notified : Bool → Event
  notify_timer wake_timer finished drained stopping : Event
  wake_scheduled : Bool → Event

unfoldable pub step : Control → Event → Control
unfolding notify notify_timer_fires wake_timer_fires drain_finishes drain_now stop_timers
    schedule_next_wake
step c (notified immediate) = notify immediate c
step c notify_timer = notify_timer_fires c
step c wake_timer = wake_timer_fires c
step c finished = drain_finishes c
step c drained = drain_now c
step c stopping = stop_timers c
step c (wake_scheduled row_waits) = schedule_next_wake row_waits c

unfoldable pub run : Control → List Event → Control
run c [] = c
run c (e ∷ es) = run (step c e) es
