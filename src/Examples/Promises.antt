-- ===== src/Examples/Promises.antt =====
-- Attempts, promises and the timers at concrete values.
use stormbox.Base.{
  ℕ, true, false, List, [], ◌∷◌, none, some, ◌≡◌, ◌⊎◌, inr, refl, nat_eq, ◌*◌, ◌≤◌, ◌<◌, min, arith,
  ◌++◌,
}
use stormbox.Outbox.Vocabulary.{
  pending, in_flight, retry, MutationType, send, set_keywords, type_eq, status_eq,
}
use stormbox.Outbox.Errors.{classify_auth, JmapError, typed_error}
use stormbox.Outbox.Store.{Row, load_row, claim_in_flight, mark_retry}
use stormbox.Outbox.Recovery.Outcomes.{backend_options}
use stormbox.Outbox.Runner.{
  RunnerOptions, returned, threw, ProcessRow, World, Instants, backoff_delay, run_with_retry,
  settle, Outcome, thrown_error,
}
use stormbox.Outbox.Runner.Backoff.{backoff_delay-doubles}
use stormbox.Outbox.Runner.Settle.{IsSettled, IsParked}
use stormbox.Outbox.Runner.Attempt.{claim, run_with_retry-IsSettled, run_with_retry-unsafe_throw}
use stormbox.Outbox.Runner.Promises.{AllServed, run_with_retry-AllServed}
use stormbox.Outbox.Await.{await_mutation, stop}
use stormbox.Outbox.Await.Laws.{every, await_mutation-AllServed, AreTold, stop-AreTold}
use stormbox.Outbox.Control.{
  Control, Event, initial, notified, notify_timer, finished, notify, run, step, drain_finishes,
  notify_timer_fires,
}
use stormbox.Outbox.Control.Laws.{IsServed, notify-run, IsArmed-serves, step-single_flight}

-- The runner's defaults, for account 7.
abbrev pub options : RunnerOptions
options = record {
  recovery = backend_options 7;
  max_attempts = 8;
  max_attempts_by_type = [];
  backoff_base_ms = 1000;
  backoff_cap_ms = 60000;
}

abbrev pub queued_row : ℕ → MutationType → Row
queued_row id type = record {
  id = id;
  account_id = 7;
  mutation_type = type;
  local_status = pending;
  target_message_id = some 40;
  phase = none;
  request_json = "{}";
  error_json = none;
  attempts = 0;
  not_before = none;
  last_attempt_at = none;
  created_at = 10;
  updated_at = 10;
}

abbrev pub in_flight_row : ℕ → MutationType → Row
in_flight_row id type = record (queued_row id type) {
  local_status = in_flight;
  attempts = 1;
  last_attempt_at = some 100;
  updated_at = 100;
}

abbrev pub world : Row → World
world r = record {
  stopped = false;
  rows = r ∷ [];
  awaiters = record { mutation_id = r.id; ticket = 1; mutation_type = r.mutation_type } ∷ [];
  resolved = [];
  tallied = [];
}

abbrev pub instants : Instants
instants = record { claimed_at = 100; settled_at = 250 }

abbrev busy : JmapError
busy = typed_error "serverUnavailable"

abbrev fails : ProcessRow
fails row rows = (rows, returned (record { ok = false; error = some busy; result = none }))

abbrev throws : ProcessRow
throws row rows = (rows, threw busy)

abbrev flag : Row
flag = queued_row 1 set_keywords

abbrev outgoing : Row
outgoing = queued_row 2 send

-- A failed attempt waits a second and keeps its row.
failed_flag_waits :
    load_row 7 1 (run_with_retry options fails instants flag (world flag)).rows
    ≡ some (record (in_flight_row 1 set_keywords) {
      local_status = retry;
      not_before = some 1250;
      error_json = some busy;
      updated_at = 250;
    })
unfolding load_row run_with_retry claim_in_flight settle classify_auth mark_retry
failed_flag_waits = refl

backoff_delay-doubles_example :
    (backoff_delay options 1 ≡ min 1000 60000)
    × (backoff_delay options 4 ≡ min (2 * backoff_delay options 3) 60000)
    × (backoff_delay options 2 ≤ 60000)
backoff_delay-doubles_example = backoff_delay-doubles options 2

flag_claimed : (claim options instants flag (world flag)).1 ≡ some (in_flight_row 1 set_keywords)
unfolding claim_in_flight
flag_claimed = refl

flag_left : fails (in_flight_row 1 set_keywords) (claim options instants flag (world flag)).0 ≡ (
  in_flight_row 1 set_keywords ∷ [],
  returned (record { ok = false; error = some busy; result = none }),
)
unfolding claim_in_flight
flag_left = refl

outgoing_left :
    throws (in_flight_row 2 send) (claim options instants outgoing (world outgoing)).0
    ≡ (in_flight_row 2 send ∷ [], threw busy)
unfolding claim_in_flight
outgoing_left = refl

run_with_retry-IsSettled_example :
    IsSettled options 250 1 set_keywords 1
      (record { ok = false; error = some busy; result = none })
      (in_flight_row 1 set_keywords ∷ [])
      (run_with_retry options fails instants flag (world flag)).rows
run_with_retry-IsSettled_example =
    run_with_retry-IsSettled options fails instants flag (in_flight_row 1 set_keywords) (world flag)
      (in_flight_row 1 set_keywords ∷ [])
      (returned (record { ok = false; error = some busy; result = none })) refl flag_claimed
      flag_left

send_claimed : (claim options instants outgoing (world outgoing)).1 ≡ some (in_flight_row 2 send)
unfolding claim_in_flight
send_claimed = refl

run_with_retry-unsafe_throw_example :
    IsParked 2
      (some (thrown_error options (in_flight_row 2 send) busy))
      (in_flight_row 2 send ∷ [])
      (run_with_retry options throws instants outgoing (world outgoing)).rows
run_with_retry-unsafe_throw_example =
    run_with_retry-unsafe_throw options throws instants outgoing (in_flight_row 2 send)
      (world outgoing) (in_flight_row 2 send ∷ []) busy refl send_claimed outgoing_left refl

flag_awaited : AllServed every (world flag)
flag_awaited = ((λ _. refl), tt)

run_with_retry-AllServed_example :
    AllServed every (run_with_retry options fails instants flag (world flag))
run_with_retry-AllServed_example =
    run_with_retry-AllServed every options fails instants flag (world flag)
      (λ row rows id live. live) flag_awaited

-- The row settles while the caller reads it.
abbrev settles_meanwhile : World → World
settles_meanwhile = run_with_retry options fails instants flag

await_mutation-AllServed_example :
    AllServed every (await_mutation options 1 2 90 (λ w. w) settles_meanwhile (world flag)).0
await_mutation-AllServed_example =
    await_mutation-AllServed options 1 2 90 (λ w. w) settles_meanwhile (world flag) (λ p w s. s)
      (λ p w s.
        run_with_retry-AllServed p options fails instants flag w (λ row rows id live. live) s)
      flag_awaited

stop-AreTold_example :
    ((stop options (world outgoing)).awaiters ≡ [])
    × ((told : List (ℕ × Outcome)) × ((stop options (world outgoing)).resolved
          ≡ (world outgoing).resolved ++ told)
        × AreTold options (world outgoing).awaiters told)
stop-AreTold_example = stop-AreTold options (world outgoing)

-- A request in the middle of a pass gives one more pass after it.
abbrev asked_twice : List Event
asked_twice = notified false ∷ finished ∷ finished ∷ []

two_passes : (run (notify true initial) asked_twice).passes ≡ 2
unfolding run notify step
two_passes = refl

notify-run_example : IsServed 0 (run (notify true initial) asked_twice)
notify-run_example = notify-run initial true asked_twice

abbrev armed : Control
armed = record {
  stopped = false;
  drain_inflight = false;
  kick_pending = true;
  notify_timer = true;
  wake_timer = false;
  passes = 4;
}

IsArmed-serves_example :
    ((armed.drain_inflight ≡ true) × ((drain_finishes armed).passes ≡ 5))
    ⊎ ((armed.drain_inflight ≡ false) × ((notify_timer_fires armed).passes ≡ 5))
IsArmed-serves_example = IsArmed-serves armed refl (refl, inr refl)

armed_starts : 4 < (step armed notify_timer).passes
unfolding step notify_timer_fires
armed_starts = omega arith

step-single_flight_example :
    ((armed.drain_inflight ≡ false) ⊎ (notify_timer ≡ finished))
    × ((step armed notify_timer).passes ≡ 5)
step-single_flight_example = step-single_flight armed notify_timer armed_starts
