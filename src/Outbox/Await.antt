-- ===== src/Outbox/Await.antt =====
-- `runMutation`, `_awaitMutation` and `stop` of outbox-runner.ts: the promise that a caller waits
-- for. What other tasks do while a statement is awaited is an argument, a function on the world.
pub mod Laws
use stormbox.Base.{
  ℕ, String, Bool, true, false, not, ◌&&◌, List, [], ◌∷◌, ◌++◌, map, Option, none, some, ◌==◌,
  nat_eq, contains, if◌then◌else◌, or_else,
}
use stormbox.Outbox.Vocabulary.{
  MutationStatus, pending, in_flight, retry, conflicted, failed, MutationType, type_eq,
}
use stormbox.Outbox.Errors.{JmapError, typed_error}
use stormbox.Outbox.Store.{Row, load_row, clear_backoff}
use stormbox.Outbox.Store.Laws.{is_live_status}
use stormbox.Outbox.Runner.{RunnerOptions, Outcome, Awaiter, World, resolve_awaiters, plain_outcome}

-- What `runMutation` returns.
pub record Summary : Type 0 where
  pub attempted : ℕ
  pub succeeded : ℕ
  pub failed : ℕ
  pub result : Option String
  pub error_type : Option String

abbrev counts : ℕ → ℕ → ℕ → Option String → Summary
counts n good bad type = record {
  attempted = n;
  succeeded = good;
  failed = bad;
  result = none;
  error_type = type;
}

abbrev outcome_unknown : JmapError
outcome_unknown = record {
  type = some "outcomeUnknown";
  status = none;
  detail = none;
  terminal = true;
  result = none;
}

pub stopped_error : RunnerOptions → MutationType → JmapError
stopped_error o t =
    if contains o.unsafe_to_replay_types t then outcome_unknown else typed_error "stopped"

pub summary_of : Outcome → Summary
summary_of outcome = record {
  attempted = 1;
  succeeded = if outcome.ok then 1 else 0;
  failed = if outcome.ok then 0 else 1;
  result = or_else outcome.result (elim outcome.error [ none ↦ none | some e ↦ e.result ]);
  error_type = if outcome.ok then none else elim outcome.error [ none ↦ none | some e ↦ e.type ];
}

-- The answer of the first read of the row, where it has one. The source's three tests for a status
-- that the runner still works on are `is_live_status`.
pub first_answer : Option Row → Option Summary
first_answer none = some (counts 0 1 0 none)
first_answer (some row) = elim row.local_status [
  | conflicted ↦ some (counts 0 0 1 none)
  | failed ↦ some (counts 0 0 0 none)
  | _ ↦ none
]

abbrev pub register : ℕ → ℕ → MutationType → World → World
register id ticket t w = record w {
  awaiters = w.awaiters ++ record { mutation_id = id; ticket = ticket; mutation_type = t } ∷ [];
}

-- The read after the registration: a row that has settled meanwhile answers the promise.
pub recheck : ℕ → Option Row → World → World
recheck id none w = resolve_awaiters id (plain_outcome true none) w
recheck id (some current) w = elim current.local_status [
  | conflicted ↦ resolve_awaiters id (plain_outcome false current.error_json) w
  | failed ↦ resolve_awaiters id (plain_outcome false (some (typed_error "unexpectedStatus"))) w
  | _ ↦ w
]

abbrev wait_for : RunnerOptions → ℕ → ℕ → (World → World) → Row → World → World × Option Summary
wait_for o id ticket meanwhile row w =
    if w.stopped
    then (w, some (counts 1 0 1 (stopped_error o row.mutation_type).type))
    else let w' = meanwhile (register id ticket row.mutation_type w) in
      (recheck id (load_row o.account_id id w'.rows) w', none)

abbrev pub begin_wait :
    RunnerOptions
    → ℕ
    → ℕ
    → ℕ
    → (World → World)
    → (World → World)
    → Option Row
    → World
    → World × Option Summary
begin_wait o id ticket now during_update during_read none w = (w, none)
begin_wait o id ticket now during_update during_read (some row) w =
    wait_for o id ticket during_read row
      (during_update (record w { rows = clear_backoff o.account_id id now w.rows }))

abbrev pub answered : Option Summary → World → World × Option Summary → World × Option Summary
answered none w waiting = waiting
answered (some summary) w waiting = (w, some summary)

-- The call of `notify` at the end is an event of `Control`.
-- The world after the call has registered its promise, and the summary if it has one at once. A
-- summary that is not there yet is `summary_of` the outcome that resolves the ticket.
pub await_mutation :
    RunnerOptions → ℕ → ℕ → ℕ → (World → World) → (World → World) → World → World × Option Summary
unfolding first_answer recheck stopped_error clear_backoff load_row
await_mutation o id ticket now during_update during_read w =
    let row = load_row o.account_id id w.rows in
    answered (first_answer row) w (begin_wait o id ticket now during_update during_read row w)

unfoldable pub run_mutation :
    RunnerOptions → ℕ → ℕ → ℕ → (World → World) → (World → World) → World → World × Option Summary
unfolding await_mutation
run_mutation o id ticket now during_update during_read w =
    if w.stopped
    then (w, some (counts 0 0 0 none))
    else await_mutation o id ticket now during_update during_read w

-- `stop`, once the drain in flight has settled: every promise is resolved.
pub stop : RunnerOptions → World → World
unfolding stopped_error
stop o w = record w {
  stopped = true;
  awaiters = [];
  resolved =
      w.resolved
      ++ map (λ a. (a.ticket, plain_outcome false (some (stopped_error o a.mutation_type))))
          w.awaiters;
}
