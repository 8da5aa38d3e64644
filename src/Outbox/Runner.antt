-- ===== src/Outbox/Runner.antt =====
-- `_runWithRetry` of outbox-runner.ts and what it calls: one attempt at one row.
-- `processRow` is an argument, as in the source: it takes the claimed row and the table, may write
-- to the table, and returns or throws. Times are arguments: one instant at the claim, one after.
pub mod Backoff
pub mod Settle
pub mod Attempt
pub mod Promises
use stormbox.Base.{
  ℕ, suc, ◌+◌, ◌-◌, ◌*◌, ◌^◌, min, String, Bool, true, false, ◌&&◌, ◌||◌, List, [], ◌∷◌, ◌++◌, map,
  Option, none, some, ◌==◌, nat_eq, string_eq, leb, ltb, if◌then◌else◌, filter, contains, has,
  or_else, or_default, delete_where,
}
use stormbox.Outbox.Vocabulary.{
  MutationStatus, pending, in_flight, retry, conflicted, MutationType, type_eq,
}
use stormbox.Outbox.Errors.{JmapError, classify_auth, auth_type, auth_terminal}
use stormbox.Outbox.Recovery.{RecoveryOptions}
use stormbox.Outbox.Store.{Row, load_row, claim_in_flight, mark_retry, mark_conflicted, delete_row}

pub record RunnerOptions : Type 0 where
  pub recovery : RecoveryOptions
  pub open recovery use *
  pub max_attempts : ℕ
  pub max_attempts_by_type : List (MutationType × ℕ)
  pub backoff_base_ms : ℕ
  pub backoff_cap_ms : ℕ

abbrev terminal_error_types : List String
terminal_error_types =
    "forbidden" ∷ "notFound" ∷ "unknownMessage" ∷ "unknownFolder" ∷ "unknownIdentity"
    ∷ "invalidName" ∷ "duplicateContacts" ∷ "emptyUpdate" ∷ "unsupportedMutation" ∷ []

-- What `processRow` gives: `{ ok, error?, result? }`, or a throw of an error.
pub record ProcessResult : Type 0 where
  pub ok : Bool
  pub error : Option JmapError
  pub result : Option String

pub data Processed : Type 0 where
  returned : ProcessResult → Processed
  threw : JmapError → Processed

abbrev pub ProcessRow : Type 0
ProcessRow = Row → List Row → List Row × Processed

-- What the promise of `runMutation` is resolved with.
pub record Outcome : Type 0 where
  pub ok : Bool
  pub error : Option JmapError
  pub result : Option String

-- A registered promise: `ticket` tells it from others for the same row.
pub record Awaiter : Type 0 where
  pub mutation_id : ℕ
  pub ticket : ℕ
  pub mutation_type : MutationType

-- The part of the runner's state that an attempt reads and writes, with the log of the promises it
-- resolved and of the calls of the tally listeners.
pub record World : Type 0 where
  pub stopped : Bool
  pub rows : List Row
  pub awaiters : List Awaiter
  pub resolved : List (ℕ × Outcome)
  pub tallied : List (ℕ × Outcome)

abbrev pub awaits : ℕ → Awaiter → Bool
awaits id a = a.mutation_id == id

unfoldable pub resolve_awaiters : ℕ → Outcome → World → World
resolve_awaiters id outcome w = record w {
  awaiters = delete_where (awaits id) w.awaiters;
  resolved = w.resolved ++ map (λ a. (a.ticket, outcome)) (filter (awaits id) w.awaiters);
}

pub fire_tally : ℕ → Outcome → World → World
fire_tally id outcome w = record w { tallied = w.tallied ++ (id, outcome) ∷ [] }

abbrev limit_of : MutationType → List (MutationType × ℕ) → Option ℕ
limit_of t [] = none
limit_of t ((u, limit) ∷ rest) = if (u == t) && ltb 0 limit then some limit else limit_of t rest

pub attempt_limit : RunnerOptions → MutationType → ℕ
attempt_limit o t = or_default (limit_of t o.max_attempts_by_type) o.max_attempts

-- The error that a throw of `processRow` is turned into.
pub thrown_error : RunnerOptions → Row → JmapError → JmapError
thrown_error o row err =
    let authentication = classify_auth err in
    record {
      type = some (elim authentication [ none ↦ "transport" | some c ↦ auth_type c ]);
      status = err.status;
      detail = none;
      terminal =
          elim authentication [ none ↦ false | some c ↦ auth_terminal c ]
          || contains o.unsafe_to_replay_types row.mutation_type;
      result = none;
    }

abbrev pub result_of : RunnerOptions → Row → Processed → ProcessResult
result_of o row (returned r) = r
result_of o row (threw err) = record {
  ok = false;
  error = some (thrown_error o row err);
  result = none;
}

abbrev error_type : Option JmapError → String
error_type none = "unknown"
error_type (some e) = or_default e.type "unknown"

abbrev flagged_terminal : Option JmapError → Bool
flagged_terminal none = false
flagged_terminal (some e) = e.terminal

abbrev classify : Option JmapError → Option Bool
classify none = none
classify (some e) = elim (classify_auth e) [ none ↦ none | some c ↦ some (auth_terminal c) ]

unfoldable pub is_terminal : RunnerOptions → MutationType → ℕ → Option JmapError → Bool
unfolding attempt_limit
is_terminal o t attempt error =
    flagged_terminal error
    || (or_default (classify error) (contains terminal_error_types (error_type error))
        || leb (attempt_limit o t) attempt)

-- `Math.min(base * 2 ** (attempt - 1), cap)`.
pub backoff_delay : RunnerOptions → ℕ → ℕ
backoff_delay o attempt = min (o.backoff_base_ms * 2 ^ (attempt - 1)) o.backoff_cap_ms

abbrev failure_result : ProcessResult → Option String
failure_result r = or_else r.result (elim r.error [ none ↦ none | some e ↦ e.result ])

abbrev succeeded : ProcessResult → Outcome
succeeded r = record { ok = true; error = none; result = r.result }

abbrev failed_with : ProcessResult → Outcome
failed_with r = record { ok = false; error = r.error; result = failure_result r }

-- What follows the call of `processRow`: delete, park or schedule a retry.
unfoldable pub settle : RunnerOptions → ℕ → ℕ → Row → ProcessResult → World → World
unfolding is_terminal backoff_delay
settle o now attempt row r w =
    if r.ok
    then fire_tally row.id (succeeded r)
        (resolve_awaiters row.id (succeeded r) (record w { rows = delete_row row.id w.rows }))
    else if is_terminal o row.mutation_type attempt r.error
    then fire_tally row.id (failed_with r) (
        resolve_awaiters row.id (failed_with r)
          (record w { rows = mark_conflicted row.id r.error now w.rows }))
    else record w { rows = mark_retry row.id (now + backoff_delay o attempt) r.error now w.rows }

-- `_settleUnclaimedRow`: another writer had changed or removed the row.
abbrev pub plain_outcome : Bool → Option JmapError → Outcome
plain_outcome ok error = record { ok = ok; error = error; result = none }

abbrev pub settle_found : ℕ → Option Row → World → World
settle_found id none w = resolve_awaiters id (plain_outcome true none) w
settle_found id (some current) w = elim current.local_status [
  | conflicted ↦ resolve_awaiters id (plain_outcome false current.error_json) w
  | _ ↦ w
]

pub settle_unclaimed_row : RunnerOptions → ℕ → World → World
settle_unclaimed_row o id w = settle_found id (load_row o.account_id id w.rows) w

-- The instants that `_now()` gives at the claim and after the call.
pub record Instants : Type 0 where
  pub claimed_at : ℕ
  pub settled_at : ℕ

abbrev pub run_claimed : RunnerOptions → ProcessRow → ℕ → ℕ → Row → World → World
run_claimed o process now attempt row w =
    let (rows, processed) = process row w.rows in
    settle o now attempt row (result_of o row processed) (record w { rows = rows })

abbrev pub after_claim : RunnerOptions → ProcessRow → Instants → Row → Option Row → World → World
after_claim o process t row none w = settle_unclaimed_row o row.id w
after_claim o process t row (some active) w =
    run_claimed o process t.settled_at (row.attempts + 1) active w

unfoldable pub run_with_retry : RunnerOptions → ProcessRow → Instants → Row → World → World
run_with_retry o process t row w =
    let (rows, active) = claim_in_flight o.account_id (row.attempts + 1) t.claimed_at row w.rows in
    if w.stopped then w else after_claim o process t row active (record w { rows = rows })
