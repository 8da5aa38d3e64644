-- ===== src/Outbox/Recovery.antt =====
-- `recoverStranded` of outbox-runner.ts: what becomes of rows that a dead worker left in flight.
pub mod Laws
pub mod Outcomes
use stormbox.Base.{
  ℕ, Bool, true, false, not, ◌&&◌, List, [], ◌∷◌, ◌++◌, Option, none, some, ◌==◌, nat_eq, contains,
  if◌then◌else◌, update_where,
}
use stormbox.Outbox.Vocabulary.{
  MutationStatus, pending, in_flight, conflicted, MutationPhase, MutationType, status_eq, type_eq,
  phase_eq,
}
use stormbox.Outbox.Errors.{JmapError}
use stormbox.Outbox.Store.{Row}

-- The options of a runner that recovery reads.
pub record RecoveryOptions : Type 0 where
  pub account_id : ℕ
  pub unsafe_to_replay_types : List MutationType
  pub replayable_phases : List MutationPhase
  pub completed_phases : List MutationPhase

abbrev pub is_nil {ℓ} : {A : Type ℓ} → List A → Bool
is_nil [] = true
is_nil (x ∷ xs) = false

-- `phase NOT IN (…)` in SQL: not true of NULL.
abbrev not_in : Option MutationPhase → List MutationPhase → Bool
not_in none phases = false
not_in (some p) phases = not (contains phases p)

abbrev resumable : RecoveryOptions → List MutationPhase
resumable o = o.replayable_phases ++ o.completed_phases

abbrev pub interrupted : JmapError
interrupted = record {
  type = some "outcomeUnknown";
  status = none;
  detail = none;
  terminal = true;
  result = none;
}

abbrev pub is_stranded : RecoveryOptions → Row → Bool
is_stranded o r = (r.account_id == o.account_id) && (r.local_status == in_flight)

abbrev pub is_ambiguous : RecoveryOptions → Row → Bool
is_ambiguous o r =
    contains o.unsafe_to_replay_types r.mutation_type
    && (if is_nil (resumable o) then true else not_in r.phase (resumable o))

-- The first UPDATE runs only if some type is guarded.
park_ambiguous : RecoveryOptions → ℕ → List Row → List Row
park_ambiguous o now rows =
    if is_nil o.unsafe_to_replay_types
    then rows
    else update_where (λ r. is_stranded o r && is_ambiguous o r)
        (λ r. record r {
          local_status = conflicted;
          error_json = some interrupted;
          updated_at = now;
        })
        rows

pub requeue_stranded : RecoveryOptions → ℕ → List Row → List Row
requeue_stranded o now =
    update_where (is_stranded o)
      (λ r. record r { local_status = pending; not_before = none; updated_at = now })

unfoldable pub recover_stranded : RecoveryOptions → ℕ → List Row → List Row
unfolding park_ambiguous requeue_stranded
recover_stranded o now rows = requeue_stranded o now (park_ambiguous o now rows)
