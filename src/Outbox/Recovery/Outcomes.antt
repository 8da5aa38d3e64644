-- ===== src/Outbox/Recovery/Outcomes.antt =====
-- What holds of the table after recovery, and what recovery decides for a send.
use stormbox.Base.{
  ℕ, Bool, true, false, not, List, [], ◌∷◌, Option, none, some, nat_eq, if◌then◌else◌, map, ◌≡◌,
  refl, arith, Bool-cases, inl, inr, All, ◌∙◌, sym, ap, String,
}
use stormbox.Outbox.Vocabulary.{
  pending, in_flight, conflicted, MutationPhase, MutationType, status_eq, type_eq, phase_eq, send,
  unsafe_to_replay_mutation_types, replayable_mutation_phases, completed_mutation_phases, queued,
  created, submitting, submitted, cache_pending, unknown,
}
use stormbox.Outbox.Store.{Row}
use stormbox.Outbox.Recovery.{
  RecoveryOptions, interrupted, is_stranded, is_ambiguous, recover_stranded,
}
use stormbox.Outbox.Recovery.Laws.{reclaim, recover_stranded-eq-map}

reclaim-not_stranded :
    (o : RecoveryOptions) (now : ℕ) (r : Row) → is_stranded o (reclaim o now r) ≡ false
unfolding reclaim
reclaim-not_stranded o now r = elim (Bool-cases (is_stranded o r)) [
  | inl s ↦ ground arith
  | inr s ↦ ground arith
]

map-not_stranded :
    (o : RecoveryOptions) (now : ℕ) (rows : List Row)
    → All (λ r. is_stranded o r ≡ false) (map (reclaim o now) rows)
map-not_stranded o now [] = tt
map-not_stranded o now (r ∷ rows) = (reclaim-not_stranded o now r, map-not_stranded o now rows)

-- After recovery no row of the account is in flight, so that every row is queued again or settled.
pub recover_stranded-none_stranded :
    (o : RecoveryOptions) (now : ℕ) (rows : List Row)
    → All (λ r. is_stranded o r ≡ false) (recover_stranded o now rows)
recover_stranded-none_stranded o now rows =
    rw (recover_stranded-eq-map o now rows) (map-not_stranded o now rows)

-- The columns that say what a mutation is and how often it was tried.
abbrev pub identity_of : Row → ℕ × ℕ × MutationType × String × ℕ × Option MutationPhase
identity_of r = (r.id, r.account_id, r.mutation_type, r.request_json, r.attempts, r.phase)

reclaim-identity :
    (o : RecoveryOptions) (now : ℕ) (r : Row) → identity_of (reclaim o now r) ≡ identity_of r
unfolding reclaim
reclaim-identity o now r = elim (Bool-cases (is_stranded o r)) [
  | inl s ↦ ground arith
  | inr s ↦ ground arith
]

map-identity :
    (o : RecoveryOptions) (now : ℕ) (rows : List Row)
    → map identity_of (map (reclaim o now) rows) ≡ map identity_of rows
map-identity o now [] = refl
map-identity o now (r ∷ rows) = λ i. reclaim-identity o now r i ∷ map-identity o now rows i

-- Recovery drops no row and keeps each row's id, account, type, request, attempts and phase.
pub recover_stranded-identity :
    (o : RecoveryOptions) (now : ℕ) (rows : List Row)
    → map identity_of (recover_stranded o now rows) ≡ map identity_of rows
recover_stranded-identity o now rows =
    ap (map identity_of) (recover_stranded-eq-map o now rows) ∙ map-identity o now rows

-- The options of the runner that backend.ts builds for an account.
abbrev pub backend_options : ℕ → RecoveryOptions
backend_options account = record {
  account_id = account;
  unsafe_to_replay_types = unsafe_to_replay_mutation_types;
  replayable_phases = replayable_mutation_phases;
  completed_phases = completed_mutation_phases;
}

-- The phases of a send that lie before its submission or after its acceptance.
abbrev is_certain : Option MutationPhase → Bool
is_certain none = true
is_certain (some queued) = true
is_certain (some created) = true
is_certain (some submitted) = true
is_certain (some cache_pending) = true
is_certain (some p) = false

abbrev is_send_phase : Option MutationPhase → Bool
is_send_phase (some submitting) = true
is_send_phase (some unknown) = true
is_send_phase p = is_certain p

recover_cons :
    (o : RecoveryOptions) (now : ℕ) (r : Row) (rest : List Row)
    → recover_stranded o now (r ∷ rest) ≡ reclaim o now r ∷ recover_stranded o now rest
recover_cons o now r rest =
    recover_stranded-eq-map o now (r ∷ rest)
    ∙ ap (λ t. reclaim o now r ∷ t) (sym (recover_stranded-eq-map o now rest))

send-ambiguous :
    (account : ℕ) (r : Row)
    → r.mutation_type ≡ send
    → is_send_phase r.phase ≡ true
    → is_ambiguous (backend_options account) r ≡ not (is_certain r.phase)
send-ambiguous account r t p = ground arith

-- A send of the account, in a phase of a send, that a dead worker left in flight is queued again,
-- at its phase, when it had not reached the submission or had been accepted. It is parked as
-- conflicted, never replayed, when it stopped between the two.
pub recover_stranded-send :
    (account now : ℕ) (r : Row) (rest : List Row)
    → r.account_id ≡ account
    → r.local_status ≡ in_flight
    → r.mutation_type ≡ send
    → is_send_phase r.phase ≡ true
    → recover_stranded (backend_options account) now (r ∷ rest)
      ≡ (if is_certain r.phase
          then record r { local_status = pending; not_before = none; updated_at = now }
          else record r {
            local_status = conflicted;
            error_json = some interrupted;
            updated_at = now;
          })
        ∷ recover_stranded (backend_options account) now rest
unfolding reclaim
recover_stranded-send account now r rest a f t p =
    ground (arith, recover_cons (backend_options account) now r rest, send-ambiguous account r t p)
