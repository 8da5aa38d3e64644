-- ===== src/Send/Outcome/Decided.antt =====
-- What the runner makes of the outcome of a send.
use stormbox.Base.{
  ℕ, Bool, true, false, not, none, some, ◌≡◌, ◌⊎◌, inl, inr, refl, String, string_eq, ◌∙◌, ap,
}
use stormbox.Outbox.Vocabulary.{MutationType}
use stormbox.Outbox.Errors.{JmapError, classify_auth}
use stormbox.Outbox.Runner.{RunnerOptions, ProcessResult, is_terminal}
use stormbox.Send.Outcome.{
  Confirmation, SendProcessResult, sent, not_sent, to_process_result, SendOutcome, confirmed,
  rejected_retryable, rejected_terminal, ambiguous, SendError, rejected_send_outcome, plain_error,
}

-- The error that the runner is given.
abbrev pub to_jmap_error : SendError → JmapError
to_jmap_error e = record {
  type = e.type;
  status = none;
  detail = e.detail;
  terminal = e.terminal;
  result = none;
}

-- The class of an outcome and the flag of its error agree; the one final error without the flag is
-- that of an unknown identity.
unfoldable pub IsDecided : SendOutcome → Type 0
IsDecided (confirmed c) = Unit
IsDecided (rejected_retryable e) = e.terminal ≡ false
IsDecided (rejected_terminal e) = (e.terminal ≡ true) ⊎ (e ≡ plain_error (some "unknownIdentity"))
IsDecided (ambiguous e) = (e.terminal ≡ true) × (e.type ≡ some "outcomeUnknown")

pub rejected-IsDecided :
    (e : SendError) (retryable : Bool)
    → e.terminal ≡ not retryable
    → IsDecided (rejected_send_outcome e retryable)
unfolding IsDecided rejected_send_outcome
rejected-IsDecided e true h = h
rejected-IsDecided e false h = inl h

-- No outcome but a retryable one is ever scheduled again, and what cannot be known says so.
pub Parks : RunnerOptions → MutationType → ℕ → SendOutcome → Type 0
Parks o t attempt (confirmed c) = Unit
Parks o t attempt (rejected_retryable e) = e.terminal ≡ false
Parks o t attempt (rejected_terminal e) = is_terminal o t attempt (some (to_jmap_error e)) ≡ true
Parks o t attempt (ambiguous e) =
    (is_terminal o t attempt (some (to_jmap_error e)) ≡ true) × (e.type ≡ some "outcomeUnknown")

flagged-is_terminal :
    (o : RunnerOptions) (t : MutationType) (attempt : ℕ) (e : SendError)
    → e.terminal ≡ true
    → is_terminal o t attempt (some (to_jmap_error e)) ≡ true
unfolding is_terminal
flagged-is_terminal o t attempt e h = rw h refl

unknown_identity-is_terminal :
    (o : RunnerOptions) (t : MutationType) (attempt : ℕ)
    → is_terminal o t attempt (some (to_jmap_error (plain_error (some "unknownIdentity")))) ≡ true
unfolding is_terminal classify_auth
unknown_identity-is_terminal o t attempt = refl

pub IsDecided-Parks :
    (o : RunnerOptions) (t : MutationType) (attempt : ℕ) (outcome : SendOutcome)
    → IsDecided outcome
    → Parks o t attempt outcome
unfolding IsDecided Parks
IsDecided-Parks o t attempt (confirmed c) d = tt
IsDecided-Parks o t attempt (rejected_retryable e) d = d
IsDecided-Parks o t attempt (rejected_terminal e) (inl h) = flagged-is_terminal o t attempt e h
IsDecided-Parks o t attempt (rejected_terminal e) (inr h) =
    ap (λ e. is_terminal o t attempt (some (to_jmap_error e))) h
    ∙ unknown_identity-is_terminal o t attempt
IsDecided-Parks o t attempt (ambiguous e) (h, k) = (flagged-is_terminal o t attempt e h, k)

-- `processRow` of a send: the result of `toProcessResult` as the runner takes it. What it makes of
-- the parts of a confirmation is a parameter.
abbrev pub answered : (Confirmation → String) → SendProcessResult → ProcessResult
answered text (sent c) = record { ok = true; error = none; result = some (text c) }
answered text (not_sent e) = record { ok = false; error = some (to_jmap_error e); result = none }

-- A rejection for good, or an outcome that cannot be known.
abbrev pub is_final : SendOutcome → Bool
is_final (confirmed c) = false
is_final (rejected_retryable e) = false
is_final (rejected_terminal e) = true
is_final (ambiguous e) = true

pub Parks-is_terminal :
    (text : Confirmation → String) (o : RunnerOptions) (t : MutationType) (attempt : ℕ)
    (outcome : SendOutcome)
    → Parks o t attempt outcome
    → is_final outcome ≡ true
    → ((answered text (to_process_result outcome)).ok ≡ false)
      × (is_terminal o t attempt (answered text (to_process_result outcome)).error ≡ true)
unfolding Parks to_process_result
Parks-is_terminal text o t attempt (confirmed c) p h = absurd cc
Parks-is_terminal text o t attempt (rejected_retryable e) p h = absurd cc
Parks-is_terminal text o t attempt (rejected_terminal e) p h = (refl, p)
Parks-is_terminal text o t attempt (ambiguous e) p h = (refl, p.0)
