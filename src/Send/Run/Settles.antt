-- ===== src/Send/Run/Settles.antt =====
-- The outcomes of the submission, and of what it settles.
use stormbox.Base.{
  ℕ, String, Bool, true, not, ◌&&◌, List, Option, none, some, refl, if_intro, or_default, string_eq,
  inl,
}
use stormbox.Outbox.Vocabulary.{MutationPhase, submitting}
use stormbox.Outbox.Errors.{
  ErrorDetail, JmapError, extract_method_error_by_id, submission_error,
  is_retryable_submission_error,
}
use stormbox.Outbox.Errors.Laws.{extract_method_error_by_id-terminal, submission_error-terminal}
use stormbox.Send.Checkpoint.{SendCheckpoint}
use stormbox.Send.Outcome.{SendOutcome, ambiguous, outcome_unknown, of_jmap_error}
use stormbox.Send.Outcome.Decided.{IsDecided, rejected-IsDecided}
use stormbox.Send.Program.{
  Reply, got, failed, Identity, SetSlot, SetPayload, finish, ◌>>=◌, ◌>>◌, truthy,
}
use stormbox.Send.Program.Within.{Done}
use stormbox.Send.Program.Gives.{Gives}
use stormbox.Send.Reconcile.{
  SubmissionEvidence, proof_of_submission, no_evidence, find_submission_evidence,
}
use stormbox.Send.Run.Filing.{
  Environment, SendRow, SendRequest, is_some, park_unknown, record_accepted_submission,
  write_acceptance,
}
use stormbox.Send.Run.Decides.{
  Settles, Settles-bind, find_submission_evidence-Settles, save_checkpoint-Settles, rewind-Settles,
}
use stormbox.Send.Run.{
  recorded, accept_or_return, settle_evidence, settle_submitting, evidence_folder, is_submitting,
  proof_or_park, ask_for_proof, submitted_or_return, submitted_slot, is_definitive,
  settle_submission, submit_held, submit_new, held, hold_for, submit_phase,
  rewind_definitive_submission_rejection,
}

module _ (env : Environment) (row : SendRow) (req : SendRequest) where
  accept_or_return-Settles :
      (c : SendCheckpoint) (id : String) → Settles (accept_or_return env row req c id)
  unfolding accept_or_return record_accepted_submission IsDecided
  accept_or_return-Settles c id =
      Settles-bind Done (record_accepted_submission env row req c id) (recorded env row req c id)
        (writes (record c { submission_remote_id = some id }) row.account_id) records
    where
      writes :
          (c : SendCheckpoint) (account : Option ℕ)
          → Settles (write_acceptance env row req c account)
      writes c none = λ r. tt
      writes c (some account) = λ r. tt

      records : (r : Reply SendCheckpoint) → Settles (recorded env row req c id r)
      records (got c') = tt
      records (failed e) = refl

  parks-Settles :
      (A : Type 0) (c : SendCheckpoint) (reason : Option String)
      → Gives IsDecided {A = A} Done (park_unknown c >> finish (ambiguous (outcome_unknown reason)))
  unfolding park_unknown ◌>>=◌ IsDecided
  parks-Settles A c reason = λ r. (refl, refl)

  pub settle_submitting-Settles :
      (phase : Option MutationPhase) (sent : Option String) (c : SendCheckpoint)
      → Settles (settle_submitting env row req phase sent c)
  unfolding settle_submitting
  settle_submitting-Settles phase sent c =
      if_intro Settles (is_submitting phase && not (is_some (truthy c.submission_remote_id))) _ _
        (Settles-bind Done
          (find_submission_evidence c.email_remote_id (evidence_folder env row req sent))
          (settle_evidence env row req c) (find_submission_evidence-Settles _ _) settles)
        tt
    where
      settles : (e : SubmissionEvidence) → Settles (settle_evidence env row req c e)
      settles (proof_of_submission id) = accept_or_return-Settles c (or_default id "reconciled")
      settles no_evidence = parks-Settles _ c (some "noEvidence")

  rewind_finish-Settles :
      (A : Type 0) (c : SendCheckpoint) (terminal : Bool) (o : SendOutcome)
      → IsDecided o
      → Gives IsDecided {A = A} Done (rewind_definitive_submission_rejection c terminal >> finish o)
  rewind_finish-Settles A c terminal o d =
      Settles-bind Done (rewind_definitive_submission_rejection c terminal) (λ _. finish o)
        (rewind-Settles c terminal) (λ _. d)

  hold_for-Settles :
      (c : SendCheckpoint) (target : Option String) → Settles (hold_for env row req c target)
  unfolding IsDecided
  hold_for-Settles c none = tt
  hold_for-Settles c (some target) = λ r. holds r
    where
      holds : (r : Reply ℕ) → Settles (held env row req c r)
      holds (got n) = tt
      holds (failed e) =
          if_intro Settles e.terminal _ _ (rewind_finish-Settles _ c true _ (inl refl)) refl

  ask_for_proof-Settles :
      (sent : Option String) (c : SendCheckpoint) (reason : Option String)
      → Settles (ask_for_proof env row req sent c reason)
  ask_for_proof-Settles sent c reason =
      Settles-bind Done
        (find_submission_evidence c.email_remote_id (evidence_folder env row req sent))
        (proof_or_park env row req c reason) (find_submission_evidence-Settles _ _) proves
    where
      proves : (e : SubmissionEvidence) → Settles (proof_or_park env row req c reason e)
      proves (proof_of_submission id) = tt
      proves no_evidence = parks-Settles _ c reason

  submitted_or_return-Settles :
      (c : SendCheckpoint) (id : Option String) (d : Option ErrorDetail)
      → Settles (submitted_or_return env row req c id d)
  submitted_or_return-Settles c (some id) d = tt
  submitted_or_return-Settles c none d =
      rewind_finish-Settles _ c (submission_error "notSubmitted" d).terminal _ (
        rejected-IsDecided (of_jmap_error (submission_error "notSubmitted" d))
          (is_retryable_submission_error d) (submission_error-terminal "notSubmitted" d))

  settle_submission-Settles :
      (sent : Option String) (c : SendCheckpoint) (r : Reply SetPayload)
      → Settles (settle_submission env row req sent c r)
  unfolding settle_submission
  settle_submission-Settles sent c (failed e) = ask_for_proof-Settles sent c _
  settle_submission-Settles sent c (got p) = by_slot p.slot
    where
      e : JmapError
      e = extract_method_error_by_id p.responses "s1"

      by_slot :
          (s : Option SetSlot)
          → Settles
              (submitted_slot env row req sent c (extract_method_error_by_id p.responses "s1") s)
      by_slot (some s) = submitted_or_return-Settles c (truthy s.created) s.not_created
      by_slot none =
          if_intro Settles (is_definitive env row req e) _ _
            (rewind_finish-Settles _ c e.terminal _
              (rejected-IsDecided _ _ (extract_method_error_by_id-terminal p.responses "s1")))
            (ask_for_proof-Settles sent c e.type)

  submit_held-Settles :
      (identity : Identity) (rcpt_to : List String) (sent : Option String) (c : SendCheckpoint)
      (hold : Option ℕ)
      → Settles (submit_held env row req identity rcpt_to sent c hold)
  unfolding submit_held
  submit_held-Settles identity rcpt_to sent c hold =
      Settles-bind Done _ _ (save_checkpoint-Settles c submitting) (λ c'.
        Settles-bind Done _ (accept_or_return env row req c)
          (λ r. settle_submission-Settles sent c r) (accept_or_return-Settles c))

  pub submit_phase-Settles :
      (identity : Identity) (rcpt_to : List String) (sent : Option String) (c : SendCheckpoint)
      → Settles (submit_phase env row req identity rcpt_to sent c)
  unfolding submit_new
  submit_phase-Settles identity rcpt_to sent c =
      if_intro Settles (is_some (truthy c.submission_remote_id)) _ _ tt (
        Settles-bind Done (hold_for env row req c req.scheduled_at) _
          (hold_for-Settles c req.scheduled_at) (submit_held-Settles identity rcpt_to sent c))
