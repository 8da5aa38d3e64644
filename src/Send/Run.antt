-- ===== src/Send/Run.antt =====
-- src/sync/backends/jmap/outbox/operations/send.ts: the send of one row, up to the submission.
-- `runSend` is cut at its early returns, which are `finish`; the filing that follows is Filing.
-- The row always has an id, as every row that the runner processes. The texts of errors, the
-- indexes of attachments and the progress listener are left out.
pub mod Filing
pub mod Early
pub mod Decides
pub mod Settles
pub mod Decided
pub mod Parked
pub mod Submission
pub mod Phases
pub mod Once
pub mod Repair
use stormbox.Base.{
  ℕ, suc, ◌+◌, String, Bool, true, false, not, ◌&&◌, ◌||◌, List, [], ◌∷◌, ◌++◌, Option, none, some,
  ◌==◌, string_eq, contains, has, if◌then◌else◌, or_else, or_default, get_elem?,
}
use stormbox.Outbox.Vocabulary.{
  MutationPhase, queued, created, submitting, submitted, cache_pending, unknown,
}
use stormbox.Outbox.Errors.{
  ErrorDetail, JmapError, submission_error, is_retryable_submission_error,
  is_retryable_method_error, extract_method_error_by_id,
}
use stormbox.Send.Checkpoint.{SendCheckpoint, new_checkpoint, read_checkpoint, read_phase}
use stormbox.Send.Outcome.{
  SendOutcome, rejected_retryable, rejected_terminal, ambiguous, rejected_send_outcome, SendError,
  plain_error, outcome_unknown, of_jmap_error,
}
use stormbox.Send.Program.{
  Reply, got, failed, Identity, SetSlot, SetPayload, EmailSubmission, Send, pure, raise, finish,
  save, submit, ask, ◌>>=◌, ◌>>◌, request, truthy, resolve_identity, resolve_folder_remote_ids,
  ensure_scheduled_mailbox, prepare_email, create_email, compute_hold, destroy_email,
}
use stormbox.Send.Reconcile.{
  find_email_by_message_id, EmailProbe, probe_found, probe_absent, inconclusive,
  find_submission_evidence, SubmissionEvidence, proof_of_submission, no_evidence,
  normalize_message_id,
}
use stormbox.Send.Run.Filing.{
  Environment, SendRow, SendRequest, is_some, park_unknown, record_accepted_submission,
  reconcile_sent_locally, resume_cache_reconciliation, folder_at, addresses,
}

abbrev transport_failure_types : List String
transport_failure_types = "httpRequestTimeout" ∷ "wsRequestTimeout" ∷ "transportAborted" ∷ []

abbrev is_submitting : Option MutationPhase → Bool
is_submitting (some submitting) = true
is_submitting _ = false

unfoldable pub save_checkpoint : SendCheckpoint → MutationPhase → Send SendCheckpoint
save_checkpoint c p = save c p λ r. elim r [ failed e ↦ raise e | got _ ↦ pure c ]

-- `rewindDefinitiveSubmissionRejection`; what the removal of the Email answers is only logged.
abbrev save_rewound : Bool → SendCheckpoint → Send (Unit {0})
save_rewound true c = save (record c { email_remote_id = none }) queued λ _. pure tt
save_rewound false c = save c created λ _. pure tt

abbrev destroy_rejected : Bool → Option String → Send (Unit {0}) → Send (Unit {0})
destroy_rejected true (some id) rest = ask (destroy_email id) λ _. rest
destroy_rejected _ _ rest = rest

pub rewind_definitive_submission_rejection : SendCheckpoint → Bool → Send (Unit {0})
rewind_definitive_submission_rejection c terminal =
    destroy_rejected terminal (truthy c.email_remote_id) (save_rewound terminal c)

module _ (env : Environment) (row : SendRow) (req : SendRequest) where
  -- The Sent folder as evidence: a scheduled Email is never looked for there.
  abbrev evidence_folder : Option String → Option String
  evidence_folder sent = if is_some req.scheduled_at then none else sent

  abbrev acceptance_failed : SendCheckpoint → String → SendError
  acceptance_failed c id = record {
    type = some "acceptanceCheckpointFailed";
    terminal = false;
    reason = none;
    detail = none;
    facts = some record {
      submitted = true;
      filed = false;
      created_remote_id = c.email_remote_id;
      submission_remote_id = some id;
    };
  }

  -- The record of an acceptance, or the early return where it cannot be written.
  abbrev recorded : SendCheckpoint → String → Reply SendCheckpoint → Send SendCheckpoint
  recorded c id (got c') = pure c'
  recorded c id (failed e) = finish (rejected_retryable (acceptance_failed c id))

  pub accept_or_return : SendCheckpoint → String → Send SendCheckpoint
  accept_or_return c id = record_accepted_submission env row req c id >>= recorded c id

  -- The branch of a row that was interrupted while submitting.
  abbrev settle_evidence : SendCheckpoint → SubmissionEvidence → Send SendCheckpoint
  settle_evidence c (proof_of_submission id) = accept_or_return c (or_default id "reconciled")
  settle_evidence c no_evidence =
      park_unknown c >> finish (ambiguous (outcome_unknown (some "noEvidence")))

  unfoldable pub settle_submitting :
      Option MutationPhase → Option String → SendCheckpoint → Send SendCheckpoint
  unfolding accept_or_return
  settle_submitting phase sent c =
      if is_submitting phase && not (is_some (truthy c.submission_remote_id))
      then find_submission_evidence c.email_remote_id (evidence_folder sent) >>= settle_evidence c
      else pure c

  -- Phase 1: the mailbox, the probe, the content and the creation.
  abbrev scheduled_box : Reply (Option String) → Send (Option String)
  scheduled_box (got m) = pure m
  scheduled_box (failed e) = finish (
      rejected_send_outcome
        (record {
          type = or_else e.type (some "scheduledMailboxUnavailable");
          terminal = e.terminal;
          reason = none;
          detail = none;
          facts = none;
        })
        (not e.terminal))

  unfoldable pub target_box : Option String → Option String → Send (Option String)
  target_box drafts outbox =
      if is_some req.scheduled_at
      then ask ensure_scheduled_mailbox scheduled_box
      else pure (or_else outbox drafts)

  abbrev after_probe : SendCheckpoint → EmailProbe → Send SendCheckpoint
  after_probe c probe_absent = pure c
  after_probe c (probe_found id) = save_checkpoint (record c { email_remote_id = some id }) created
  after_probe c (inconclusive reason) = finish (
      rejected_terminal (record {
        type = some "createProbeFailed";
        terminal = true;
        reason = reason;
        detail = none;
        facts = none;
      }))

  unfoldable pub probe_created :
      Option MutationPhase → Option String → SendCheckpoint → Send SendCheckpoint
  probe_created none box c = pure c
  probe_created (some p) box c = find_email_by_message_id box c.message_id >>= after_probe c

  -- The type of a failure to prepare the message.
  abbrev prepare_error : Option String → String
  prepare_error type =
      if has ("blobNotFound" ∷ "invalidAttachment" ∷ []) type
      then or_default type "uploadFailed"
      else "uploadFailed"

  abbrev prepared : Reply (Unit {0}) → Send (Unit {0})
  prepared (got _) = pure tt
  prepared (failed e) =
      let type = prepare_error e.type in
      let terminal = not (type == "uploadFailed") || has transport_failure_types e.type in
      finish (
        rejected_send_outcome
          (record {
            type = some type;
            terminal = terminal;
            reason = none;
            detail = none;
            facts = none;
          })
          (not terminal))

  abbrev not_created : Option ErrorDetail → SendOutcome
  not_created detail =
      if has ("blobNotFound" ∷ []) (elim detail [ none ↦ none | some d ↦ d.type ])
      then rejected_terminal (record {
        type = some "blobNotFound";
        terminal = true;
        reason = none;
        detail = detail;
        facts = none;
      })
      else rejected_send_outcome (of_jmap_error (submission_error "notCreated" detail))
          (is_retryable_submission_error detail)

  abbrev created_or_return :
      SendCheckpoint → Option String → Option ErrorDetail → Send SendCheckpoint
  created_or_return c (some id) detail =
      save_checkpoint (record c { email_remote_id = some id }) created
  created_or_return c none detail = finish (not_created detail)

  abbrev method_rejected : JmapError → SendOutcome
  method_rejected e = rejected_send_outcome (of_jmap_error e) (is_retryable_method_error e.type)

  abbrev created_slot : SendCheckpoint → JmapError → Option SetSlot → Send SendCheckpoint
  created_slot c e (some slot) = created_or_return c (truthy slot.created) slot.not_created
  created_slot c e none = finish (method_rejected e)

  abbrev after_create : SendCheckpoint → Reply SetPayload → Send SendCheckpoint
  after_create c (got p) = created_slot c (extract_method_error_by_id p.responses "c1") p.slot
  after_create c (failed e) =
      finish (rejected_retryable (plain_error (or_else e.type (some "transport"))))

  pub create_new : Option String → SendCheckpoint → Send SendCheckpoint
  create_new box c =
      ask (prepare_email box)
        λ r. prepared r >> ask (create_email (normalize_message_id c.message_id)) (after_create c)

  abbrev create_missing : Option String → SendCheckpoint → Send SendCheckpoint
  create_missing box c = if is_some (truthy c.email_remote_id) then pure c else create_new box c

  pub create_phase :
      Option MutationPhase → Option String → Option String → SendCheckpoint → Send SendCheckpoint
  unfolding create_new
  create_phase phase drafts outbox c =
      if is_some (truthy c.email_remote_id)
      then pure c
      else do box ← target_box drafts outbox; c' ← probe_created phase box c; create_missing box c'

  -- Phase 2: the hold, the checkpoint before the call, the call, and what it answered.
  abbrev held : SendCheckpoint → Reply ℕ → Send (Option ℕ)
  held c (got n) = pure (some n)
  held c (failed e) =
      if e.terminal
      then rewind_definitive_submission_rejection c true
        >> finish (
            rejected_terminal (record {
              type = or_else e.type (some "scheduleRejected");
              terminal = true;
              reason = none;
              detail = none;
              facts = none;
            }))
      else finish (rejected_retryable (plain_error (or_else e.type (some "transport"))))

  abbrev hold_for : SendCheckpoint → Option String → Send (Option ℕ)
  hold_for c none = pure none
  hold_for c (some target) = ask (compute_hold target) (held c)

  abbrev proof_or_park : SendCheckpoint → Option String → SubmissionEvidence → Send String
  proof_or_park c reason (proof_of_submission id) = pure (or_default id "reconciled")
  proof_or_park c reason no_evidence = park_unknown c >> finish (ambiguous (outcome_unknown reason))

  abbrev ask_for_proof : Option String → SendCheckpoint → Option String → Send String
  ask_for_proof sent c reason =
      find_submission_evidence c.email_remote_id (evidence_folder sent) >>= proof_or_park c reason

  abbrev rejected_submission : SendCheckpoint → JmapError → Bool → Send String
  rejected_submission c e retryable =
      rewind_definitive_submission_rejection c e.terminal
      >> finish (rejected_send_outcome (of_jmap_error e) retryable)

  abbrev submitted_or_return : SendCheckpoint → Option String → Option ErrorDetail → Send String
  submitted_or_return c (some id) detail = pure id
  submitted_or_return c none detail =
      rejected_submission c (submission_error "notSubmitted" detail)
        (is_retryable_submission_error detail)

  abbrev is_definitive : JmapError → Bool
  is_definitive e = not (has ("noResponse" ∷ "serverPartialFail" ∷ []) e.type)

  abbrev submitted_slot : Option String → SendCheckpoint → JmapError → Option SetSlot → Send String
  submitted_slot sent c e (some slot) = submitted_or_return c (truthy slot.created) slot.not_created
  submitted_slot sent c e none =
      if is_definitive e
      then rejected_submission c e (is_retryable_method_error e.type)
      else ask_for_proof sent c e.type

  pub settle_submission : Option String → SendCheckpoint → Reply SetPayload → Send String
  settle_submission sent c (got p) =
      submitted_slot sent c (extract_method_error_by_id p.responses "s1") p.slot
  settle_submission sent c (failed e) = ask_for_proof sent c (or_else e.type (some "transport"))

  abbrev submission_of : Identity → List String → SendCheckpoint → Option ℕ → EmailSubmission
  submission_of identity rcpt_to c hold = record {
    identity_id = identity.remote_id;
    email_id = c.email_remote_id;
    mail_from = identity.email;
    hold_for = hold;
    rcpt_to = rcpt_to;
  }

  pub submit_held :
      Identity → List String → Option String → SendCheckpoint → Option ℕ → Send SendCheckpoint
  unfolding settle_submission accept_or_return
  submit_held identity rcpt_to sent c hold = do
    c' ← save_checkpoint c submitting
    accepted ← submit (submission_of identity rcpt_to c hold) (settle_submission sent c)
    accept_or_return c accepted

  pub submit_new : Identity → List String → Option String → SendCheckpoint → Send SendCheckpoint
  unfolding submit_held
  submit_new identity rcpt_to sent c = do
    hold ← hold_for c req.scheduled_at
    submit_held identity rcpt_to sent c hold

  abbrev submit_phase :
      Identity → List String → Option String → SendCheckpoint → Send SendCheckpoint
  submit_phase identity rcpt_to sent c =
      if is_some (truthy c.submission_remote_id) then pure c else submit_new identity rcpt_to sent c

  abbrev stored_checkpoint : Identity → Option SendCheckpoint → Send SendCheckpoint
  stored_checkpoint identity (some c) = pure c
  stored_checkpoint identity none =
      save_checkpoint
        (new_checkpoint env.operation_id (env.message_id identity.email) req.draft_email_ids) queued

  -- `buildEnvelopeRecipients`: the first spelling of each address, in header order.
  pub recipients_from : List String → List (Option String) → List String
  recipients_from seen [] = []
  recipients_from seen (none ∷ rest) = recipients_from seen rest
  recipients_from seen (some email ∷ rest) =
      let key = env.address_key email in
      let skipped = recipients_from seen rest in
      let kept = email ∷ recipients_from (key ∷ seen) rest in
      if key == "" || contains seen key then skipped else kept

  pub build_envelope_recipients : List String
  unfolding recipients_from
  build_envelope_recipients = recipients_from [] (addresses req)

  abbrev no_recipients : SendOutcome
  no_recipients =
      let detail : ErrorDetail = record { type = some "noRecipients"; status = none } in
      rejected_send_outcome (of_jmap_error (submission_error "notSubmitted" (some detail)))
        (is_retryable_submission_error (some detail))

  -- The three phases, from the checkpoint.
  pub send_rest :
      Identity
      → List String
      → Option MutationPhase
      → List (Option String)
      → SendCheckpoint
      → Send SendOutcome
  unfolding settle_submitting create_phase submit_new
  send_rest identity rcpt_to phase folders c = do
    c1 ← settle_submitting phase (folder_at 1 folders) c
    c2 ← create_phase phase (folder_at 0 folders) (folder_at 2 folders) c1
    c3 ← submit_phase identity rcpt_to (folder_at 1 folders) c2
    reconcile_sent_locally env req (folder_at 1 folders) c3

  pub send_phases :
      Identity → List String → Option MutationPhase → Option SendCheckpoint → Send SendOutcome
  unfolding send_rest
  send_phases identity rcpt_to phase stored = do
    folders ← request (
        resolve_folder_remote_ids
          (req.drafts_folder_id ∷ req.sent_folder_id ∷ req.outbox_folder_id ∷ []))
    c ← stored_checkpoint identity stored
    send_rest identity rcpt_to phase folders c

  abbrev addressed :
      Identity → List String → Option MutationPhase → Option SendCheckpoint → Send SendOutcome
  addressed identity [] (some submitting) stored = send_phases identity [] (some submitting) stored
  addressed identity [] phase stored = pure no_recipients
  addressed identity (r ∷ rs) phase stored = send_phases identity (r ∷ rs) phase stored

  abbrev identified :
      Option MutationPhase → Option SendCheckpoint → Option Identity → Send SendOutcome
  identified phase stored none = pure (rejected_terminal (plain_error (some "unknownIdentity")))
  identified phase stored (some identity) =
      addressed identity build_envelope_recipients phase stored

  pub send_from : Option MutationPhase → Option SendCheckpoint → Send SendOutcome
  unfolding send_phases build_envelope_recipients
  send_from phase stored = request (resolve_identity req.identity_id) >>= identified phase stored

  pub resume : Option MutationPhase → Option SendCheckpoint → Send SendOutcome
  unfolding send_from
  resume (some unknown) stored = pure (ambiguous (outcome_unknown (some "alreadyParked")))
  resume (some p) none = pure (ambiguous (outcome_unknown (some "unreadableCheckpoint")))
  resume (some submitted) (some c) = resume_cache_reconciliation env req c
  resume (some cache_pending) (some c) = resume_cache_reconciliation env req c
  resume phase stored = send_from phase stored

  -- A phase that is none of a send's stops here.
  abbrev is_unrecognized : Option MutationPhase → Bool
  is_unrecognized none = false
  is_unrecognized (some p) = not (is_some (read_phase (some p)))

  unfoldable pub run_send : Send SendOutcome
  unfolding resume
  run_send =
      if is_unrecognized row.phase
      then pure (ambiguous (outcome_unknown (some "unrecognizedPhase")))
      else resume (read_phase row.phase) (read_checkpoint row.server_response)
