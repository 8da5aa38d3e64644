-- ===== src/Examples/Sending.antt =====
-- A send at concrete values.
use stormbox.Base.{
  ◌≤◌, true, [], ◌∷◌, none, some, ◌≡◌, refl, arith, String, string_eq, ◌⊎◌, Option, List, nat_eq,
  inr, false, inl, ap, sym,
}
use stormbox.Outbox.Vocabulary.{submitted, submitting, unknown, send, cache_pending}
use stormbox.Outbox.Store.{Row, claim_in_flight}
use stormbox.Outbox.Runner.{ProcessRow, returned, run_with_retry}
use stormbox.Outbox.Runner.Settle.{IsParked}
use stormbox.Outbox.Runner.Attempt.{claim}
use stormbox.Send.Outcome.{
  to_process_result, ambiguous, outcome_unknown, SendOutcome, SendError, rejected_retryable,
}
use stormbox.Send.Outcome.Decided.{answered, Parks}
use stormbox.Send.Run.Parked.{run_send-IsParked}
use stormbox.Examples.Promises.{options, queued_row, in_flight_row, world, instants}
use stormbox.Send.Run.Decided.{run_send-Parks}
use stormbox.Send.Program.World.{
  finished, finishes, World, Exec, dies, asks, saves, submits, accepts, died, value, saved,
  accept_and_queue_trust, pures,
}
use stormbox.Send.Run.Filing.{
  park_unknown, Environment, SendRequest, record_accepted_submission, resume_cache_reconciliation,
}
use stormbox.Send.Run.{settle_submitting, run_send, save_checkpoint, target_box, probe_created}
use stormbox.Send.Reconcile.{
  find_submission_evidence, read_scan, inconclusive, normalize_message_id,
}
use stormbox.Outbox.Errors.{JmapError}
use stormbox.Send.Run.Filing.Budget.{Filed}
use stormbox.Send.Run.Repair.{IsAccepted, retried, no_retry, run_send-Filed, Retries-le}
use stormbox.Send.Checkpoint.{
  SendCheckpoint, Value, array, text_item, other_item, null_column, encode, new_checkpoint,
  read_checkpoint, well_formed_draft_email_ids, is_blank, to_set_from, read_mutation_checkpoint,
  read_phase, draft_email_ids, to_set,
}
use stormbox.Send.Checkpoint.Laws.{
  AreDraftIds, read_checkpoint-new_checkpoint, read_checkpoint-encode,
  well_formed_draft_email_ids-AreDraftIds,
}
use stormbox.Send.Program.{
  Reply, got, failed, Identity, SetPayload, Scan, ScannedEmail, one_id, ◌>>=◌,
}
use stormbox.Send.Drafts.{destroy_draft_emails, with_pending}
use stormbox.Send.Drafts.Ends.{Removes, Names, with_pending-Names, destroy_draft_emails-Removes}
use stormbox.Send.Reconcile.Probe.{Tells, read_scan-Tells}
use stormbox.Send.Once.{is_early}
use stormbox.Send.Run.Once.{attempt, no_more, row_of, Attempts-once}

abbrev drafts : Value
drafts = array (text_item "d1" ∷ text_item " " ∷ other_item ∷ text_item "d1" ∷ text_item "d2" ∷ [])

kept_drafts : well_formed_draft_email_ids drafts ≡ "d1" ∷ "d2" ∷ []
unfolding well_formed_draft_email_ids to_set_from is_blank
kept_drafts = refl

wide_space : is_blank "\u{b}\u{3000}" ≡ true
unfolding is_blank
wide_space = refl

read_checkpoint-new_checkpoint_example :
    (read_checkpoint (encode (new_checkpoint "op" "<m@x>" drafts))
      ≡ some (new_checkpoint "op" "<m@x>" drafts))
    × AreDraftIds (well_formed_draft_email_ids drafts)
read_checkpoint-new_checkpoint_example = read_checkpoint-new_checkpoint "op" "<m@x>" drafts

abbrev stored : SendCheckpoint
stored = new_checkpoint "op" "<m@x>" drafts

abbrev cleaning : SendCheckpoint
cleaning = with_pending ("d1" ∷ "d2" ∷ []) stored

distinct : to_set {A = String} ("d1" ∷ "d2" ∷ "d1" ∷ []) ≡ "d1" ∷ "d2" ∷ []
unfolding to_set_from
distinct = refl

destroy_draft_emails-Removes_example :
    Removes Names with_pending-Names (destroy_draft_emails 1 ("d1" ∷ "d2" ∷ "d1" ∷ []) cleaning)
destroy_draft_emails-Removes_example =
    destroy_draft_emails-Removes 1 ("d1" ∷ "d2" ∷ "d1" ∷ []) cleaning (omega arith)
      (ap (λ l. some l) (sym distinct))

abbrev scan : Reply Scan
scan = got (record {
  has_query = true;
  got_list = some (
      some (
        record { id = some "e1"; message_ids = one_id "<other@x>" }
        ∷ record { id = some "e2"; message_ids = one_id "<m@x>" }
        ∷ []));
})

normalized : normalize_message_id "<m@x>" ≡ "m@x"
unfolding normalize_message_id
normalized = refl

read_scan-Tells_example :
    ((emails : List ScannedEmail) × (scan
        ≡ got (record { has_query = true; got_list = some (some emails) }))
      × Tells "m@x" emails (read_scan "m@x" scan))
    ⊎ ((reason : Option String) × (read_scan "m@x" scan ≡ inconclusive reason))
read_scan-Tells_example = read_scan-Tells "m@x" scan

abbrev env : Environment
env = record {
  address_key = λ s. s;
  set_limit = 10;
  operation_id = "op";
  message_id = λ email. "<m@x>";
}

abbrev to_alice : SendRequest
to_alice = record {
  identity_id = some 1;
  to = some "alice@x" ∷ [];
  cc = [];
  bcc = [];
  draft_email_ids = drafts;
  drafts_folder_id = some 1;
  sent_folder_id = some 2;
  outbox_folder_id = none;
  scheduled_at = none;
}

abbrev new_row : World
new_row = record {
  phase = none;
  response = null_column;
  attempts = 1;
  accepted = 0;
  trust_queued = 0;
}

abbrev me : Identity
me = record { remote_id = "i1"; email = "me@x" }

abbrev created_as : String → Reply SetPayload
created_as id =
    got (record { slot = some (record { created = some id; not_created = none }); responses = [] })

-- The worker dies after the server accepted the submission and the acceptance was recorded.
abbrev after_send : World
after_send = record {
  phase = some submitted;
  response = encode (record stored {
    email_remote_id = some "e1";
    submission_remote_id = some "s1";
    trusted_recipients_queued = true;
  });
  attempts = 0;
  accepted = 1;
  trust_queued = 1;
}

first_attempt : Exec (run_send env (row_of (some 1) new_row) to_alice) new_row died after_send
unfolding run_send read_phase ◌>>=◌ read_checkpoint read_mutation_checkpoint save_checkpoint saved
    accept_and_queue_trust new_checkpoint record_accepted_submission encode target_box probe_created
first_attempt = asks (got (some me)) tt (
    asks (got (some "drafts" ∷ some "sent" ∷ none ∷ [])) tt (
      saves (
        asks (got tt) tt (
          asks (created_as "e1") tt
            (saves (saves (submits (created_as "s1") true (λ h. absurd cc) (accepts dies))))))))

-- The worker dies again before the second attempt does anything.
second_attempt :
    Exec (run_send env (row_of (some 1) after_send) to_alice) after_send died after_send
second_attempt = dies

Attempts-once_example :
    (after_send.accepted ≤ 1)
    × (after_send.trust_queued ≤ 1)
    × (is_early after_send.phase ≡ true → after_send.accepted ≡ 0)
Attempts-once_example =
    Attempts-once (some 1) to_alice new_row after_send
      (attempt env first_attempt (attempt env second_attempt no_more)) refl refl refl refl

-- After that send, an attempt that cannot read the folders: it counts itself.
abbrev sent_checkpoint : SendCheckpoint
sent_checkpoint = record stored {
  email_remote_id = some "e1";
  submission_remote_id = some "s1";
  trusted_recipients_queued = true;
}

after_send-IsAccepted : IsAccepted (some "e1") (some "s1") 0 after_send
unfolding new_checkpoint
after_send-IsAccepted = record {
  phase_after = inl refl;
  checkpoint = sent_checkpoint;
  reads = read_checkpoint-encode sent_checkpoint (well_formed_draft_email_ids-AreDraftIds drafts);
  booked = record {
    email_kept = refl;
    submission_kept = refl;
    attempts_kept = refl;
    storable = well_formed_draft_email_ids-AreDraftIds drafts;
  };
  has_email = refl;
  has_submission = refl;
}

abbrev locked : JmapError
locked = record {
  type = some "databaseLocked";
  status = none;
  detail = none;
  terminal = false;
  result = none;
}

abbrev not_filed : SendError
not_filed = record {
  type = some "cacheReconcileFailed";
  terminal = false;
  reason = none;
  detail = none;
  facts = some record {
    submitted = true;
    filed = false;
    created_remote_id = some "e1";
    submission_remote_id = some "s1";
  };
}

abbrev after_failure : World
after_failure = record after_send {
  phase = some cache_pending;
  response = encode (record sent_checkpoint { cache_attempts = 1 });
}

failed_attempt :
    Exec
      (run_send env (row_of (some 1) after_send) to_alice)
      after_send
      (value (rejected_retryable not_filed))
      after_failure
unfolding run_send read_phase read_checkpoint encode new_checkpoint draft_email_ids to_set_from
    is_blank resume_cache_reconciliation saved
failed_attempt = asks (failed locked) tt (saves pures)

run_send-Filed_example :
    (value (rejected_retryable not_filed) ≡ died)
    ⊎ ((o : SendOutcome) × (value (rejected_retryable not_filed) ≡ value o)
        × Filed (some "e1") (some "s1") 0 o after_failure)
run_send-Filed_example =
    run_send-Filed (some 1) to_alice (some "e1") (some "s1") 0 env after_send after_failure
      (value (rejected_retryable not_filed)) (omega arith) after_send-IsAccepted failed_attempt

Retries-le_example : 1 ≤ 2
Retries-le_example =
    Retries-le (some 1) to_alice (some "e1") (some "s1") 1 0 after_send after_failure
      after_send-IsAccepted (retried env not_filed (omega arith) failed_attempt no_retry)

-- A row whose worker died during the call, and an account that shows no trace of the submission.
abbrev interrupted : World
interrupted = record {
  phase = some submitting;
  response = encode (record stored { email_remote_id = some "e1" });
  attempts = 1;
  accepted = 0;
  trust_queued = 0;
}

unknown_run :
    Exec
      (run_send env (row_of (some 1) interrupted) to_alice)
      interrupted
      (finished (ambiguous (outcome_unknown (some "noEvidence"))))
      (record interrupted { phase = some unknown })
unfolding run_send read_phase ◌>>=◌ read_checkpoint read_mutation_checkpoint saved encode
    settle_submitting find_submission_evidence park_unknown new_checkpoint draft_email_ids
    to_set_from is_blank
unknown_run = asks (got (some me)) tt (
    asks (got (some "drafts" ∷ some "sent" ∷ none ∷ [])) tt
      (asks (got []) tt (asks (got none) tt (saves finishes))))

run_send-Parks_example : Parks options send 1 (ambiguous (outcome_unknown (some "noEvidence")))
run_send-Parks_example =
    run_send-Parks env (row_of (some 1) interrupted) to_alice interrupted
      (record interrupted { phase = some unknown })
      (ambiguous (outcome_unknown (some "noEvidence"))) options send 1 (inr unknown_run)

-- The same run as the runner processes it.
abbrev left_submitting : Row → Row
left_submitting row = record row { phase = some submitting }

abbrev finds_nothing : ProcessRow
finds_nothing row rows = (
  rows,
  returned (
      answered (λ c. "filed")
        (to_process_result (ambiguous (outcome_unknown (some "noEvidence"))))),
)

interrupted_claimed :
    (claim options instants
      (left_submitting (queued_row 2 send))
      (world (left_submitting (queued_row 2 send)))).1
    ≡ some (left_submitting (in_flight_row 2 send))
unfolding claim_in_flight
interrupted_claimed = refl

interrupted_left :
    finds_nothing
      (left_submitting (in_flight_row 2 send))
      (claim options instants
        (left_submitting (queued_row 2 send))
        (world (left_submitting (queued_row 2 send)))).0
    ≡ (
      left_submitting (in_flight_row 2 send) ∷ [],
      returned (
          answered
            (λ c. "filed")
            (to_process_result (ambiguous (outcome_unknown (some "noEvidence"))))),
    )
unfolding claim_in_flight
interrupted_left = refl

run_send-IsParked_example :
    IsParked 2
      (answered
        (λ c. "filed")
        (to_process_result (ambiguous (outcome_unknown (some "noEvidence"))))).error
      (left_submitting (in_flight_row 2 send) ∷ [])
      (run_with_retry options finds_nothing instants
        (left_submitting (queued_row 2 send))
        (world (left_submitting (queued_row 2 send)))).rows
run_send-IsParked_example =
    run_send-IsParked env (row_of (some 1) interrupted) to_alice interrupted
      (record interrupted { phase = some unknown })
      (ambiguous (outcome_unknown (some "noEvidence"))) (λ c. "filed") options finds_nothing
      instants (left_submitting (queued_row 2 send)) (left_submitting (in_flight_row 2 send))
      (world (left_submitting (queued_row 2 send))) (left_submitting (in_flight_row 2 send) ∷ [])
      (inr unknown_run) refl refl interrupted_claimed interrupted_left
