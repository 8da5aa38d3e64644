-- ===== src/Send/Run/Filing.antt =====
-- src/sync/backends/jmap/outbox/operations/send.ts: the row and the request of a send, the record of
-- its acceptance, and the filing after it. `fileSentCopy` of outbox/send-apply.ts is a question.
pub mod Laws
pub mod Ends
pub mod Decides
pub mod Budget
use stormbox.Base.{
  ℕ, suc, ◌+◌, String, Bool, true, false, not, ◌&&◌, ◌||◌, List, [], ◌∷◌, ◌++◌, Option, none, some,
  ◌==◌, string_eq, if◌then◌else◌, ltb, has, or_else, or_default, get_elem?, any,
}
use stormbox.Outbox.Vocabulary.{MutationPhase, submitted, cache_pending, unknown}
use stormbox.Outbox.Errors.{JmapError}
use stormbox.Send.Checkpoint.{SendCheckpoint, Stored, Value, ids_value, well_formed_draft_email_ids}
use stormbox.Send.Outcome.{
  SendOutcome, confirmed, rejected_retryable, ambiguous, SendError, outcome_unknown,
}
use stormbox.Send.Program.{
  Reply, got, failed, Send, pure, save, accept, ask, ◌>>=◌, ◌>>◌, truthy, resolve_folder_remote_ids,
  scheduled_mailbox_remote_id, file_sent_copy, queue_draft_cleanup, mark_views_stale,
}
use stormbox.Send.Drafts.{caught, Cleanup, destroy_draft_emails, with_pending}

abbrev pub cache_repair_max_attempts : ℕ
cache_repair_max_attempts = 3

-- What a send takes from outside: the comparison key of an address, the server's limit, and the two
-- identifiers that random tokens make.
pub record Environment : Type 0 where
  pub address_key : String → String
  pub set_limit : ℕ
  pub operation_id : String
  pub message_id : String → String

pub record SendRow : Type 0 where
  pub account_id : Option ℕ
  pub phase : Option MutationPhase
  pub server_response : Stored

-- A recipient is the text of its address, if it has one.
pub record SendRequest : Type 0 where
  pub identity_id : Option ℕ
  pub to : List (Option String)
  pub cc : List (Option String)
  pub bcc : List (Option String)
  pub draft_email_ids : Value
  pub drafts_folder_id : Option ℕ
  pub sent_folder_id : Option ℕ
  pub outbox_folder_id : Option ℕ
  pub scheduled_at : Option String

abbrev pub is_some {ℓ} : {A : Type ℓ} → Option A → Bool
is_some none = false
is_some (some a) = true

abbrev pub folder_at : ℕ → List (Option String) → Option String
folder_at i folders = or_default (get_elem? folders i) none

abbrev pub addresses : SendRequest → List (Option String)
addresses req = req.to ++ req.cc ++ req.bcc

-- A failed write of the mark is only logged.
unfoldable pub park_unknown : SendCheckpoint → Send (Unit {0})
park_unknown c = save c unknown λ _. pure tt

module _ (env : Environment) (row : SendRow) (req : SendRequest) where
  abbrev has_key : Option String → Bool
  has_key none = false
  has_key (some email) = not (env.address_key email == "")

  -- Whether `trustedRecipients` is not empty.
  abbrev pub has_trusted_recipients : Bool
  has_trusted_recipients = any has_key (addresses req)

  abbrev pub after_write : SendCheckpoint → Reply (Unit {0}) → Reply SendCheckpoint
  after_write c (got _) = got c
  after_write c (failed e) = failed e

  abbrev pub write_acceptance : SendCheckpoint → Option ℕ → Send (Reply SendCheckpoint)
  write_acceptance c none = save c submitted λ r. pure (after_write c r)
  write_acceptance c (some account) = accept c has_trusted_recipients pure

  unfoldable pub record_accepted_submission : SendCheckpoint → String → Send (Reply SendCheckpoint)
  record_accepted_submission c id =
      write_acceptance (record c { submission_remote_id = some id }) row.account_id

module _ (env : Environment) (req : SendRequest) where
  abbrev normalized_draft_email_ids : Value → List String
  normalized_draft_email_ids = well_formed_draft_email_ids

  abbrev confirmation : SendCheckpoint → Bool → SendOutcome
  confirmation c filed = confirmed record {
    created_remote_id = c.email_remote_id;
    submission_remote_id = c.submission_remote_id;
    filed = filed;
  }

  abbrev filing_failed : SendCheckpoint → SendError
  filing_failed c = record {
    type = some "cacheReconcileFailed";
    terminal = false;
    reason = none;
    detail = none;
    facts = some record {
      submitted = true;
      filed = false;
      created_remote_id = c.email_remote_id;
      submission_remote_id = c.submission_remote_id;
    };
  }

  abbrev pending_of : SendCheckpoint → List String
  pending_of c =
      or_default c.pending_draft_destroy_ids (normalized_draft_email_ids req.draft_email_ids)

  abbrev cleanup_source : Option (List String) → Value
  cleanup_source none = req.draft_email_ids
  cleanup_source (some ids) = ids_value (some ids)

  -- The drafts of `queueDraftCleanupRepair`.
  abbrev cleanup_of : SendCheckpoint → List String
  cleanup_of c = normalized_draft_email_ids (cleanup_source c.pending_draft_destroy_ids)

  abbrev queue_cleanup : List String → Send SendOutcome → Send SendOutcome
  queue_cleanup [] rest = rest
  queue_cleanup (x ∷ xs) rest = ask (queue_draft_cleanup (x ∷ xs)) λ _. rest

  -- The budget is spent, or the attempt could not be counted.
  abbrev retire_unfiled : Option String → SendCheckpoint → JmapError → Send SendOutcome
  retire_unfiled sent c e =
      let rest = ask (mark_views_stale sent) λ _. pure (confirmation c false) in
      if has ("composeBodyIncomplete" ∷ []) e.type then rest else queue_cleanup (cleanup_of c) rest

  abbrev counted : Option String → SendCheckpoint → JmapError → Reply (Unit {0}) → Send SendOutcome
  counted sent c e (got _) = pure (rejected_retryable (filing_failed c))
  counted sent c e (failed _) = retire_unfiled sent c e

  pub post_submission_failure : Option String → SendCheckpoint → JmapError → Send SendOutcome
  post_submission_failure sent c e =
      if ltb (c.cache_attempts + 1) cache_repair_max_attempts
      then save (record c { cache_attempts = c.cache_attempts + 1 }) cache_pending
          (counted sent c e)
      else retire_unfiled sent c e

  abbrev cleaned : Option String → Bool → SendCheckpoint → Option JmapError → Send SendOutcome
  cleaned mailbox filed c none = pure (confirmation c filed)
  cleaned mailbox filed c (some e) = post_submission_failure mailbox c e

  abbrev after_cleanup : Option String → Bool → Cleanup → Send SendOutcome
  after_cleanup mailbox filed r = cleaned mailbox filed r.checkpoint (caught r.ending)

  abbrev after_filing : Option String → SendCheckpoint → Reply Bool → Send SendOutcome
  after_filing mailbox c (failed e) = post_submission_failure mailbox c e
  after_filing mailbox c (got filed) =
      destroy_draft_emails env.set_limit (pending_of c) c >>= after_cleanup mailbox filed

  abbrev after_pending : Option String → SendCheckpoint → Reply (Unit {0}) → Send SendOutcome
  after_pending mailbox c (failed e) = post_submission_failure mailbox c e
  after_pending mailbox c (got _) =
      ask (file_sent_copy c.email_remote_id c.submission_remote_id mailbox) (after_filing mailbox c)

  abbrev file_in : Option String → SendCheckpoint → Send SendOutcome
  file_in mailbox c = save c cache_pending (after_pending mailbox c)

  abbrev scheduled_filing :
      Option String → SendCheckpoint → Reply (Option String) → Send SendOutcome
  scheduled_filing sent c (failed e) = post_submission_failure sent c e
  scheduled_filing sent c (got mailbox) = file_in mailbox c

  pub reconcile_sent_locally : Option String → SendCheckpoint → Send SendOutcome
  unfolding post_submission_failure
  reconcile_sent_locally sent checkpoint =
      let c = with_pending (pending_of checkpoint) checkpoint in
      if is_some req.scheduled_at
      then ask scheduled_mailbox_remote_id (scheduled_filing sent c)
      else file_in sent c

  abbrev after_folders : SendCheckpoint → Reply (List (Option String)) → Send SendOutcome
  after_folders c (failed e) = post_submission_failure none c e
  after_folders c (got folders) = reconcile_sent_locally (folder_at 0 folders) c

  unfoldable pub resume_cache_reconciliation : SendCheckpoint → Send SendOutcome
  unfolding reconcile_sent_locally park_unknown
  resume_cache_reconciliation c =
      if is_some (truthy c.email_remote_id) && is_some (truthy c.submission_remote_id)
      then ask (resolve_folder_remote_ids (req.sent_folder_id ∷ req.drafts_folder_id ∷ []))
          (after_folders c)
      else park_unknown c >> pure (ambiguous (outcome_unknown (some "incompleteCheckpoint")))
