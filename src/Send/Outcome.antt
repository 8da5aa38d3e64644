-- ===== src/Send/Outcome.antt =====
-- src/sync/backends/jmap/outbox/send-outcome.ts: what a send reports. The texts that an error
-- carries for a reader are left out.
pub mod Decided
use stormbox.Base.{String, Bool, true, false, Option, none, some, if◌then◌else◌}
use stormbox.Outbox.Errors.{ErrorDetail, JmapError}

-- The `result` of an error: what is known of a submission.
pub record SendFacts : Type 0 where
  pub submitted : Bool
  pub filed : Bool
  pub created_remote_id : Option String
  pub submission_remote_id : Option String

pub record SendError : Type 0 where
  pub type : Option String
  pub terminal : Bool
  pub reason : Option String
  pub detail : Option ErrorDetail
  pub facts : Option SendFacts

pub record Confirmation : Type 0 where
  pub created_remote_id : Option String
  pub submission_remote_id : Option String
  pub filed : Bool

pub data SendOutcome : Type 0 where
  confirmed : Confirmation → SendOutcome
  rejected_retryable : SendError → SendOutcome
  rejected_terminal : SendError → SendOutcome
  ambiguous : SendError → SendOutcome

pub data SendProcessResult : Type 0 where
  sent : Confirmation → SendProcessResult
  not_sent : SendError → SendProcessResult

pub rejected_send_outcome : SendError → Bool → SendOutcome
rejected_send_outcome error retryable =
    if retryable then rejected_retryable error else rejected_terminal error

pub to_process_result : SendOutcome → SendProcessResult
to_process_result (confirmed c) = sent c
to_process_result (rejected_retryable e) = not_sent e
to_process_result (rejected_terminal e) = not_sent e
to_process_result (ambiguous e) = not_sent e

-- An error of a type, with nothing else known.
abbrev pub plain_error : Option String → SendError
plain_error type = record {
  type = type;
  terminal = false;
  reason = none;
  detail = none;
  facts = none;
}

-- `{ type: 'outcomeUnknown', terminal: true, reason }`.
abbrev pub outcome_unknown : Option String → SendError
outcome_unknown reason = record {
  type = some "outcomeUnknown";
  terminal = true;
  reason = reason;
  detail = none;
  facts = none;
}

-- An error of the shared classifiers as an error of a send.
abbrev pub of_jmap_error : JmapError → SendError
of_jmap_error e = record {
  type = e.type;
  terminal = e.terminal;
  reason = none;
  detail = e.detail;
  facts = none;
}
