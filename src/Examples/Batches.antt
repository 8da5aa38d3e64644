-- ===== src/Examples/Batches.antt =====
-- Results of batches and rejected sends at concrete errors.
use stormbox.Base.{
  ℕ, true, false, not, ◌&&◌, List, [], ◌∷◌, none, some, ◌≡◌, refl, nat_eq, any, all,
}
use stormbox.Outbox.Vocabulary.{send, copy_to_folders, destroy_mailbox}
use stormbox.Outbox.Errors.{
  JmapError, ErrorDetail, MethodResponse, typed_error, submission_error, extract_method_error_by_id,
  is_retryable_message_error, is_terminal_per_object_folder_error, is_retryable_submission_error,
  classify_auth,
}
use stormbox.Outbox.Errors.Laws.{
  IsTransient, submission_error-retried, extract_method_error_by_id-IsTransient,
}
use stormbox.Outbox.Recovery.Outcomes.{backend_options}
use stormbox.Outbox.Runner.{RunnerOptions, is_terminal}
use stormbox.Outbox.Batch.{finish_message_batch, finish_folder_batch, is_nil}
use stormbox.Outbox.Batch.Laws.{
  failure_error, runner_retries, finish_message_batch-retries, finish_folder_batch-retries,
}

abbrev options : RunnerOptions
options = record {
  recovery = backend_options 7;
  max_attempts = 8;
  max_attempts_by_type = [];
  backoff_base_ms = 1000;
  backoff_cap_ms = 60000;
}

-- One message was not found, another met an unavailable server.
abbrev not_found : JmapError
not_found = record {
  type = some "notUpdated";
  status = none;
  detail = some (record { type = some "notFound"; status = none });
  terminal = false;
  result = none;
}

abbrev unavailable : JmapError
unavailable = typed_error "serverUnavailable"

abbrev moved : List ℕ
moved = 3 ∷ 4 ∷ []

finish_message_batch-retries_example :
    is_terminal options copy_to_folders 2
      (failure_error (finish_message_batch true moved (not_found ∷ unavailable ∷ [])))
    ≡ not (
        any is_retryable_message_error (not_found ∷ unavailable ∷ [])
        && (runner_retries options copy_to_folders 2 not_found && not (true && not (is_nil moved))))
finish_message_batch-retries_example =
    finish_message_batch-retries options copy_to_folders 2 true moved not_found (unavailable ∷ [])

finish_folder_batch-retries_example :
    is_terminal options destroy_mailbox 2
      (failure_error (finish_folder_batch moved (not_found ∷ [])))
    ≡ not (
        not (all is_terminal_per_object_folder_error (not_found ∷ []))
        && runner_retries options destroy_mailbox 2 not_found)
finish_folder_batch-retries_example =
    finish_folder_batch-retries options destroy_mailbox 2 moved not_found []

abbrev limited : ErrorDetail
limited = record { type = some "rateLimit"; status = none }

limited_is_retried :
    is_terminal options send 1 (some (submission_error "submissionFailed" (some limited))) ≡ false
unfolding is_terminal submission_error is_retryable_submission_error classify_auth
limited_is_retried = refl

submission_error-retried_example :
    (d : ErrorDetail) × (some limited ≡ some d) × (d.type ≡ some "rateLimit")
submission_error-retried_example =
    submission_error-retried options send 1 "submissionFailed" (some limited) limited_is_retried

abbrev answers : List MethodResponse
answers =
    record { name = "Email/set"; args = none; call_id = "e0" }
    ∷ record { name = "error"; args = some limited; call_id = "s0" }
    ∷ []

answer_is_retried :
    is_terminal options send 1 (some (extract_method_error_by_id answers "s0")) ≡ false
unfolding is_terminal extract_method_error_by_id classify_auth
answer_is_retried = refl

extract_method_error_by_id-IsTransient_example :
    IsTransient (extract_method_error_by_id answers "s0").type
extract_method_error_by_id-IsTransient_example =
    extract_method_error_by_id-IsTransient options send 1 answers "s0" answer_is_retried
