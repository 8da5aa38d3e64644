-- ===== src/Outbox/Batch.antt =====
-- `finishFolderBatch` and `finishMessageBatch` of src/sync/backends/jmap/outbox/batch.ts: the
-- result of a mutation from the results of its objects.
-- `errors` are the errors of the objects in the order of `Object.values`. The server's response,
-- which the result carries along, and the fields `created` and `copied` are left out.
pub mod Laws
use stormbox.Base.{
  ℕ, Bool, true, false, not, ◌&&◌, ◌||◌, List, [], ◌∷◌, Option, none, some, ◌==◌, Eq, if◌then◌else◌,
  contains, any, all,
}
use stormbox.Outbox.Errors.{
  JmapError, ErrorDetail, is_retryable_message_error, is_terminal_per_object_folder_error,
}

pub record FolderBatchResult {ℓ} (Key : Type ℓ) : Type ℓ where
  pub succeeded_ids : List Key
  pub errors : List JmapError

-- An error of the whole mutation: the fields of `error`, and `result` beside them.
pub record BatchError {ℓ} (Key : Type ℓ) : Type ℓ where
  pub error : JmapError
  pub result : FolderBatchResult Key

pub record FolderProcessResult {ℓ} (Key : Type ℓ) : Type ℓ where
  pub ok : Bool
  pub failure : Option (BatchError Key)
  pub result : FolderBatchResult Key

-- `{ ...error, ...(terminal ? { terminal: true } : {}) }`.
abbrev pub flagged : Bool → JmapError → JmapError
flagged terminal e = record e { terminal = e.terminal || terminal }

-- `detail: first`, of which a detail has the type and the status.
abbrev pub copy_partial_success : JmapError → JmapError
copy_partial_success first = record {
  type = some "copyPartialSuccess";
  status = none;
  detail = some (record { type = first.type; status = first.status });
  terminal = true;
  result = none;
}

abbrev pub is_nil {ℓ} : {A : Type ℓ} → List A → Bool
is_nil [] = true
is_nil (x ∷ xs) = false

module _ {ℓ} {Key : Type ℓ} where
  abbrev succeeded_with : FolderBatchResult Key → FolderProcessResult Key
  succeeded_with r = record { ok = true; failure = none; result = r }

  abbrev failed_with : JmapError → FolderBatchResult Key → FolderProcessResult Key
  failed_with e r = record {
    ok = false;
    failure = some (record { error = e; result = r });
    result = r;
  }

  pub finish_folder_batch : List Key → List JmapError → FolderProcessResult Key
  finish_folder_batch succeeded_ids [] =
      succeeded_with (record { succeeded_ids = succeeded_ids; errors = [] })
  finish_folder_batch succeeded_ids (first ∷ rest) =
      failed_with (flagged (all is_terminal_per_object_folder_error (first ∷ rest)) first)
        (record { succeeded_ids = succeeded_ids; errors = first ∷ rest })

module _ {ℓ} {Key : Type ℓ} ⦃e : Eq Key⦄ where
  -- `[...new Set(ids)]`, after the ids `seen`.
  pub unique_ids : List Key → List Key → List Key
  unique_ids seen [] = []
  unique_ids seen (x ∷ xs) =
      let skipped = unique_ids seen xs in
      let kept = x ∷ unique_ids (x ∷ seen) xs in if contains seen x then skipped else kept

  abbrev message_error : Bool → List Key → Bool → JmapError → JmapError
  message_error prevent_retry_after_success succeeded_ids retryable first =
      if prevent_retry_after_success && (not (is_nil succeeded_ids) && retryable)
      then copy_partial_success first
      else flagged (not retryable) first

  pub finish_message_batch : Bool → List Key → List JmapError → FolderProcessResult Key
  unfolding unique_ids
  finish_message_batch prevent succeeded_ids [] =
      succeeded_with (record { succeeded_ids = unique_ids [] succeeded_ids; errors = [] })
  finish_message_batch prevent succeeded_ids (first ∷ rest) =
      let ids = unique_ids [] succeeded_ids in
      failed_with (message_error prevent ids (any is_retryable_message_error (first ∷ rest)) first)
        (record { succeeded_ids = ids; errors = first ∷ rest })
