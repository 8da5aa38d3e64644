-- ===== src/Outbox/Batch/Laws.antt =====
-- When the runner tries a batch again.
use stormbox.Base.{
  ℕ, Bool, true, false, not, ◌&&◌, ◌||◌, List, [], ◌∷◌, Option, none, some, Eq, if◌then◌else◌, any,
  all, ◌≡◌, refl, arith, Bool-cases, inl, inr, ap, if_true, if_false, ◌∙◌,
}
use stormbox.Outbox.Vocabulary.{MutationType}
use stormbox.Outbox.Errors.{
  JmapError, is_retryable_message_error, is_terminal_per_object_folder_error, classify_auth,
}
use stormbox.Outbox.Runner.{RunnerOptions, is_terminal}
use stormbox.Outbox.Batch.{
  FolderProcessResult, flagged, copy_partial_success, is_nil, finish_folder_batch,
  finish_message_batch, unique_ids,
}

-- The error of the whole mutation, as the runner reads it.
abbrev pub failure_error {ℓ} : {Key : Type ℓ} → FolderProcessResult Key → Option JmapError
failure_error r = elim r.failure [ none ↦ none | some b ↦ some b.error ]

-- The runner itself would try this error again at this attempt.
abbrev pub runner_retries : RunnerOptions → MutationType → ℕ → JmapError → Bool
runner_retries o t attempt e = not (is_terminal o t attempt (some e))

-- The flag of a batch adds to what the runner would decide.
is_terminal-flagged :
    (o : RunnerOptions) (t : MutationType) (attempt : ℕ) (b : Bool) (e : JmapError)
    → is_terminal o t attempt (some (flagged b e)) ≡ b || is_terminal o t attempt (some e)
unfolding is_terminal classify_auth
is_terminal-flagged o t attempt true e = ground arith
is_terminal-flagged o t attempt false e = ground arith

is_terminal-copy_partial_success :
    (o : RunnerOptions) (t : MutationType) (attempt : ℕ) (e : JmapError)
    → is_terminal o t attempt (some (copy_partial_success e)) ≡ true
unfolding is_terminal
is_terminal-copy_partial_success o t attempt e = refl

is_terminal-message :
    (o : RunnerOptions) (t : MutationType) (attempt : ℕ) (prevent none_done retryable : Bool)
    (first : JmapError)
    → is_terminal o t attempt (
        some (
          if prevent && (not none_done && retryable)
          then copy_partial_success first
          else flagged (not retryable) first))
      ≡ not (retryable && (runner_retries o t attempt first && not (prevent && not none_done)))
is_terminal-message o t attempt prevent none_done retryable first =
    elim (Bool-cases (prevent && (not none_done && retryable))) [
      | inl h ↦
          ap (λ e. is_terminal o t attempt (some e)) (if_true _ _ h)
          ∙ is_terminal-copy_partial_success o t attempt first
          ∙ ground (arith, h)
      | inr h ↦
          ap (λ e. is_terminal o t attempt (some e)) (if_false _ _ h)
          ∙ is_terminal-flagged o t attempt (not retryable) first
          ∙ ground (arith, h)
    ]

module _ {ℓ} {Key : Type ℓ} ⦃e : Eq Key⦄ where
  unique_ids-nil : (ids : List Key) → is_nil (unique_ids [] ids) ≡ is_nil ids
  unfolding unique_ids
  unique_ids-nil [] = refl
  unique_ids-nil (x ∷ xs) = refl

  -- A batch of messages is tried again exactly when some object's error is retryable, the runner
  -- would retry the first error, and no success forbids it.
  pub finish_message_batch-retries :
      (o : RunnerOptions) (t : MutationType) (attempt : ℕ) (prevent : Bool) (ids : List Key)
      (first : JmapError) (rest : List JmapError)
      → is_terminal o t attempt (failure_error (finish_message_batch prevent ids (first ∷ rest)))
        ≡ not (
            any is_retryable_message_error (first ∷ rest)
            && (runner_retries o t attempt first && not (prevent && not (is_nil ids))))
  unfolding finish_message_batch
  finish_message_batch-retries o t attempt prevent ids first rest =
      is_terminal-message o t attempt prevent (is_nil (unique_ids [] ids))
        (any is_retryable_message_error (first ∷ rest)) first
      ∙ ap
          (λ b. not (
            any is_retryable_message_error (first ∷ rest)
            && (runner_retries o t attempt first && not (prevent && not b))))
          (unique_ids-nil ids)

flag_or : (a b : Bool) → (a || b) ≡ not (not a && not b)
flag_or a b = ground arith

module _ {ℓ} {Key : Type ℓ} where
  -- A batch of folders is tried again exactly when some object's error is not final and the runner
  -- would retry the first error.
  pub finish_folder_batch-retries :
      (o : RunnerOptions) (t : MutationType) (attempt : ℕ) (ids : List Key) (first : JmapError)
      (rest : List JmapError)
      → is_terminal o t attempt (failure_error (finish_folder_batch ids (first ∷ rest)))
        ≡ not (
            not (all is_terminal_per_object_folder_error (first ∷ rest))
            && runner_retries o t attempt first)
  unfolding finish_folder_batch
  finish_folder_batch-retries o t attempt ids first rest =
      is_terminal-flagged o t attempt (all is_terminal_per_object_folder_error (first ∷ rest)) first
      ∙ flag_or (all is_terminal_per_object_folder_error (first ∷ rest))
          (is_terminal o t attempt (some first))
