-- ===== src/Outbox/Errors/Laws.antt =====
-- Which failures of a send the runner tries again.
use stormbox.Base.{
  ℕ, String, true, false, List, [], ◌∷◌, Option, none, some, ◌==◌, string_eq, has, ◌≡◌, ◌⊎◌, inl,
  inr, refl, arith, beq_true, ap, sym, Bool-cases, not,
}
use stormbox.Outbox.Vocabulary.{MutationType}
use stormbox.Outbox.Errors.{
  JmapError, ErrorDetail, MethodResponse, submission_error, is_retryable_submission_error,
  is_retryable_method_error, extract_method_error_by_id, error_slot, slot_error,
}
use stormbox.Outbox.Runner.{RunnerOptions, is_terminal}

is_terminal-unflagged :
    (o : RunnerOptions) (t : MutationType) (attempt : ℕ) (e : JmapError)
    → is_terminal o t attempt (some e) ≡ false
    → e.terminal ≡ false
unfolding is_terminal
is_terminal-unflagged o t attempt e h = ground (arith, h)

rate_limited :
    (d : ErrorDetail) → is_retryable_submission_error (some d) ≡ true → d.type ≡ some "rateLimit"
unfolding is_retryable_submission_error
rate_limited d h = by_type d.type h
  where
    by_type : (x : Option String) → has ("rateLimit" ∷ []) x ≡ true → x ≡ some "rateLimit"
    by_type none h = absurd (cc h)
    by_type (some x) h = ap some (sym (beq_true "rateLimit" x (ground (arith, h))))

-- A rejected send is tried again only if the server's reason is its rate limit, whatever the type
-- that the rejection is reported under.
pub submission_error-retried :
    (o : RunnerOptions) (t : MutationType) (attempt : ℕ) (type : String)
    (detail : Option ErrorDetail)
    → is_terminal o t attempt (some (submission_error type detail)) ≡ false
    → (d : ErrorDetail) × (detail ≡ some d) × (d.type ≡ some "rateLimit")
unfolding submission_error
submission_error-retried o t attempt type none h =
    absurd (ground (arith, is_terminal-unflagged o t attempt (submission_error type none) h))
submission_error-retried o t attempt type (some d) h = (
  d,
  refl,
  rate_limited d
      (ground (arith, is_terminal-unflagged o t attempt (submission_error type (some d)) h)),
)

-- The types for which waiting is the right response.
abbrev pub IsTransient : Option String → Type 0
IsTransient type =
    (type ≡ some "noResponse") ⊎ (type ≡ some "serverUnavailable") ⊎ (type ≡ some "rateLimit")

is_retryable_method_error-IsTransient :
    (x : String) → is_retryable_method_error (some x) ≡ true → IsTransient (some x)
unfolding is_retryable_method_error
is_retryable_method_error-IsTransient x h = elim (Bool-cases (x == "noResponse")) [
  | inl a ↦ inl (ap some (beq_true x "noResponse" a))
  | inr a ↦ elim (Bool-cases ("serverUnavailable" == x)) [
    | inl b ↦ inr (inl (ap some (sym (beq_true "serverUnavailable" x b))))
    | inr b ↦ inr (inr (ap some (sym (beq_true "rateLimit" x (ground (arith, h, a, b))))))
  ]
]

slot_error-IsTransient :
    (slot : Option MethodResponse)
    → (slot_error slot).terminal ≡ false
    → IsTransient (slot_error slot).type
unfolding slot_error
slot_error-IsTransient none h = inl refl
slot_error-IsTransient (some slot) h = is_retryable_method_error-IsTransient _ (ground (arith, h))

-- A send whose call is answered by an error slot is tried again only if the slot says that the
-- server did not answer, is not available, or limits the rate.
pub extract_method_error_by_id-IsTransient :
    (o : RunnerOptions) (t : MutationType) (attempt : ℕ) (responses : List MethodResponse)
    (call_id : String)
    → is_terminal o t attempt (some (extract_method_error_by_id responses call_id)) ≡ false
    → IsTransient (extract_method_error_by_id responses call_id).type
unfolding extract_method_error_by_id
extract_method_error_by_id-IsTransient o t attempt responses call_id h =
    slot_error-IsTransient (error_slot responses call_id)
      (is_terminal-unflagged o t attempt (slot_error (error_slot responses call_id)) h)

slot_error-terminal :
    (slot : Option MethodResponse)
    → (slot_error slot).terminal ≡ not (is_retryable_method_error (slot_error slot).type)
unfolding slot_error is_retryable_method_error
slot_error-terminal none = refl
slot_error-terminal (some slot) = refl

-- An error slot is flagged as final just if its type is not retried.
pub extract_method_error_by_id-terminal :
    (responses : List MethodResponse) (call_id : String)
    → (extract_method_error_by_id responses call_id).terminal
      ≡ not (is_retryable_method_error (extract_method_error_by_id responses call_id).type)
unfolding extract_method_error_by_id
extract_method_error_by_id-terminal responses call_id =
    slot_error-terminal (error_slot responses call_id)

pub submission_error-terminal :
    (type : String) (detail : Option ErrorDetail)
    → (submission_error type detail).terminal ≡ not (is_retryable_submission_error detail)
unfolding submission_error
submission_error-terminal type detail = refl
