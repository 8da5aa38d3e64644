-- ===== src/Outbox/Errors.antt =====
-- src/sync/backends/jmap/outbox/errors.ts and the classifier of transport.ts that it calls: which
-- failures of a mutation are retried. Error types are open strings, as the server sends them.
pub mod Laws
use stormbox.Base.{
  ℕ, String, Bool, true, false, not, ◌&&◌, ◌||◌, List, [], ◌∷◌, Option, none, some, ◌==◌, has,
  or_else, or_default, if◌then◌else◌, string_eq, nat_eq,
}

-- The `detail` of an error, as far as the classifiers read it.
pub record ErrorDetail : Type 0 where
  pub type : Option String
  pub status : Option ℕ

-- An error object. `terminal` is `error.terminal === true`, `result` the text of a JSON value.
pub record JmapError : Type 0 where
  pub type : Option String
  pub status : Option ℕ
  pub detail : Option ErrorDetail
  pub terminal : Bool
  pub result : Option String

-- `error?.detail?.type` and `error?.detail?.status`.
abbrev detail_type : JmapError → Option String
detail_type e = elim e.detail [ none ↦ none | some d ↦ d.type ]

abbrev detail_status : JmapError → Option ℕ
detail_status e = elim e.detail [ none ↦ none | some d ↦ d.status ]

pub data AuthClass : Type 0 where
  authentication_failed authorization_failed : AuthClass

abbrev pub auth_type : AuthClass → String
auth_type authentication_failed = "authenticationFailed"
auth_type authorization_failed = "authorizationFailed"

abbrev auth_retryable : AuthClass → Bool
auth_retryable authentication_failed = true
auth_retryable authorization_failed = false

abbrev pub auth_terminal : AuthClass → Bool
auth_terminal authentication_failed = false
auth_terminal authorization_failed = true

-- `x === k` for a value that may be undefined.
abbrev is_text : String → Option String → Bool
is_text k none = false
is_text k (some x) = x == k

abbrev is_number : ℕ → Option ℕ → Bool
is_number k none = false
is_number k (some x) = x == k

unfoldable pub classify_auth : JmapError → Option AuthClass
classify_auth e =
    let status = or_else e.status (detail_status e) in
    let protocol_type = or_else e.type (detail_type e) in
    if is_number 401 status || is_text "authenticationFailed" protocol_type
    then some authentication_failed
    else if is_number 403 status || is_text "authorizationFailed" protocol_type
    then some authorization_failed
    else none

abbrev retryable_folder_error_types : List String
retryable_folder_error_types =
    "transport" ∷ "serverUnavailable" ∷ "serverFail" ∷ "serverPartialFail" ∷ "noResponse"
    ∷ "stateMismatch" ∷ []

abbrev set_error_wrappers : List String
set_error_wrappers = "notCreated" ∷ "notUpdated" ∷ "notDestroyed" ∷ []

abbrev retryable_submission_error_types : List String
retryable_submission_error_types = "rateLimit" ∷ []

abbrev retryable_method_error_types : List String
retryable_method_error_types = "serverUnavailable" ∷ "rateLimit" ∷ []

abbrev retryable_draft_error_types : List String
retryable_draft_error_types =
    "noResponse" ∷ "rateLimit" ∷ "serverFail" ∷ "serverPartialFail" ∷ "serverUnavailable" ∷ []

abbrev terminal_message_error_types : List String
terminal_message_error_types =
    "unknownMessage" ∷ "unknownFolder" ∷ "unknownAccount" ∷ "invalidCopyDestination"
    ∷ "mixedDestinationAccounts" ∷ "sameAccountCopy" ∷ "crossAccountMove" ∷ "forbidden" ∷ "notFound"
    ∷ "invalidArguments" ∷ "invalidProperties" ∷ "overQuota" ∷ "tooManyObjectsInSet"
    ∷ "requestTooLarge" ∷ "copyReconcileFailed" ∷ "copyViewReconcileFailed"
    ∷ "copyCounterReconcileFailed" ∷ []

unfoldable pub is_terminal_per_object_folder_error : JmapError → Bool
is_terminal_per_object_folder_error e =
    if not (has set_error_wrappers e.type)
    then false
    else not (has retryable_folder_error_types (detail_type e))

unfoldable pub is_retryable_message_error : JmapError → Bool
is_retryable_message_error failure = elim (classify_auth failure) [
  | some c ↦ auth_retryable c
  | none ↦
      if has retryable_folder_error_types failure.type
        || has retryable_folder_error_types (detail_type failure)
      then true
      else if has set_error_wrappers failure.type
      then false
      else if has terminal_message_error_types failure.type
      then false
      else true
]

unfoldable pub is_retryable_submission_error : Option ErrorDetail → Bool
is_retryable_submission_error none = false
is_retryable_submission_error (some d) = has retryable_submission_error_types d.type

-- `isRetryableMethodError({ type })`.
pub is_retryable_method_error : Option String → Bool
is_retryable_method_error type = is_text "noResponse" type || has retryable_method_error_types type

unfoldable pub is_retryable_draft_error : JmapError → Bool
is_retryable_draft_error error = elim (classify_auth error) [
  | some c ↦ auth_retryable c
  | none ↦ has retryable_draft_error_types error.type
]

unfoldable pub submission_error : String → Option ErrorDetail → JmapError
unfolding is_retryable_submission_error
submission_error type detail = record {
  type = some type;
  status = none;
  detail = detail;
  terminal = not (is_retryable_submission_error detail);
  result = none;
}

-- One `[name, args, callId]` of `methodResponses`; the arguments of an error slot as a detail.
pub record MethodResponse : Type 0 where
  pub name : String
  pub args : Option ErrorDetail
  pub call_id : String

abbrev pub typed_error : String → JmapError
typed_error type = record {
  type = some type;
  status = none;
  detail = none;
  terminal = false;
  result = none;
}

pub error_slot : List MethodResponse → String → Option MethodResponse
error_slot [] call_id = none
error_slot (r ∷ rs) call_id =
    if r.name == "error" && r.call_id == call_id then some r else error_slot rs call_id

first_error_slot : List MethodResponse → Option MethodResponse
first_error_slot [] = none
first_error_slot (r ∷ rs) = if r.name == "error" then some r else first_error_slot rs

abbrev empty_detail : ErrorDetail
empty_detail = record { type = none; status = none }

pub slot_error : Option MethodResponse → JmapError
unfolding is_retryable_method_error
slot_error none = typed_error "noResponse"
slot_error (some slot) =
    let detail = or_default slot.args empty_detail in
    let type = or_default detail.type "methodError" in
    record {
      type = some type;
      status = none;
      detail = some detail;
      terminal = not (is_retryable_method_error (some type));
      result = none;
    }

unfoldable pub extract_method_error_by_id : List MethodResponse → String → JmapError
unfolding error_slot slot_error
extract_method_error_by_id responses call_id = slot_error (error_slot responses call_id)

unfoldable pub extract_method_error : List MethodResponse → JmapError
unfolding first_error_slot
extract_method_error responses = elim (first_error_slot responses) [
  | none ↦ typed_error "noResponse"
  | some slot ↦
      let detail = or_default slot.args empty_detail in
      record {
        type = some (or_default detail.type "methodError");
        status = none;
        detail = some detail;
        terminal = false;
        result = none;
      }
]
