-- ===== src/Send/Checkpoint.antt =====
-- src/sync/backends/jmap/send-checkpoint.ts and the reader of mutation-checkpoint.ts.
-- The column `server_response_json` holds a JSON text: the model keeps the value that the text
-- stands for, as far as the reader looks at it, and tells a text that is none apart.
pub mod Laws
pub mod Blank
unfoldable pub use stormbox.Send.Checkpoint.Blank.{is_blank}
use stormbox.Base.{
  ℕ, zero, suc, ◌+◌, String, Bool, true, false, not, ◌&&◌, ◌||◌, List, [], ◌∷◌, ◌++◌, map, Option,
  none, some, ◌==◌, Eq, nat_eq, string_eq, contains, if◌then◌else◌, filter, length, or_default,
}
use stormbox.Outbox.Vocabulary.{
  MutationPhase, queued, created, submitting, submitted, cache_pending, unknown, phase_eq,
}

pub record SendCheckpoint : Type 0 where
  pub operation_id : String
  pub message_id : String
  pub email_remote_id : Option String
  pub submission_remote_id : Option String
  pub cache_attempts : ℕ
  pub trusted_recipients_queued : Bool
  pub pending_draft_destroy_ids : Option (List String)

-- A parsed JSON value as far as the reader tells values apart; `missing` is undefined or null.
pub data Item : Type 0 where
  text_item : String → Item
  other_item : Item

pub data Value : Type 0 where
  missing : Value
  text_value : String → Value
  integer : ℕ → Value
  truth : Bool → Value
  array : List Item → Value
  other_value : Value

pub record RawCheckpoint : Type 0 where
  pub operation_id : Value
  pub message_id : Value
  pub email_remote_id : Value
  pub submission_remote_id : Value
  pub cache_attempts : Value
  pub trusted_recipients_queued : Value
  pub pending_draft_destroy_ids : Value

-- The column: NULL, no JSON text, or a JSON value, which may be no object.
pub data Stored : Type 0 where
  null_column : Stored
  not_json : Stored
  json : Option RawCheckpoint → Stored

pub data CheckpointRead {ℓ} (A : Type ℓ) : Type ℓ where
  absent : CheckpointRead A
  valid : A → CheckpointRead A
  invalid : CheckpointRead A

-- `new Set(ids)`, read back in the order of insertion.
module _ {ℓ} {A : Type ℓ} ⦃e : Eq A⦄ where
  unfoldable pub to_set_from : List A → List A → List A
  to_set_from seen [] = seen
  to_set_from seen (x ∷ xs) =
      let skipped = to_set_from seen xs in
      let kept = to_set_from (seen ++ x ∷ []) xs in if contains seen x then skipped else kept

  abbrev pub to_set : List A → List A
  to_set = to_set_from []

abbrev pub is_present : String → Bool
is_present id = not (is_blank id)

-- The texts of an array that are not blank.
pub present_texts : List Item → List String
present_texts [] = []
present_texts (text_item s ∷ xs) =
    let rest = present_texts xs in if is_present s then s ∷ rest else rest
present_texts (other_item ∷ xs) = present_texts xs

unfoldable pub draft_email_ids : Value → Option (List String)
unfolding present_texts
draft_email_ids (array items) =
    let ids = present_texts items in
    if not (length ids == length items) || not (length (to_set ids) == length ids)
    then none
    else some ids
draft_email_ids _ = none

unfoldable pub well_formed_draft_email_ids : Value → List String
unfolding present_texts
well_formed_draft_email_ids (array items) = to_set (present_texts items)
well_formed_draft_email_ids _ = []

-- `typeof value === 'string' ? value : null`.
abbrev pub text_of : Value → Option String
text_of (text_value s) = some s
text_of _ = none

abbrev pub integer_of : Value → ℕ
integer_of (integer n) = n
integer_of _ = 0

abbrev pub is_truth : Value → Bool
is_truth (truth b) = b
is_truth _ = false

-- `none` inside is the absent list, `none` outside a list that does not read.
abbrev pub pending_ids_of : Value → Option (Option (List String))
pending_ids_of missing = some none
pending_ids_of v = elim (draft_email_ids v) [ none ↦ none | some ids ↦ some (some ids) ]

abbrev pub with_texts :
    RawCheckpoint
    → Option String
    → Option String
    → Option (Option (List String))
    → Option SendCheckpoint
with_texts raw (some operation_id) (some message_id) (some pending) = some record {
  operation_id = operation_id;
  message_id = message_id;
  email_remote_id = text_of raw.email_remote_id;
  submission_remote_id = text_of raw.submission_remote_id;
  cache_attempts = integer_of raw.cache_attempts;
  trusted_recipients_queued = is_truth raw.trusted_recipients_queued;
  pending_draft_destroy_ids = pending;
}
with_texts raw _ _ _ = none

unfoldable pub decode : RawCheckpoint → Option SendCheckpoint
decode raw =
    with_texts raw (text_of raw.operation_id) (text_of raw.message_id)
      (pending_ids_of raw.pending_draft_destroy_ids)

unfoldable pub read_mutation_checkpoint {ℓ} :
    {A : Type ℓ} → (RawCheckpoint → Option A) → Stored → CheckpointRead A
read_mutation_checkpoint decode null_column = absent
read_mutation_checkpoint decode (json (some raw)) = elim (decode raw) [
  | none ↦ invalid
  | some c ↦ valid c
]
read_mutation_checkpoint decode _ = invalid

abbrev pub valid_of {ℓ} : {A : Type ℓ} → CheckpointRead A → Option A
valid_of (valid c) = some c
valid_of _ = none

unfoldable pub read_checkpoint : Stored → Option SendCheckpoint
unfolding read_mutation_checkpoint decode
read_checkpoint stored = valid_of (read_mutation_checkpoint decode stored)

abbrev pub value_of : Option String → Value
value_of none = missing
value_of (some s) = text_value s

abbrev pub ids_value : Option (List String) → Value
ids_value none = missing
ids_value (some ids) = array (map text_item ids)

-- The value that `JSON.stringify(checkpoint)` writes.
abbrev pub raw_of : SendCheckpoint → RawCheckpoint
raw_of c = record {
  operation_id = text_value c.operation_id;
  message_id = text_value c.message_id;
  email_remote_id = value_of c.email_remote_id;
  submission_remote_id = value_of c.submission_remote_id;
  cache_attempts = integer c.cache_attempts;
  trusted_recipients_queued = truth c.trusted_recipients_queued;
  pending_draft_destroy_ids = ids_value c.pending_draft_destroy_ids;
}

unfoldable pub encode : SendCheckpoint → Stored
encode c = json (some (raw_of c))

-- The two identifiers that the source makes from random tokens are arguments.
unfoldable pub new_checkpoint : String → String → Value → SendCheckpoint
unfolding well_formed_draft_email_ids
new_checkpoint operation_id message_id draft_ids = record {
  operation_id = operation_id;
  message_id = message_id;
  email_remote_id = none;
  submission_remote_id = none;
  cache_attempts = 0;
  trusted_recipients_queued = false;
  pending_draft_destroy_ids = some (well_formed_draft_email_ids draft_ids);
}

abbrev pub post_submission_phases : List MutationPhase
post_submission_phases = submitted ∷ cache_pending ∷ []

abbrev pub send_phases : List MutationPhase
send_phases = queued ∷ created ∷ submitting ∷ submitted ∷ cache_pending ∷ unknown ∷ []

-- `readPhase`: any other phase counts as none.
unfoldable pub read_phase : Option MutationPhase → Option MutationPhase
read_phase none = none
read_phase (some p) = if contains send_phases p then some p else none
