-- ===== src/Send/Program.antt =====
-- The effects of a send, as outbox/operations/send.ts awaits them: a program is a tree whose nodes
-- are the calls and whose branches are what a call may answer. `raise` is a throw, `finish` an
-- early `return`. The writes of the row and the submission are nodes of their own; the other calls
-- are questions.
pub mod World
pub mod Rules
pub mod Within
pub mod Returns
pub mod Gives
use stormbox.Base.{
  ℕ, String, Bool, true, false, List, Option, none, some, ◌==◌, string_eq, if◌then◌else◌,
}
use stormbox.Outbox.Vocabulary.{MutationPhase}
use stormbox.Outbox.Errors.{ErrorDetail, JmapError, MethodResponse}
use stormbox.Send.Checkpoint.{SendCheckpoint}
use stormbox.Send.Outcome.{SendOutcome, SendError}

-- What an awaited call gives: a value or a throw.
pub data Reply {ℓ} (A : Type ℓ) : Type ℓ where
  got : A → Reply A
  failed : JmapError → Reply A

pub record Identity : Type 0 where
  pub remote_id : String
  pub email : String

pub record SubmissionRecord : Type 0 where
  pub id : String
  pub email_id : String

-- Where an Email is, of `Email/get`.
pub record Placement : Type 0 where
  pub mailbox_ids : List String
  pub is_draft : Bool

-- The `messageId` of a listed Email: null, a text, an array of texts, or a value that is none.
pub data MessageIds : Type 0 where
  no_ids : MessageIds
  one_id : String → MessageIds
  many_ids : List String → MessageIds
  unreadable : MessageIds

pub record ScannedEmail : Type 0 where
  pub id : Option String
  pub message_ids : MessageIds

-- The slots of the scan's answer. `got_list` is `none` without a slot for `Email/get`, and
-- `some none` if its `list` is no array.
pub record Scan : Type 0 where
  pub has_query : Bool
  pub got_list : Option (Option (List ScannedEmail))

-- The slot of a `/set` call that creates one object.
pub record SetSlot : Type 0 where
  pub created : Option String
  pub not_created : Option ErrorDetail

-- An answer to a `/set` call: its slot, if it is there, and all slots.
pub record SetPayload : Type 0 where
  pub slot : Option SetSlot
  pub responses : List MethodResponse

-- The slot of an `Email/set` that destroys: the ids destroyed, those answered `notFound`, and the
-- error that `extractMethodErrorById` gives for the call where the slot is missing.
pub record DestroySlot : Type 0 where
  pub destroyed : List String
  pub not_found : List String

pub record DestroyPayload : Type 0 where
  pub slot : Option DestroySlot
  pub method_error : JmapError

-- What `reconcileDestroyedDraftEmails` reads: the ids that the server answered `notFound`, and
-- whether every read was complete.
pub record Reread : Type 0 where
  pub not_found : List String
  pub conclusive : Bool

pub record EmailSubmission : Type 0 where
  pub identity_id : String
  pub email_id : Option String
  pub mail_from : String
  pub hold_for : Option ℕ
  pub rcpt_to : List String

pub data Question : Type 0 where
  resolve_identity : Option ℕ → Question
  resolve_folder_remote_ids : List (Option ℕ) → Question
  fetch_submission_records : Question
  get_placement : String → Question
  scan_mailbox : String → Question
  ensure_scheduled_mailbox : Question
  scheduled_mailbox_remote_id : Question
  prepare_email : Option String → Question
  create_email : String → Question
  compute_hold : String → Question
  destroy_email : String → Question
  file_sent_copy : Option String → Option String → Option String → Question
  destroy_drafts : List String → Question
  reconcile_destroyed : List String → Question
  drop_drafts : List String → Question
  queue_draft_cleanup : List String → Question
  mark_views_stale : Option String → Question

abbrev pub Answer : Question → Type 0
Answer (resolve_identity id) = Option Identity
Answer (resolve_folder_remote_ids ids) = List (Option String)
Answer fetch_submission_records = List SubmissionRecord
Answer (get_placement id) = Option Placement
Answer (scan_mailbox mailbox) = Scan
Answer ensure_scheduled_mailbox = Option String
Answer scheduled_mailbox_remote_id = Option String
Answer (create_email message_id) = SetPayload
Answer (compute_hold target) = ℕ
Answer (file_sent_copy created submission mailbox) = Bool
Answer (destroy_drafts ids) = DestroyPayload
Answer (reconcile_destroyed ids) = Reread
Answer _ = Unit

pub data Send (A : Type 0) : Type 0 where
  pure : A → Send A
  raise : JmapError → Send A
  finish : SendOutcome → Send A
  save : SendCheckpoint → MutationPhase → (Reply (Unit {0}) → Send A) → Send A
  accept : SendCheckpoint → Bool → (Reply SendCheckpoint → Send A) → Send A
  submit : EmailSubmission → (Reply SetPayload → Send A) → Send A
  ask : (q : Question) → (Reply (Answer q) → Send A) → Send A

infixl 5 ◌>>=◌ ◌>>◌
unfoldable pub ◌>>=◌ : {A B : Type 0} → Send A → (A → Send B) → Send B
pure a >>= f = f a
raise e >>= f = raise e
finish o >>= f = finish o
save c p k >>= f = save c p λ r. k r >>= f
accept c s k >>= f = accept c s λ r. k r >>= f
submit s k >>= f = submit s λ r. k r >>= f
ask q k >>= f = ask q λ r. k r >>= f

abbrev pub ◌>>◌ : {A B : Type 0} → Send A → Send B → Send B
m >> n = m >>= λ _. n

-- `try { return await m } catch (err) { handler(err) }`.
unfoldable pub catching : {A : Type 0} → Send A → (JmapError → Send A) → Send A
catching (pure a) h = pure a
catching (raise e) h = h e
catching (finish o) h = finish o
catching (save c p k) h = save c p λ r. catching (k r) h
catching (accept c s k) h = accept c s λ r. catching (k r) h
catching (submit s k) h = submit s λ r. catching (k r) h
catching (ask q k) h = ask q λ r. catching (k r) h

abbrev pub of_reply : {A : Type 0} → Reply A → Send A
of_reply (got a) = pure a
of_reply (failed e) = raise e

-- `value || null` of a text: the empty text counts as none.
abbrev pub truthy : Option String → Option String
truthy none = none
truthy (some s) = if s == "" then none else some s

-- An awaited call whose throw is not caught.
abbrev pub request : (q : Question) → Send (Answer q)
request q = ask q of_reply
