-- ===== src/Outbox/Lanes.antt =====
-- `_dispatch` of outbox-runner.ts: the lock key of a row. The promise chains are Chains.
-- A key is a text with a prefix for each kind of lane; here each kind is a constructor.
pub mod Laws
pub mod Chains
pub mod Sound
pub mod Cleaned
pub mod Dispatched
pub mod Order
pub mod Progress
use stormbox.Base.{
  ℕ, String, Bool, true, false, not, ◌&&◌, ◌||◌, List, [], ◌∷◌, ◌++◌, Option, none, some, ◌==◌,
  nat_eq, string_eq, if◌then◌else◌, All, ◌≡◌,
}
use stormbox.Outbox.Vocabulary.{
  MutationType, send, save_draft, discard_draft, whitelist_sender, create_contact, update_contact,
  delete_contact, contact_batch, contact_trash, push_contacts_trash, create_addressbook,
  update_addressbook, destroy_addressbook, create_identity, update_identity, delete_identity,
  push_settings, set_mailbox_subscription,
}
use stormbox.Outbox.Store.{Row}

pub data Lane : Type 0 where
  contacts_trash_document identity_writes settings_document mailbox_subscriptions : Lane
  draft_target : ℕ → Lane
  draft_session : String → Lane
  row : ℕ → Lane
  target : ℕ → Lane

unfoldable pub is_contact_write : MutationType → Bool
is_contact_write whitelist_sender = true
is_contact_write create_contact = true
is_contact_write update_contact = true
is_contact_write delete_contact = true
is_contact_write contact_batch = true
is_contact_write contact_trash = true
is_contact_write push_contacts_trash = true
is_contact_write create_addressbook = true
is_contact_write update_addressbook = true
is_contact_write destroy_addressbook = true
is_contact_write _ = false

unfoldable pub is_identity_write : MutationType → Bool
is_identity_write create_identity = true
is_identity_write update_identity = true
is_identity_write delete_identity = true
is_identity_write _ = false

unfoldable pub is_settings_write : MutationType → Bool
is_settings_write push_settings = true
is_settings_write _ = false

unfoldable pub is_subscription_write : MutationType → Bool
is_subscription_write set_mailbox_subscription = true
is_subscription_write _ = false

-- The types whose request may name a draft session.
unfoldable pub has_draft_session : MutationType → Bool
has_draft_session save_draft = true
has_draft_session discard_draft = true
has_draft_session send = true
has_draft_session _ = false

-- What `JSON.parse(request_json)?.draftSessionId` gives.
pub data ParsedSession : Type 0 where
  malformed : ParsedSession
  no_text : ParsedSession
  text : String → ParsedSession

-- A text that is truthy in the source is not empty.
abbrev truthy : String → Option String
truthy s = if s == "" then none else some s

abbrev session_text : ParsedSession → Option String
session_text malformed = none
session_text no_text = none
session_text (text s) = truthy s

-- `parse` is `JSON.parse` followed by the access of the field.
module _ (parse : String → ParsedSession) where
  unfoldable pub draft_session_id : Row → Option String
  unfolding has_draft_session
  draft_session_id r =
      if has_draft_session r.mutation_type then session_text (parse r.request_json) else none

  abbrev plain_lane : Option ℕ → ℕ → Lane
  plain_lane none id = row id
  plain_lane (some t) id = target t

  abbrev draft_lane : String → Option ℕ → Lane
  draft_lane session none = draft_session session
  draft_lane session (some t) = draft_target t

  unfoldable pub lane : Row → Lane
  unfolding is_contact_write is_identity_write is_settings_write is_subscription_write
      draft_session_id
  lane r =
      if is_contact_write r.mutation_type
      then contacts_trash_document
      else if is_identity_write r.mutation_type
      then identity_writes
      else if is_settings_write r.mutation_type
      then settings_document
      else if is_subscription_write r.mutation_type
      then mailbox_subscriptions
      else elim (draft_session_id r) [
        | some session ↦ draft_lane session r.target_message_id
        | none ↦ plain_lane r.target_message_id r.id
      ]
