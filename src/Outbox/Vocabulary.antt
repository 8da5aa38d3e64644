-- ===== src/Outbox/Vocabulary.antt =====
-- src/constants/states.ts: the labels of queued mutations, their phases and the recovery policies.
-- A label is a string constant in the source; here it is a constructor of the label's type.
use stormbox.Base.{ℕ, List, [], ◌∷◌, map, flat_map, get_elem?, some, ◌≡◌, refl, Eq, of_codes}

pub data MutationStatus : Type 0 where
  pending in_flight retry conflicted failed : MutationStatus

-- `SEND_PHASE`, `IDENTITY_PHASE`, `CONTACT_PHASE`, `ADDRESSBOOK_PHASE`, `CONTACT_TRASH_PHASE` and
-- `DRAFT_PHASE`, in this order.
pub data MutationPhase : Type 0 where
  queued created submitting submitted cache_pending unknown : MutationPhase
  identity_create_submitting : MutationPhase
  contact_create_pending : MutationPhase
  addressbook_create_submitting addressbook_destroy_submitting : MutationPhase
  addressbook_cache_pending : MutationPhase
  contact_trash_snapshot_saved contact_trash_document_confirmed : MutationPhase
  contact_trash_server_write_pending contact_trash_cache_pending : MutationPhase
  contact_trash_restore_pending contact_trash_tombstone_pending : MutationPhase
  draft_queued draft_created draft_cache_pending : MutationPhase
  draft_cleanup_pending draft_conflict : MutationPhase

pub data MutationType : Type 0 where
  set_keywords move_to_folders copy_to_folders destroy send cancel_scheduled_send : MutationType
  save_draft discard_draft : MutationType
  whitelist_sender create_contact update_contact delete_contact : MutationType
  contact_batch contact_trash : MutationType
  create_identity update_identity delete_identity : MutationType
  create_addressbook update_addressbook destroy_addressbook : MutationType
  set_mailbox_subscription create_mailbox update_mailbox destroy_mailbox : MutationType
  push_settings push_contacts_trash : MutationType

-- Labels are equal in the source if their texts are.
abbrev status_code : MutationStatus → ℕ
status_code pending = 0
status_code in_flight = 1
status_code retry = 2
status_code conflicted = 3
status_code failed = 4

abbrev status_labels : List MutationStatus
status_labels = pending ∷ in_flight ∷ retry ∷ conflicted ∷ failed ∷ []

pub status_at_code : (a : MutationStatus) → get_elem? status_labels (status_code a) ≡ some a
status_at_code pending = refl
status_at_code _ = refl

instance abbrev pub status_eq : Eq MutationStatus
status_eq = of_codes status_code status_labels status_at_code

abbrev phase_code : MutationPhase → ℕ
phase_code queued = 0
phase_code created = 1
phase_code submitting = 2
phase_code submitted = 3
phase_code cache_pending = 4
phase_code unknown = 5
phase_code identity_create_submitting = 6
phase_code contact_create_pending = 7
phase_code addressbook_create_submitting = 8
phase_code addressbook_destroy_submitting = 9
phase_code addressbook_cache_pending = 10
phase_code contact_trash_snapshot_saved = 11
phase_code contact_trash_document_confirmed = 12
phase_code contact_trash_server_write_pending = 13
phase_code contact_trash_cache_pending = 14
phase_code contact_trash_restore_pending = 15
phase_code contact_trash_tombstone_pending = 16
phase_code draft_queued = 17
phase_code draft_created = 18
phase_code draft_cache_pending = 19
phase_code draft_cleanup_pending = 20
phase_code draft_conflict = 21

abbrev phase_labels : List MutationPhase
phase_labels =
    queued ∷ created ∷ submitting ∷ submitted ∷ cache_pending ∷ unknown ∷ identity_create_submitting
    ∷ contact_create_pending ∷ addressbook_create_submitting ∷ addressbook_destroy_submitting
    ∷ addressbook_cache_pending ∷ contact_trash_snapshot_saved ∷ contact_trash_document_confirmed
    ∷ contact_trash_server_write_pending ∷ contact_trash_cache_pending
    ∷ contact_trash_restore_pending ∷ contact_trash_tombstone_pending ∷ draft_queued ∷ draft_created
    ∷ draft_cache_pending ∷ draft_cleanup_pending ∷ draft_conflict ∷ []

pub phase_at_code : (a : MutationPhase) → get_elem? phase_labels (phase_code a) ≡ some a
phase_at_code queued = refl
phase_at_code _ = refl

instance abbrev pub phase_eq : Eq MutationPhase
phase_eq = of_codes phase_code phase_labels phase_at_code

abbrev type_code : MutationType → ℕ
type_code set_keywords = 0
type_code move_to_folders = 1
type_code copy_to_folders = 2
type_code destroy = 3
type_code send = 4
type_code cancel_scheduled_send = 5
type_code save_draft = 6
type_code discard_draft = 7
type_code whitelist_sender = 8
type_code create_contact = 9
type_code update_contact = 10
type_code delete_contact = 11
type_code contact_batch = 12
type_code contact_trash = 13
type_code create_identity = 14
type_code update_identity = 15
type_code delete_identity = 16
type_code create_addressbook = 17
type_code update_addressbook = 18
type_code destroy_addressbook = 19
type_code set_mailbox_subscription = 20
type_code create_mailbox = 21
type_code update_mailbox = 22
type_code destroy_mailbox = 23
type_code push_settings = 24
type_code push_contacts_trash = 25

abbrev type_labels : List MutationType
type_labels =
    set_keywords ∷ move_to_folders ∷ copy_to_folders ∷ destroy ∷ send ∷ cancel_scheduled_send
    ∷ save_draft ∷ discard_draft ∷ whitelist_sender ∷ create_contact ∷ update_contact
    ∷ delete_contact ∷ contact_batch ∷ contact_trash ∷ create_identity ∷ update_identity
    ∷ delete_identity ∷ create_addressbook ∷ update_addressbook ∷ destroy_addressbook
    ∷ set_mailbox_subscription ∷ create_mailbox ∷ update_mailbox ∷ destroy_mailbox ∷ push_settings
    ∷ push_contacts_trash ∷ []

pub type_at_code : (a : MutationType) → get_elem? type_labels (type_code a) ≡ some a
type_at_code set_keywords = refl
type_at_code _ = refl

instance abbrev pub type_eq : Eq MutationType
type_eq = of_codes type_code type_labels type_at_code

record MutationRecoveryPolicy : Type 0 where
  pub mutation_type : MutationType
  pub replayable_phases : List MutationPhase
  pub completed_phases : List MutationPhase

abbrev mutation_recovery_policies : List MutationRecoveryPolicy
mutation_recovery_policies =
    record {
      mutation_type = send;
      replayable_phases = queued ∷ created ∷ [];
      completed_phases = submitted ∷ cache_pending ∷ [];
    }
    ∷ record {
      mutation_type = create_identity;
      replayable_phases = identity_create_submitting ∷ [];
      completed_phases = cache_pending ∷ [];
    }
    ∷ record {
      mutation_type = create_addressbook;
      replayable_phases = addressbook_create_submitting ∷ [];
      completed_phases = addressbook_cache_pending ∷ [];
    }
    ∷ record {
      mutation_type = destroy_addressbook;
      replayable_phases = addressbook_destroy_submitting ∷ [];
      completed_phases = addressbook_cache_pending ∷ [];
    }
    ∷ []

-- backend.ts takes these three from the policies. The last two are sets there: a phase that two
-- policies name is listed twice here.
abbrev pub unsafe_to_replay_mutation_types : List MutationType
unsafe_to_replay_mutation_types = map (λ p. p.mutation_type) mutation_recovery_policies

abbrev pub replayable_mutation_phases : List MutationPhase
replayable_mutation_phases = flat_map (λ p. p.replayable_phases) mutation_recovery_policies

abbrev pub completed_mutation_phases : List MutationPhase
completed_mutation_phases = flat_map (λ p. p.completed_phases) mutation_recovery_policies
