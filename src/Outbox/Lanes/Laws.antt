-- ===== src/Outbox/Lanes/Laws.antt =====
-- Which rows share a lane.
use stormbox.Base.{String, Bool, false, ◌||◌, none, some, ◌≡◌, ◌≢◌, arith, ◌↔◌}
use stormbox.Outbox.Vocabulary.{MutationType}
use stormbox.Outbox.Store.{Row}
use stormbox.Outbox.Lanes.{
  ParsedSession, lane, draft_session_id, is_contact_write, is_identity_write, is_settings_write,
  is_subscription_write,
}

-- The types that have a lane of their own, whatever they target.
unfoldable pub is_account_write : MutationType → Bool
is_account_write t =
    is_contact_write t || is_identity_write t || is_settings_write t || is_subscription_write t

module _ (parse : String → ParsedSession) where
  -- A row that is no account write and names no draft session.
  pub record IsPlain (r : Row) : Type 0 where
    pub not_account : is_account_write r.mutation_type ≡ false
    pub no_session : draft_session_id parse r ≡ none

  pub record IsDraft (r : Row) (session : String) : Type 0 where
    pub not_account : is_account_write r.mutation_type ≡ false
    pub in_session : draft_session_id parse r ≡ some session

  -- Two mutations of messages share a lane exactly when they target the same message, or are the
  -- same row without a target.
  pub lane-eq_iff_plain :
      (r s : Row)
      → IsPlain r
      → IsPlain s
      → (lane parse r ≡ lane parse s) ↔ (
          (r.target_message_id ≡ s.target_message_id)
          × ((r.target_message_id ≡ none) → r.id ≡ s.id))
  unfolding lane is_account_write
  lane-eq_iff_plain r s p q = ground arith

  -- Two rows of drafts share a lane exactly when they target the same message, or target none and
  -- belong to the same session.
  pub lane-eq_iff_draft :
      (r s : Row) (a b : String)
      → IsDraft r a
      → IsDraft s b
      → (lane parse r ≡ lane parse s)
        ↔ ((r.target_message_id ≡ s.target_message_id) × ((r.target_message_id ≡ none) → a ≡ b))
  unfolding lane is_account_write
  lane-eq_iff_draft r s a b p q = ground arith

  -- A row of a draft session and a plain row never share a lane, also when both target the same
  -- message: nothing keeps them from running at the same time.
  pub lane-draft-ne-plain :
      (r s : Row) (a : String) → IsDraft r a → IsPlain s → lane parse r ≢ lane parse s
  unfolding lane is_account_write
  lane-draft-ne-plain r s a p q = ground arith
