-- ===== src/Send/Drafts/Gives.antt =====
-- The removal of drafts returns nothing early.
use stormbox.Base.{
  ℕ, zero, suc, String, List, [], ◌∷◌, Option, none, some, if_intro, take, string_eq, length,
}
use stormbox.Outbox.Errors.{JmapError}
use stormbox.Send.Checkpoint.{SendCheckpoint, to_set}
use stormbox.Send.Outcome.{SendOutcome}
use stormbox.Send.Program.{
  Reply, got, failed, DestroySlot, DestroyPayload, Reread, ask, reconcile_destroyed,
}
use stormbox.Send.Program.Within.{Done}
use stormbox.Send.Program.Gives.{Gives}
use stormbox.Send.Drafts.{
  Next, with_error, continue, after_save, after_drop, after_chunk, after_reread, by_slot,
  after_destroy, destroy_loop, destroy_draft_emails, confirmed_by_slot, confirmed_by_reread,
  has_type, draft_cleanup_failed, remaining,
}

module _ (F : SendOutcome → Type 0) where
  module _ (next : Next)
      (h : (ids : List String) (c : SendCheckpoint) → Gives F Done (next ids c)) where
    continue-Gives :
        (error : Option JmapError) (ids : List String) (c : SendCheckpoint)
        → Gives F Done (continue next error ids c)
    continue-Gives none ids c = h ids c
    continue-Gives (some e) ids c = tt

    after_save-Gives :
        (error : Option JmapError) (ids : List String) (c : SendCheckpoint) (r : Reply (Unit {0}))
        → Gives F Done (after_save next error ids c r)
    after_save-Gives error ids c (failed e) = tt
    after_save-Gives error ids c (got _) = continue-Gives error ids c

    after_drop-Gives :
        (error : Option JmapError) (ids : List String) (c c' : SendCheckpoint)
        (r : Reply (Unit {0}))
        → Gives F Done (after_drop next error ids c c' r)
    after_drop-Gives error ids c c' (failed e) = tt
    after_drop-Gives error ids c c' (got _) = λ r. after_save-Gives error ids c' r

    after_chunk-Gives :
        (error : Option JmapError) (ids : List String) (c : SendCheckpoint)
        (confirmed : List String)
        → Gives F Done (after_chunk next error ids c confirmed)
    after_chunk-Gives error ids c [] = continue-Gives error ids c
    after_chunk-Gives error ids c (x ∷ xs) =
        λ r. after_drop-Gives error (remaining (x ∷ xs) ids) c _ r

    by_slot-Gives :
        (chunk pending : List String) (c : SendCheckpoint) (e : JmapError)
        (slot : Option DestroySlot)
        → Gives F Done (by_slot next chunk pending c e slot)
    by_slot-Gives chunk pending c e (some slot) =
        after_chunk-Gives (confirmed_by_slot chunk slot).error pending c
          (confirmed_by_slot chunk slot).ids
    by_slot-Gives chunk pending c e none =
        if_intro (Gives F Done) (has_type "serverPartialFail" e)
          (ask (reconcile_destroyed chunk) (after_reread next chunk pending c))
          (with_error c draft_cleanup_failed) reread tt
      where
        reread : (r : Reply Reread) → Gives F Done (after_reread next chunk pending c r)
        reread (failed e) = tt
        reread (got r) =
            after_chunk-Gives (confirmed_by_reread chunk r).error pending c
              (confirmed_by_reread chunk r).ids

    after_destroy-Gives :
        (chunk pending : List String) (c : SendCheckpoint) (r : Reply DestroyPayload)
        → Gives F Done (after_destroy next chunk pending c r)
    after_destroy-Gives chunk pending c (failed e) = tt
    after_destroy-Gives chunk pending c (got p) =
        by_slot-Gives chunk pending c p.method_error p.slot

  destroy_loop-Gives :
      (set_limit n : ℕ) (ids : List String) (c : SendCheckpoint)
      → Gives F Done (destroy_loop set_limit n ids c)
  unfolding destroy_loop
  destroy_loop-Gives set_limit zero ids c = tt
  destroy_loop-Gives set_limit (suc n) [] c = tt
  destroy_loop-Gives set_limit (suc n) (x ∷ xs) c = λ r.
      after_destroy-Gives (destroy_loop set_limit n) (destroy_loop-Gives set_limit n)
        (take set_limit (x ∷ xs)) (x ∷ xs) c r

  pub destroy_draft_emails-Gives :
      (set_limit : ℕ) (ids : List String) (c : SendCheckpoint)
      → Gives F Done (destroy_draft_emails set_limit ids c)
  unfolding destroy_draft_emails
  destroy_draft_emails-Gives set_limit ids c =
      destroy_loop-Gives set_limit (suc (length (to_set ids))) (to_set ids) c
