-- ===== src/Send/Drafts/Laws.antt =====
-- The removal of drafts writes the row at one phase only, and keeps what the checkpoint says of the
-- send.
use stormbox.Base.{
  ℕ, zero, suc, String, List, [], ◌∷◌, Option, none, some, if_intro, take, string_eq, length,
}
use stormbox.Outbox.Vocabulary.{MutationPhase, cache_pending}
use stormbox.Outbox.Errors.{JmapError}
use stormbox.Send.Checkpoint.{SendCheckpoint, to_set}
use stormbox.Send.Program.{
  Reply, got, failed, DestroySlot, DestroyPayload, Reread, ask, reconcile_destroyed,
}
use stormbox.Send.Program.Within.{Within, Done}
use stormbox.Send.Drafts.{
  Next, Cleanup, with_error, continue, after_drop, after_chunk, after_reread, by_slot,
  after_destroy, destroy_loop, destroy_draft_emails, confirmed_by_slot, confirmed_by_reread,
  has_type, draft_cleanup_failed, remaining, with_pending,
}

-- `Kept` is kept of the checkpoint, and `AreIds` of the drafts that are left.
module _ (P : SendCheckpoint → MutationPhase → Type 0) (Kept : SendCheckpoint → Type 0)
    (AreIds : List String → Type 0) (writes : (c : SendCheckpoint) → Kept c → P c cache_pending)
    (shrinks : (xs ids : List String) → AreIds ids → AreIds (remaining xs ids))
    (updates : (ids : List String) (c : SendCheckpoint)
      → AreIds ids
      → Kept c
      → Kept (with_pending ids c)) where
  abbrev IsKept : Cleanup → Type 0
  IsKept r = Kept r.checkpoint

  module _ (next : Next)
      (h : (ids : List String) (c : SendCheckpoint)
        → AreIds ids
        → Kept c
        → Within P IsKept (next ids c)) where
    continue-Within :
        (error : Option JmapError) (ids : List String) (c : SendCheckpoint)
        → AreIds ids
        → Kept c
        → Within P IsKept (continue next error ids c)
    continue-Within none ids c a k = h ids c a k
    continue-Within (some e) ids c a k = k

    after_drop-Within :
        (error : Option JmapError) (ids : List String) (c c' : SendCheckpoint)
        (r : Reply (Unit {0}))
        → AreIds ids
        → Kept c
        → Kept c'
        → Within P IsKept (after_drop next error ids c c' r)
    after_drop-Within error ids c c' (failed e) a k k' = k
    after_drop-Within error ids c c' (got _) a k k' =
        (writes c' k', (continue-Within error ids c' a k', λ e. k'))

    after_chunk-Within :
        (error : Option JmapError) (ids : List String) (c : SendCheckpoint)
        (confirmed : List String)
        → AreIds ids
        → Kept c
        → Within P IsKept (after_chunk next error ids c confirmed)
    after_chunk-Within error ids c [] a k = continue-Within error ids c a k
    after_chunk-Within error ids c (x ∷ xs) a k = λ r _.
        let rest : AreIds (remaining (x ∷ xs) ids) = shrinks (x ∷ xs) ids a in
        after_drop-Within error (remaining (x ∷ xs) ids) c (with_pending (remaining (x ∷ xs) ids) c)
          r rest k (updates (remaining (x ∷ xs) ids) c rest k)

    after_reread-Within :
        (chunk pending : List String) (c : SendCheckpoint) (r : Reply Reread)
        → AreIds pending
        → Kept c
        → Within P IsKept (after_reread next chunk pending c r)
    after_reread-Within chunk pending c (failed e) a k = k
    after_reread-Within chunk pending c (got r) a k =
        after_chunk-Within (confirmed_by_reread chunk r).error pending c
          (confirmed_by_reread chunk r).ids a k

    by_slot-Within :
        (chunk pending : List String) (c : SendCheckpoint) (e : JmapError)
        (slot : Option DestroySlot)
        → AreIds pending
        → Kept c
        → Within P IsKept (by_slot next chunk pending c e slot)
    by_slot-Within chunk pending c e (some slot) a k =
        after_chunk-Within (confirmed_by_slot chunk slot).error pending c
          (confirmed_by_slot chunk slot).ids a k
    by_slot-Within chunk pending c e none a k =
        if_intro (Within P IsKept) (has_type "serverPartialFail" e)
          (ask (reconcile_destroyed chunk) (after_reread next chunk pending c))
          (with_error c draft_cleanup_failed) (λ r _. after_reread-Within chunk pending c r a k) k

    after_destroy-Within :
        (chunk pending : List String) (c : SendCheckpoint) (r : Reply DestroyPayload)
        → AreIds pending
        → Kept c
        → Within P IsKept (after_destroy next chunk pending c r)
    after_destroy-Within chunk pending c (failed e) a k = k
    after_destroy-Within chunk pending c (got p) a k =
        by_slot-Within chunk pending c p.method_error p.slot a k

  destroy_loop-Within :
      (set_limit n : ℕ) (ids : List String) (c : SendCheckpoint)
      → AreIds ids
      → Kept c
      → Within P IsKept (destroy_loop set_limit n ids c)
  unfolding destroy_loop
  destroy_loop-Within set_limit zero ids c a k = tt
  destroy_loop-Within set_limit (suc n) [] c a k = k
  destroy_loop-Within set_limit (suc n) (x ∷ xs) c a k = λ r _.
      after_destroy-Within (destroy_loop set_limit n) (destroy_loop-Within set_limit n)
        (take set_limit (x ∷ xs)) (x ∷ xs) c r a k

  pub destroy_draft_emails-Within :
      (set_limit : ℕ) (ids : List String) (c : SendCheckpoint)
      → AreIds (to_set ids)
      → Kept c
      → Within P (λ r. Kept r.checkpoint) (destroy_draft_emails set_limit ids c)
  unfolding destroy_draft_emails
  destroy_draft_emails-Within set_limit ids c a k =
      destroy_loop-Within set_limit (suc (length (to_set ids))) (to_set ids) c a k

-- Where nothing is asked of the checkpoint.
pub destroy_draft_emails-writes :
    (P : SendCheckpoint → MutationPhase → Type 0) (h : (c : SendCheckpoint) → P c cache_pending)
    (set_limit : ℕ) (ids : List String) (c : SendCheckpoint)
    → Within P Done (destroy_draft_emails set_limit ids c)
destroy_draft_emails-writes P h set_limit ids c =
    destroy_draft_emails-Within P (λ _. Unit) (λ _. Unit) (λ c _. h c) (λ _ _ _. tt) (λ _ _ _ _. tt)
      set_limit ids c tt tt
