-- ===== src/Send/Drafts/Ends.antt =====
-- The loop that removes drafts ends: each round that is not the last removes one draft or more.
use stormbox.Base.{
  refl, ℕ, zero, suc, ◌≤◌, ◌<◌, String, List, [], ◌∷◌, Option, none, some, ◌≡◌, if_intro, take,
  length, contains, string_eq, arith, beq_refl,
}
use stormbox.Outbox.Errors.{JmapError}
use stormbox.Send.Checkpoint.{SendCheckpoint, to_set}
use stormbox.Send.Program.{
  Reply, got, failed, DestroySlot, Answer, Send, pure, raise, finish, save, accept, submit, ask,
  reconcile_destroyed,
}
use stormbox.Send.Program.Returns.{Returns}
use stormbox.Send.Drafts.{
  Next, with_error, continue, after_chunk, after_reread, by_slot, remaining, destroy_loop,
  destroy_draft_emails, confirmed_by_slot, confirmed_by_reread, has_type, draft_cleanup_failed,
  is_gone, Cleanup, Removal, removed, not_removed, threw, with_pending,
}
use stormbox.Send.Drafts.Shrinks.{
  Shrinks, delete_where-lt, Pending, confirmed-Shrinks, take-Pending,
}

by_reply :
    {A : Type 0} (P : Reply A → Type 0)
    → ((a : A) → P (got a))
    → ((e : JmapError) → P (failed e))
    → (r : Reply A) → P r
by_reply P f g (got a) = f a
by_reply P f g (failed e) = g e

-- The throw of a call is the removal's own, at once.
abbrev IsThrow : JmapError → Send Cleanup → Type 0
IsThrow e (pure r) = r.ending ≡ threw e
IsThrow e _ = ⊥

-- `Holds ids c`: the checkpoint names the drafts that are pending.
module _ (Holds : List String → SendCheckpoint → Type 0)
    (updates : (ids : List String) (c : SendCheckpoint) → Holds ids (with_pending ids c)) where
  abbrev pub Ended : SendCheckpoint → Removal → Type 0
  Ended c removed = Holds [] c
  Ended c (not_removed e) = Unit
  Ended c (threw e) = ⊥

  -- The program comes to an end. It throws what a call throws and nothing else, and reports success
  -- only with a checkpoint that names no draft.
  abbrev pub Removes : Send Cleanup → Type 0
  Removes (pure r) = Ended r.checkpoint r.ending
  Removes (raise e) = ⊥
  Removes (finish o) = ⊥
  Removes (save c p k) = Removes (k (got tt)) × ((e : JmapError) → IsThrow e (k (failed e)))
  Removes (accept c s k) = ⊥
  Removes (submit s k) = ⊥
  Removes (ask q k) =
      ((a : Answer q) → Removes (k (got a))) × ((e : JmapError) → IsThrow e (k (failed e)))

  IsThrow-Returns : (e : JmapError) (m : Send Cleanup) → IsThrow e m → Returns m
  IsThrow-Returns e (pure r) h = tt
  IsThrow-Returns e (raise x) h = h
  IsThrow-Returns e (finish o) h = h
  IsThrow-Returns e (save c p k) h = absurd h
  IsThrow-Returns e (accept c s k) h = absurd h
  IsThrow-Returns e (submit s k) h = absurd h
  IsThrow-Returns e (ask q k) h = absurd h

  Removes-Returns : (m : Send Cleanup) → Removes m → Returns m
  Removes-Returns (pure r) h = tt
  Removes-Returns (raise x) h = h
  Removes-Returns (finish o) h = h
  Removes-Returns (save c p k) h =
      by_reply (λ r. Returns (k r)) (λ _. Removes-Returns (k (got tt)) h.0)
        (λ e. IsThrow-Returns e (k (failed e)) (h.1 e))
  Removes-Returns (accept c s k) h = absurd h
  Removes-Returns (submit s k) h = absurd h
  Removes-Returns (ask q k) h =
      by_reply (λ r. Returns (k r)) (λ a. Removes-Returns (k (got a)) (h.0 a))
        (λ e. IsThrow-Returns e (k (failed e)) (h.1 e))

  module _ (next : Next) (pending : List String)
      (shorter : (ids : List String) (c : SendCheckpoint)
        → length ids < length pending
        → Holds ids c
        → Removes (next ids c)) where
    continue-Removes :
        (error : Option JmapError) (ids : List String) (c : SendCheckpoint)
        → length ids < length pending
        → Holds ids c
        → Removes (continue next error ids c)
    continue-Removes none ids c h k = shorter ids c h k
    continue-Removes (some e) ids c h k = tt

    after_chunk-Removes :
        (error : Option JmapError) (c : SendCheckpoint) (confirmed : List String)
        → Shrinks pending confirmed error
        → Removes (after_chunk next error pending c confirmed)
    unfolding Shrinks
    after_chunk-Removes none c [] s = absurd s
    after_chunk-Removes (some e) c [] s = tt
    after_chunk-Removes error c (x ∷ xs) s =
        let rest : List String = remaining (x ∷ xs) pending in
        (
          λ a. (
            continue-Removes error rest (with_pending rest c)
                (delete_where-lt (contains (x ∷ xs)) pending x s (ground (arith, beq_refl x)))
                (updates rest c),
            λ e. refl,
          ),
          λ e. refl,
        )

    by_slot-Removes :
        (y : String) (ys : List String) (c : SendCheckpoint) (e : JmapError)
        (slot : Option DestroySlot)
        → Pending pending (y ∷ ys)
        → Removes (by_slot next (y ∷ ys) pending c e slot)
    unfolding confirmed_by_slot confirmed_by_reread
    by_slot-Removes y ys c e (some slot) h =
        after_chunk-Removes _ c _ (confirmed-Shrinks pending (is_gone slot) none y ys h)
    by_slot-Removes y ys c e none h =
        if_intro Removes (has_type "serverPartialFail" e)
          (ask (reconcile_destroyed (y ∷ ys)) (after_reread next (y ∷ ys) pending c))
          (with_error c draft_cleanup_failed)
          (
            λ r.
                after_chunk-Removes _ c _
                  (confirmed-Shrinks pending (contains r.not_found) _ y ys h),
            λ x. refl,
          )
          tt

module _ (Holds : List String → SendCheckpoint → Type 0)
    (updates : (ids : List String) (c : SendCheckpoint) → Holds ids (with_pending ids c)) where
  destroy_loop-Removes :
      (limit n : ℕ) (ids : List String) (c : SendCheckpoint)
      → length ids < n
      → Holds ids c
      → Removes Holds updates (destroy_loop (suc limit) n ids c)
  unfolding destroy_loop Pending
  destroy_loop-Removes limit zero ids c h k = absurd (omega arith)
  destroy_loop-Removes limit (suc n) [] c h k = k
  destroy_loop-Removes limit (suc n) (x ∷ xs) c h k = (
    λ p.
        by_slot-Removes Holds updates (destroy_loop (suc limit) n) (x ∷ xs)
          (λ ids c' lt. destroy_loop-Removes limit n ids c' (omega (arith, h, lt))) x
          (take limit xs) c p.method_error p.slot (take-Pending (suc limit) (x ∷ xs)),
    λ e. refl,
  )

-- Whatever its calls answer, the removal ends.
pub destroy_draft_emails-Returns :
    (limit : ℕ) (ids : List String) (c : SendCheckpoint)
    → 1 ≤ limit
    → Returns (destroy_draft_emails limit ids c)
unfolding destroy_draft_emails
destroy_draft_emails-Returns zero ids c h = absurd (omega arith)
destroy_draft_emails-Returns (suc limit) ids c h =
    Removes-Returns (λ _ _. Unit) (λ _ _. tt) _
      (destroy_loop-Removes (λ _ _. Unit) (λ _ _. tt) limit (suc (length (to_set ids))) (to_set ids)
        c (omega arith) tt)

abbrev pub Names : List String → SendCheckpoint → Type 0
Names ids c = c.pending_draft_destroy_ids ≡ some ids

pub with_pending-Names : (ids : List String) (c : SendCheckpoint) → Names ids (with_pending ids c)
with_pending-Names ids c = refl

-- With a limit of one object or more, and a checkpoint that names the drafts to be removed, each
-- once, the removal comes to an end whatever its calls answer. It throws if one of its calls throws,
-- at once and the same error, and never otherwise; and it reports success only when the checkpoint
-- names no draft any more.
pub destroy_draft_emails-Removes :
    (limit : ℕ) (ids : List String) (c : SendCheckpoint)
    → 1 ≤ limit
    → c.pending_draft_destroy_ids ≡ some (to_set ids)
    → Removes Names with_pending-Names (destroy_draft_emails limit ids c)
unfolding destroy_draft_emails
destroy_draft_emails-Removes zero ids c h k = absurd (omega arith)
destroy_draft_emails-Removes (suc limit) ids c h k =
    destroy_loop-Removes Names with_pending-Names limit (suc (length (to_set ids))) (to_set ids) c
      (omega arith) k
