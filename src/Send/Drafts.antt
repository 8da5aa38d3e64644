-- ===== src/Send/Drafts.antt =====
-- src/sync/backends/jmap/outbox/draft-apply.ts: the loop that removes the drafts of a sent message.
-- The checkpoint that the source's callback updates is the state of the loop. A throw is the ending
-- `threw` beside that checkpoint, since the caller's `catch` reads both.
pub mod Laws
pub mod Shrinks
pub mod Ends
pub mod Gives
use stormbox.Base.{
  ℕ, zero, suc, String, Bool, true, false, not, ◌&&◌, ◌||◌, List, [], ◌∷◌, Option, none, some, ◌==◌,
  string_eq, contains, if◌then◌else◌, filter, delete_where, take, length,
}
use stormbox.Outbox.Vocabulary.{cache_pending}
use stormbox.Outbox.Errors.{JmapError, MethodResponse, extract_method_error_by_id, typed_error}
use stormbox.Send.Checkpoint.{SendCheckpoint, to_set}
use stormbox.Send.Program.{
  Reply, got, failed, Reread, DestroySlot, DestroyPayload, Send, pure, raise, save, ask,
  destroy_drafts, reconcile_destroyed, drop_drafts,
}

-- How the removal ends: `ok`, `ok: false` with an error, or a throw of one of its calls.
pub data Removal : Type 0 where
  removed : Removal
  not_removed threw : JmapError → Removal

-- The checkpoint at the end, and how it came to it.
pub record Cleanup : Type 0 where
  pub checkpoint : SendCheckpoint
  pub ending : Removal

-- The error that the caller's `catch` gets: what was thrown, or what the caller throws itself where
-- the removal is not `ok`.
abbrev pub caught : Removal → Option JmapError
caught removed = none
caught (not_removed e) = some e
caught (threw e) = some e

-- What an answer confirms of a chunk, and the error that ends the loop after it.
pub record Confirmed : Type 0 where
  pub ids : List String
  pub error : Option JmapError

abbrev pub draft_cleanup_failed : JmapError
draft_cleanup_failed = typed_error "draftCleanupFailed"

abbrev has_type : String → JmapError → Bool
has_type t e = elim e.type [ none ↦ false | some u ↦ u == t ]

-- The error of a chunk of which these drafts are not confirmed.
abbrev pub unless_all : List String → Option JmapError → Option JmapError
unless_all [] error = error
unless_all (_ ∷ _) error = some draft_cleanup_failed

abbrev pub is_gone : DestroySlot → String → Bool
is_gone slot id = contains slot.destroyed id || contains slot.not_found id

pub confirmed_by_slot : List String → DestroySlot → Confirmed
confirmed_by_slot chunk slot = record {
  ids = filter (is_gone slot) chunk;
  error = unless_all (delete_where (is_gone slot) chunk) none;
}

pub confirmed_by_reread : List String → Reread → Confirmed
confirmed_by_reread chunk r = record {
  ids = filter (contains r.not_found) chunk;
  error =
      unless_all (delete_where (contains r.not_found) chunk)
        (if r.conclusive then none else some draft_cleanup_failed);
}

abbrev pub remaining : List String → List String → List String
remaining confirmed = delete_where (contains confirmed)

abbrev pub with_pending : List String → SendCheckpoint → SendCheckpoint
with_pending ids c = record c { pending_draft_destroy_ids = some ids }

abbrev with_error : SendCheckpoint → JmapError → Send Cleanup
with_error c e = pure (record { checkpoint = c; ending = not_removed e })

abbrev throws : SendCheckpoint → JmapError → Send Cleanup
throws c e = pure (record { checkpoint = c; ending = threw e })

abbrev Next : Type 0
Next = List String → SendCheckpoint → Send Cleanup

abbrev continue : Next → Option JmapError → List String → SendCheckpoint → Send Cleanup
continue next none pending c = next pending c
continue next (some e) pending c = with_error c e

abbrev after_save :
    Next → Option JmapError → List String → SendCheckpoint → Reply (Unit {0}) → Send Cleanup
after_save next error pending c (failed e) = throws c e
after_save next error pending c (got _) = continue next error pending c

abbrev after_drop :
    Next
    → Option JmapError
    → List String
    → SendCheckpoint
    → SendCheckpoint
    → Reply (Unit {0})
    → Send Cleanup
after_drop next error pending c c' (failed e) = throws c e
after_drop next error pending c c' (got _) =
    save c' cache_pending (after_save next error pending c')

-- The rest of a round, once the chunk's answer has been read.
abbrev pub after_chunk :
    Next → Option JmapError → List String → SendCheckpoint → List String → Send Cleanup
after_chunk next error pending c [] = continue next error pending c
after_chunk next error pending c (x ∷ xs) =
    let rest = remaining (x ∷ xs) pending in
    ask (drop_drafts (x ∷ xs)) (after_drop next error rest c (with_pending rest c))

abbrev use_confirmed : Next → List String → SendCheckpoint → Confirmed → Send Cleanup
use_confirmed next pending c r = after_chunk next r.error pending c r.ids

abbrev after_reread :
    Next → List String → List String → SendCheckpoint → Reply Reread → Send Cleanup
after_reread next chunk pending c (failed e) = throws c e
after_reread next chunk pending c (got r) =
    use_confirmed next pending c (confirmed_by_reread chunk r)

abbrev by_slot :
    Next
    → List String
    → List String
    → SendCheckpoint
    → JmapError
    → Option DestroySlot
    → Send Cleanup
by_slot next chunk pending c method_error (some slot) =
    use_confirmed next pending c (confirmed_by_slot chunk slot)
by_slot next chunk pending c method_error none =
    if has_type "serverPartialFail" method_error
    then ask (reconcile_destroyed chunk) (after_reread next chunk pending c)
    else with_error c draft_cleanup_failed

abbrev after_destroy :
    Next → List String → List String → SendCheckpoint → Reply DestroyPayload → Send Cleanup
after_destroy next chunk pending c (failed e) = throws c e
after_destroy next chunk pending c (got p) = by_slot next chunk pending c p.method_error p.slot

-- The only `raise` is that of spent fuel.
-- `set_limit` is the server's `maxObjectsInSet`. The fuel is more than the drafts that are left.
pub destroy_loop : ℕ → ℕ → Next
unfolding confirmed_by_slot confirmed_by_reread
destroy_loop set_limit zero pending c = raise (typed_error "outOfFuel")
destroy_loop set_limit (suc n) [] c = pure (record { checkpoint = c; ending = removed })
destroy_loop set_limit (suc n) (x ∷ xs) c =
    let chunk = take set_limit (x ∷ xs) in
    ask (destroy_drafts chunk) (after_destroy (destroy_loop set_limit n) chunk (x ∷ xs) c)

pub destroy_draft_emails : ℕ → List String → SendCheckpoint → Send Cleanup
unfolding destroy_loop
destroy_draft_emails set_limit remote_ids c =
    let pending = to_set remote_ids in destroy_loop set_limit (suc (length pending)) pending c
