-- ===== src/Send/Program/World.antt =====
-- What the effects of a send do: to the row of the table, and on the server. A write may fail, and
-- then it may have been made all the same; the worker may die at every await. The record of an
-- acceptance is `SEND_ACCEPT_AND_QUEUE_TRUST` of src/db/handlers.ts.
use stormbox.Base.{
  ℕ, suc, Bool, true, false, not, ◌&&◌, [], ◌∷◌, Option, none, some, ◌==◌, string_eq, ◌≡◌, contains,
  has, if◌then◌else◌, All,
}
use stormbox.Outbox.Vocabulary.{MutationPhase, submitted, phase_eq}
use stormbox.Outbox.Errors.{JmapError, extract_method_error_by_id}
use stormbox.Send.Checkpoint.{SendCheckpoint, Stored, encode, post_submission_phases}
use stormbox.Send.Outcome.{SendOutcome}
use stormbox.Send.Program.{
  Reply, got, failed, SetSlot, SetPayload, EmailSubmission, Question, Answer, Send, pure, raise,
  finish, save, accept, submit, ask, truthy, fetch_submission_records,
}

-- `accepted` counts the submissions that the server accepted, `trust_queued` the mutations that
-- trust the recipients.
pub record World : Type 0 where
  pub phase : Option MutationPhase
  pub response : Stored
  pub attempts : ℕ
  pub accepted : ℕ
  pub trust_queued : ℕ

-- `saveCheckpoint`.
unfoldable pub saved : SendCheckpoint → MutationPhase → World → World
saved c p w = record w {
  phase = some p;
  response = encode c;
  attempts = if contains post_submission_phases p then 0 else w.attempts;
}

abbrev pub trusted : SendCheckpoint → SendCheckpoint
trusted c = record c { trusted_recipients_queued = true }

unfoldable pub accept_and_queue_trust : SendCheckpoint → Bool → World → World
accept_and_queue_trust c has_senders w = record w {
  phase = some submitted;
  response = encode (trusted c);
  attempts = 0;
  trust_queued =
      if not c.trusted_recipients_queued && has_senders then suc w.trust_queued else w.trust_queued;
}

abbrev pub submitted_to : Bool → World → World
submitted_to true w = record w { accepted = suc w.accepted }
submitted_to false w = w

-- An answer by which a server says that it submitted nothing (RFC 8620 §3.6.2): the call's own slot
-- without the object, or an error of the method that leaves the state as it was.
abbrev pub refused_slot : JmapError → Option SetSlot → Bool
refused_slot e (some slot) = elim (truthy slot.created) [ none ↦ true | some id ↦ false ]
refused_slot e none = not (has ("noResponse" ∷ "serverPartialFail" ∷ []) e.type)

abbrev pub refuses : Reply SetPayload → Bool
refuses (failed e) = false
refuses (got p) = refused_slot (extract_method_error_by_id p.responses "s1") p.slot

-- A server that refuses has not accepted.
abbrev pub IsHonest : Reply SetPayload → Bool → Type 0
IsHonest r accepted = refuses r ≡ true → accepted ≡ false

-- The id of a record is never empty (RFC 8620 §1.2).
abbrev pub IsLegal : (q : Question) → Reply (Answer q) → Type 0
IsLegal fetch_submission_records (got records) = All (λ r. (r.id == "") ≡ false) records
IsLegal _ _ = Unit

-- How a run ends; a worker may die instead.
pub data Ending (A : Type 0) : Type 0 where
  value : A → Ending A
  threw : JmapError → Ending A
  finished : SendOutcome → Ending A
  died : Ending A

-- `Exec m w e w'`: a run of `m` from `w` may end as `e` in `w'`.
pub data Exec {A : Type 0} : Send A → World → Ending A → World → Type 0 where
  dies : {m : Send A} {w : World} → Exec m w died w
  pures : {a : A} {w : World} → Exec (pure a) w (value a) w
  raises : {e : JmapError} {w : World} → Exec (raise e) w (threw e) w
  finishes : {o : SendOutcome} {w : World} → Exec (finish o) w (finished o) w
  saves :
      {c : SendCheckpoint} {p : MutationPhase} {k : Reply (Unit {0}) → Send A} {w w' : World}
      {e : Ending A}
      → Exec (k (got tt)) (saved c p w) e w'
      → Exec (save c p k) w e w'
  save_fails :
      {c : SendCheckpoint} {p : MutationPhase} {k : Reply (Unit {0}) → Send A} {w w' : World}
      {e : Ending A} (x : JmapError)
      → Exec (k (failed x)) w e w'
      → Exec (save c p k) w e w'
  save_fails_late :
      {c : SendCheckpoint} {p : MutationPhase} {k : Reply (Unit {0}) → Send A} {w w' : World}
      {e : Ending A} (x : JmapError)
      → Exec (k (failed x)) (saved c p w) e w'
      → Exec (save c p k) w e w'
  accepts :
      {c : SendCheckpoint} {s : Bool} {k : Reply SendCheckpoint → Send A} {w w' : World}
      {e : Ending A}
      → Exec (k (got (trusted c))) (accept_and_queue_trust c s w) e w'
      → Exec (accept c s k) w e w'
  accept_fails :
      {c : SendCheckpoint} {s : Bool} {k : Reply SendCheckpoint → Send A} {w w' : World}
      {e : Ending A} (x : JmapError)
      → Exec (k (failed x)) w e w'
      → Exec (accept c s k) w e w'
  accept_fails_late :
      {c : SendCheckpoint} {s : Bool} {k : Reply SendCheckpoint → Send A} {w w' : World}
      {e : Ending A} (x : JmapError)
      → Exec (k (failed x)) (accept_and_queue_trust c s w) e w'
      → Exec (accept c s k) w e w'
  submits :
      {s : EmailSubmission} {k : Reply SetPayload → Send A} {w w' : World} {e : Ending A}
      (r : Reply SetPayload) (a : Bool)
      → IsHonest r a
      → Exec (k r) (submitted_to a w) e w'
      → Exec (submit s k) w e w'
  asks :
      {q : Question} {k : Reply (Answer q) → Send A} {w w' : World} {e : Ending A}
      (r : Reply (Answer q))
      → IsLegal q r
      → Exec (k r) w e w'
      → Exec (ask q k) w e w'
