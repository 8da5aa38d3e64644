-- ===== src/Send/Once.antt =====
-- A message is submitted at most once: the invariant of the row and the server.
use stormbox.Base.{
  ◌≤◌, ◌≡◌, String, Bool, true, false, Option, none, some, refl, sym, ap, some_inj, arith, ◌∙◌,
  List,
}
use stormbox.Outbox.Vocabulary.{
  MutationPhase, queued, created, submitting, submitted, cache_pending, unknown,
}
use stormbox.Send.Checkpoint.{
  SendCheckpoint, Stored, encode, read_checkpoint, read_mutation_checkpoint, decode, valid_of,
  with_texts, text_of, value_of, pending_ids_of, ids_value, RawCheckpoint, json, raw_of,
}
use stormbox.Send.Program.{truthy}
use stormbox.Send.Program.World.{World, saved, accept_and_queue_trust, submitted_to}

-- The phases before the submission call, and those before the record of its acceptance.
abbrev pub is_early : Option MutationPhase → Bool
is_early none = true
is_early (some queued) = true
is_early (some created) = true
is_early _ = false

abbrev pub is_before : Option MutationPhase → Bool
is_before (some submitting) = true
is_before p = is_early p

abbrev pub IsUnsubmitted : SendCheckpoint → Type 0
IsUnsubmitted c = truthy c.submission_remote_id ≡ none

unfoldable pub IsUnrecorded : Stored → Type 0
IsUnrecorded s = (c : SendCheckpoint) → read_checkpoint s ≡ some c → IsUnsubmitted c

-- The row and the server between two attempts, or after a crash.
pub record IsSafe (w : World) : Type 0 where
  pub once : w.accepted ≤ 1
  pub trusted_once : w.trust_queued ≤ 1
  pub early : is_early w.phase ≡ true → w.accepted ≡ 0
  pub before : is_before w.phase ≡ true → (w.trust_queued ≡ 0) × IsUnrecorded w.response

-- Nothing has been submitted.
pub record IsFresh (w : World) : Type 0 where
  pub none_accepted : w.accepted ≡ 0
  pub none_trusted : w.trust_queued ≡ 0
  pub unrecorded : IsUnrecorded w.response

-- The submission may have been accepted, and its acceptance is not recorded.
pub record IsOpen (w : World) : Type 0 where
  pub once : w.accepted ≤ 1
  pub none_trusted : w.trust_queued ≡ 0
  pub not_early : is_early w.phase ≡ false
  pub before : is_before w.phase ≡ true → IsUnrecorded w.response

pub IsFresh-IsSafe : (w : World) → IsFresh w → IsSafe w
IsFresh-IsSafe w f = record {
  once = omega (arith, f.none_accepted);
  trusted_once = omega (arith, f.none_trusted);
  early = λ _. f.none_accepted;
  before = λ _. (f.none_trusted, f.unrecorded);
}

pub IsOpen-IsSafe : (w : World) → IsOpen w → IsSafe w
IsOpen-IsSafe w o = record {
  once = o.once;
  trusted_once = omega (arith, o.none_trusted);
  early = λ h. absurd (cc (h, o.not_early));
  before = λ h. (o.none_trusted, o.before h);
}

text_of-value_of_kept : (o : Option String) → text_of (value_of o) ≡ o
text_of-value_of_kept none = refl
text_of-value_of_kept (some x) = refl

-- What is read back names the submission that was written.
read_submission :
    (raw : RawCheckpoint) (op id : String) (p : Option (Option (List String))) (c : SendCheckpoint)
    → valid_of
        (read_mutation_checkpoint (λ _. with_texts raw (some op) (some id) p) (json (some raw)))
      ≡ some c
    → c.submission_remote_id ≡ text_of raw.submission_remote_id
unfolding read_mutation_checkpoint
read_submission raw op id none c h = absurd cc
read_submission raw op id (some q) c h = sym (ap (λ c. c.submission_remote_id) (some_inj _ _ h))

read_encoded :
    (c c' : SendCheckpoint)
    → read_checkpoint (encode c) ≡ some c'
    → c'.submission_remote_id ≡ c.submission_remote_id
unfolding read_checkpoint encode read_mutation_checkpoint decode
read_encoded c c' h =
    read_submission (raw_of c) c.operation_id c.message_id
      (pending_ids_of (ids_value c.pending_draft_destroy_ids)) c' h
    ∙ text_of-value_of_kept c.submission_remote_id

pub encode-IsUnrecorded : (c : SendCheckpoint) → IsUnsubmitted c → IsUnrecorded (encode c)
unfolding IsUnrecorded
encode-IsUnrecorded c h c' e = ap truthy (read_encoded c c' e) ∙ h

-- The phases from the record of the acceptance on.
abbrev pub is_late : MutationPhase → Bool
is_late submitted = true
is_late cache_pending = true
is_late unknown = true
is_late _ = false

is_late-not_before : (p : MutationPhase) → is_late p ≡ true → is_before (some p) ≡ false
is_late-not_before submitted h = refl
is_late-not_before cache_pending h = refl
is_late-not_before unknown h = refl
is_late-not_before _ h = absurd cc

is_late-not_early : (p : MutationPhase) → is_late p ≡ true → is_early (some p) ≡ false
is_late-not_early submitted h = refl
is_late-not_early cache_pending h = refl
is_late-not_early unknown h = refl
is_late-not_early _ h = absurd cc

pub saved-IsSafe :
    (c : SendCheckpoint) (p : MutationPhase) (w : World)
    → is_late p ≡ true
    → IsSafe w
    → IsSafe (saved c p w)
unfolding saved
saved-IsSafe c p w l s = record {
  once = s.once;
  trusted_once = s.trusted_once;
  early = λ h. absurd (cc (h, is_late-not_early p l));
  before = λ h. absurd (cc (h, is_late-not_before p l));
}

pub saved-IsOpen :
    (c : SendCheckpoint) (p : MutationPhase) (w : World)
    → is_late p ≡ true
    → IsOpen w
    → IsOpen (saved c p w)
unfolding saved
saved-IsOpen c p w l o = record {
  once = o.once;
  none_trusted = o.none_trusted;
  not_early = is_late-not_early p l;
  before = λ h. absurd (cc (h, is_late-not_before p l));
}

pub saved-IsFresh :
    (c : SendCheckpoint) (p : MutationPhase) (w : World)
    → IsUnsubmitted c
    → IsFresh w
    → IsFresh (saved c p w)
unfolding saved
saved-IsFresh c p w u f = record {
  none_accepted = f.none_accepted;
  none_trusted = f.none_trusted;
  unrecorded = encode-IsUnrecorded c u;
}

pub accept-IsSafe :
    (c : SendCheckpoint) (s : Bool) (w : World) → IsOpen w → IsSafe (accept_and_queue_trust c s w)
unfolding accept_and_queue_trust
accept-IsSafe c s w o = record {
  once = o.once;
  trusted_once = ground (arith, o.none_trusted);
  early = λ h. absurd cc;
  before = λ h. absurd cc;
}

-- A call made at the phase that says so leaves the row open, or fresh if nothing was accepted.
pub submitted-IsOpen :
    (a : Bool) (w : World) → IsFresh w → w.phase ≡ some submitting → IsOpen (submitted_to a w)
submitted-IsOpen true w f h = record {
  once = omega (arith, f.none_accepted);
  none_trusted = f.none_trusted;
  not_early = ap is_early h;
  before = λ _. f.unrecorded;
}
submitted-IsOpen false w f h = record {
  once = omega (arith, f.none_accepted);
  none_trusted = f.none_trusted;
  not_early = ap is_early h;
  before = λ _. f.unrecorded;
}
