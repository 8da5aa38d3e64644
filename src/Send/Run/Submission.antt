-- ===== src/Send/Run/Submission.antt =====
-- The submission of a row and the record of its acceptance keep the row safe.
use stormbox.Base.{
  ℕ, String, Bool, true, false, List, Option, none, some, ◌≡◌, refl, sym, subst, if_split,
}
use stormbox.Outbox.Vocabulary.{MutationPhase, submitting, submitted}
use stormbox.Outbox.Errors.{submission_error, ErrorDetail, JmapError, extract_method_error_by_id}
use stormbox.Send.Checkpoint.{SendCheckpoint}
use stormbox.Send.Program.{Reply, got, failed, Identity, SetSlot, SetPayload, Send, ◌>>=◌, truthy}
use stormbox.Send.Program.World.{
  World, saved, accept_and_queue_trust, submitted_to, IsHonest, refused_slot,
}
use stormbox.Send.Program.Rules.{Ensures, Ensures-bind, Ensures-weaken}
use stormbox.Send.Program.Within.{Within, Within-Ensures, Done}
use stormbox.Send.Reconcile.{
  SubmissionEvidence, proof_of_submission, no_evidence, find_submission_evidence,
}
use stormbox.Send.Reconcile.Laws.{find_submission_evidence-Within, IsProof}
use stormbox.Send.Once.{
  is_late, IsUnsubmitted, IsSafe, IsFresh, IsOpen, IsFresh-IsSafe, IsOpen-IsSafe, saved-IsSafe,
  saved-IsOpen, saved-IsFresh, accept-IsSafe, submitted-IsOpen,
}
use stormbox.Send.Run.Filing.{
  Environment, SendRow, SendRequest, park_unknown, record_accepted_submission, write_acceptance,
  has_trusted_recipients,
}
use stormbox.Send.Run.Filing.Laws.{park_unknown-Within}
use stormbox.Send.Run.Early.{Early, rewind-Within, hold_for-Within}
use stormbox.Send.Run.{
  rewind_definitive_submission_rejection, save_checkpoint, evidence_folder, recorded,
  accept_or_return, proof_or_park, ask_for_proof, rejected_submission, submitted_or_return,
  submitted_slot, settle_submission, is_definitive, hold_for, submit_held, submit_new,
}

abbrev pub Late : SendCheckpoint → MutationPhase → Type 0
Late c p = is_late p ≡ true

abbrev pub Anything : {A : Type 0} → A → World → Type 0
Anything a w = Unit

-- The row is safe at every await, and `Q` holds at the end.
abbrev pub Safely : {A : Type 0} → (A → World → Type 0) → Send A → World → Type 0
Safely = Ensures (λ w. IsSafe w) Anything Anything

pub freshly :
    {A : Type 0} (R : A → Type 0) (m : Send A) (w : World)
    → Within Early R m
    → IsFresh w
    → Safely (λ a w'. R a × IsFresh w') m w
freshly R =
    Within-Ensures Early (λ w. IsSafe w) Anything Anything (λ w. IsFresh w) IsFresh-IsSafe
      (λ _ _ _. tt) (λ _ _ _. tt) saved-IsFresh R

pub openly :
    {A : Type 0} (R : A → Type 0) (m : Send A) (w : World)
    → Within Late R m
    → IsOpen w
    → Safely (λ a w'. R a × IsOpen w') m w
openly R =
    Within-Ensures Late (λ w. IsSafe w) Anything Anything (λ w. IsOpen w) IsOpen-IsSafe
      (λ _ _ _. tt) (λ _ _ _. tt) saved-IsOpen R

pub safely :
    {A : Type 0} (R : A → Type 0) (m : Send A) (w : World)
    → Within Late R m
    → IsSafe w
    → Safely (λ a w'. R a × IsSafe w') m w
safely R =
    Within-Ensures Late (λ w. IsSafe w) Anything Anything (λ w. IsSafe w) (λ _ s. s) (λ _ _ _. tt)
      (λ _ _ _. tt) saved-IsSafe R

module _ (env : Environment) (row : SendRow) (req : SendRequest) where
  -- What the record of an acceptance gives back: the checkpoint with the submission.
  unfoldable pub IsRecorded : SendCheckpoint → String → SendCheckpoint → Type 0
  IsRecorded c id c' =
      (c'.submission_remote_id ≡ some id) × (c'.email_remote_id ≡ c.email_remote_id)

  IsRecord : SendCheckpoint → String → Reply SendCheckpoint → Type 0
  IsRecord c id (got c') = IsRecorded c id c'
  IsRecord c id (failed e) = Unit

  write_acceptance-Safely :
      (c : SendCheckpoint) (id : String) (account : Option ℕ) (w : World)
      → IsOpen w
      → Safely
          (λ r w'. IsRecord c id r × IsSafe w')
          (write_acceptance env row req (record c { submission_remote_id = some id }) account)
          w
  unfolding IsRecord IsRecorded
  write_acceptance-Safely c id none w o =
      let s : IsSafe w = IsOpen-IsSafe w o in
      let s' : IsSafe (saved (record c { submission_remote_id = some id }) submitted w) =
        saved-IsSafe _ submitted w refl s in
      (s, ((s', ((refl, refl), s')), λ e. ((s, (tt, s)), (s', (tt, s')))))
  write_acceptance-Safely c id (some account) w o =
      let s : IsSafe w = IsOpen-IsSafe w o in
      let c' : SendCheckpoint = record c { submission_remote_id = some id } in
      let t : Bool = has_trusted_recipients env row req in
      let s' : IsSafe (accept_and_queue_trust c' t w) = accept-IsSafe c' t w o in
      (s, ((s', ((refl, refl), s')), λ e. ((s, (tt, s)), (s', (tt, s')))))

  pub accept_or_return-Safely :
      (c : SendCheckpoint) (id : String) (w : World)
      → IsOpen w
      → Safely (λ c' w'. IsRecorded c id c' × IsSafe w') (accept_or_return env row req c id) w
  unfolding accept_or_return record_accepted_submission IsRecord
  accept_or_return-Safely c id w o =
      Ensures-bind (λ w. IsSafe w) Anything Anything (λ r w'. IsRecord c id r × IsSafe w') _
        (record_accepted_submission env row req c id) (recorded env row req c id) w
        (write_acceptance-Safely c id row.account_id w o) continue
    where
      continue :
          (r : Reply SendCheckpoint) (w' : World)
          → IsSafe w'
          → IsRecord c id r × IsSafe w'
          → Safely (λ c' w'. IsRecorded c id c' × IsSafe w') (recorded env row req c id r) w'
      continue (got c') w' s h = (s, h)
      continue (failed e) w' s h = (s, tt)

  -- Asking for a proof, with a row that may have been submitted.
  ask_for_proof-Safely :
      (sent : Option String) (c : SendCheckpoint) (reason : Option String) (w : World)
      → IsOpen w
      → Safely (λ id w'. IsOpen w') (ask_for_proof env row req sent c reason) w
  ask_for_proof-Safely sent c reason w o =
      Ensures-bind (λ w. IsSafe w) Anything Anything
        (λ e w'. IsProof c.email_remote_id e × IsOpen w') _
        (find_submission_evidence c.email_remote_id (evidence_folder env row req sent))
        (proof_or_park env row req c reason) w
        (openly (IsProof c.email_remote_id) _ w
          (find_submission_evidence-Within Late c.email_remote_id _) o)
        continue
    where
      continue :
          (e : SubmissionEvidence) (w' : World)
          → IsSafe w'
          → IsProof c.email_remote_id e × IsOpen w'
          → Safely (λ id w'. IsOpen w') (proof_or_park env row req c reason e) w'
      continue (proof_of_submission id) w' s h = (s, h.1)
      continue no_evidence w' s h =
          Ensures-bind (λ w. IsSafe w) Anything Anything (λ _ w'. Done tt × IsOpen w') _
            (park_unknown c) _ w'
            (openly Done (park_unknown c) w' (park_unknown-Within Late (λ _. refl) c) h.1)
            (λ _ w'' s' _. (s', tt))

  rejected_submission-Safely :
      (c : SendCheckpoint) (e : JmapError) (retryable : Bool) (w : World)
      → IsUnsubmitted c
      → IsFresh w
      → Safely (λ id w'. IsOpen w') (rejected_submission env row req c e retryable) w
  rejected_submission-Safely c e retryable w u f =
      Ensures-bind (λ w. IsSafe w) Anything Anything (λ _ w'. Done tt × IsFresh w') _
        (rewind_definitive_submission_rejection c e.terminal) _ w
        (freshly Done _ w (rewind-Within c e.terminal u) f) (λ _ w' s _. (s, tt))

  -- After a refusal nothing was accepted.
  after_refusal :
      (m : Send String) (a : Bool) (w : World)
      → a ≡ false
      → Safely (λ id w'. IsOpen w') m w
      → Safely (λ id w'. IsOpen w') m (submitted_to a w)
  after_refusal m a w h = subst (λ b. Safely (λ id w'. IsOpen w') m (submitted_to b w)) (sym h)

  submitted_or_return-Safely :
      (c : SendCheckpoint) (id : Option String) (d : Option ErrorDetail) (a : Bool) (w : World)
      → IsUnsubmitted c
      → (id ≡ none → a ≡ false)
      → IsFresh w
      → w.phase ≡ some submitting
      → Safely (λ id w'. IsOpen w') (submitted_or_return env row req c id d) (submitted_to a w)
  submitted_or_return-Safely c (some id) d a w u honest f p =
      let o : IsOpen (submitted_to a w) = submitted-IsOpen a w f p in
      (IsOpen-IsSafe (submitted_to a w) o, o)
  submitted_or_return-Safely c none d a w u honest f p =
      after_refusal (submitted_or_return env row req c none d) a w (honest refl)
        (rejected_submission-Safely c (submission_error "notSubmitted" d) _ w u f)

  submitted_slot-Safely :
      (sent : Option String) (c : SendCheckpoint) (e : JmapError) (slot : Option SetSlot) (a : Bool)
      (w : World)
      → IsUnsubmitted c
      → (refused_slot e slot ≡ true → a ≡ false)
      → IsFresh w
      → w.phase ≡ some submitting
      → Safely (λ id w'. IsOpen w') (submitted_slot env row req sent c e slot) (submitted_to a w)
  submitted_slot-Safely sent c e (some slot) a w u honest f p =
      submitted_or_return-Safely c (truthy slot.created) slot.not_created a w u
        (λ h. honest (refuses_nothing h)) f p
    where
      refuses_nothing : truthy slot.created ≡ none → refused_slot e (some slot) ≡ true
      refuses_nothing h = rw (h, refused_slot) refl
  submitted_slot-Safely sent c e none a w u honest f p =
      if_split (λ m. Safely (λ id w'. IsOpen w') m (submitted_to a w)) (is_definitive env row req e)
        _ _ (λ h. after_refusal _ a w (honest h) (rejected_submission-Safely c e _ w u f))
        (λ h. ask_for_proof-Safely sent c e.type (submitted_to a w) (submitted-IsOpen a w f p))

  settle_submission-Safely :
      (sent : Option String) (c : SendCheckpoint) (r : Reply SetPayload) (a : Bool) (w : World)
      → IsUnsubmitted c
      → IsHonest r a
      → IsFresh w
      → w.phase ≡ some submitting
      → Safely (λ id w'. IsOpen w') (settle_submission env row req sent c r) (submitted_to a w)
  unfolding settle_submission
  settle_submission-Safely sent c (failed e) a w u honest f p =
      ask_for_proof-Safely sent c _ (submitted_to a w) (submitted-IsOpen a w f p)
  settle_submission-Safely sent c (got r) a w u honest f p =
      submitted_slot-Safely sent c (extract_method_error_by_id r.responses "s1") r.slot a w u honest
        f p

  submit_held-Safely :
      (identity : Identity) (rcpt_to : List String) (sent : Option String) (c : SendCheckpoint)
      (hold : Option ℕ) (w : World)
      → IsUnsubmitted c
      → IsFresh w
      → Safely (λ c' w'. IsSafe w') (submit_held env row req identity rcpt_to sent c hold) w
  unfolding submit_held save_checkpoint ◌>>=◌ saved
  submit_held-Safely identity rcpt_to sent c hold w u f =
      let f' : IsFresh (saved c submitting w) = saved-IsFresh c submitting w u f in
      let s' : IsSafe (saved c submitting w) = IsFresh-IsSafe _ f' in
      let s : IsSafe w = IsFresh-IsSafe w f in
      (
        s,
        (
          (
            s',
            λ r a honest.
                Ensures-bind (λ w. IsSafe w) Anything Anything (λ _ w''. IsOpen w'') _
                  (settle_submission env row req sent c r) (accept_or_return env row req c)
                  (submitted_to a (saved c submitting w))
                  (settle_submission-Safely sent c r a (saved c submitting w) u honest f' refl)
                  (λ id w'' _ o.
                    Ensures-weaken (λ w. IsSafe w) Anything Anything
                      (λ c' w'. IsRecorded c id c' × IsSafe w') (λ _ w'. IsSafe w')
                      (accept_or_return env row req c id) w'' (λ _ _ h. h.1)
                      (accept_or_return-Safely c id w'' o)),
          ),
          λ e. ((s, tt), (s', tt)),
        ),
      )

  pub submit_new-Safely :
      (identity : Identity) (rcpt_to : List String) (sent : Option String) (c : SendCheckpoint)
      (w : World)
      → IsUnsubmitted c
      → IsFresh w
      → Safely (λ c' w'. IsSafe w') (submit_new env row req identity rcpt_to sent c) w
  unfolding submit_new
  submit_new-Safely identity rcpt_to sent c w u f =
      Ensures-bind (λ w. IsSafe w) Anything Anything (λ _ w'. Done tt × IsFresh w') _
        (hold_for env row req c req.scheduled_at) _ w
        (freshly Done _ w (hold_for-Within env row req c req.scheduled_at u) f)
        (λ hold w' _ h. submit_held-Safely identity rcpt_to sent c hold w' u h.1)
