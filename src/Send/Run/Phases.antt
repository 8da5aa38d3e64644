-- ===== src/Send/Run/Phases.antt =====
-- The three phases of a send keep the row safe.
use stormbox.Base.{
  String, Bool, true, false, not, ◌&&◌, List, Option, some, ◌≡◌, refl, ap, if_intro, if_split,
  or_default, ◌∙◌, string_eq,
}
use stormbox.Outbox.Vocabulary.{MutationPhase, submitting, phase_eq}
use stormbox.Send.Checkpoint.{SendCheckpoint}
use stormbox.Send.Program.{Identity, pure, truthy}
use stormbox.Send.Program.World.{World}
use stormbox.Send.Program.Rules.{Ensures-bind, Ensures-weaken}
use stormbox.Send.Program.Within.{Done}
use stormbox.Send.Reconcile.{
  SubmissionEvidence, proof_of_submission, no_evidence, find_submission_evidence,
}
use stormbox.Send.Reconcile.Laws.{find_submission_evidence-Within, IsProof}
use stormbox.Send.Once.{IsUnsubmitted, IsSafe, IsFresh, IsOpen, IsFresh-IsSafe}
use stormbox.Send.Run.Filing.{
  Environment, SendRow, SendRequest, is_some, park_unknown, reconcile_sent_locally, folder_at,
}
use stormbox.Send.Run.Filing.Laws.{park_unknown-Within, reconcile_sent_locally-Within}
use stormbox.Send.Run.Early.{create_phase-Within}
use stormbox.Send.Run.Submission.{
  Late, Anything, Safely, freshly, openly, safely, IsRecorded, accept_or_return-Safely,
  submit_new-Safely,
}
use stormbox.Send.Run.{
  evidence_folder, is_submitting, settle_submitting, settle_evidence, accept_or_return,
  submit_phase, send_rest,
}

abbrev pub Fine : {A : Type 0} → A → World → Type 0
Fine a w = Unit × IsSafe w

-- The submission and the Email that it is of are named.
pub record IsSubmitted (c : SendCheckpoint) : Type 0 where
  pub has_submission : is_some (truthy c.submission_remote_id) ≡ true
  pub has_email : is_some (truthy c.email_remote_id) ≡ true

not_both : (a b : Bool) → a && b ≡ true → a ≡ false → ⊥
not_both true b h k = cc
not_both false b h k = cc

module _ (env : Environment) (row : SendRow) (req : SendRequest) where
  pub file-Safely :
      (sent : Option String) (c : SendCheckpoint) (w : World)
      → IsSafe w
      → Safely Fine (reconcile_sent_locally env req sent c) w
  file-Safely sent c w s =
      safely Done _ w (reconcile_sent_locally-Within Late (λ _. refl) (λ _. refl) env req sent c) s

  not_submitting-Safely :
      (phase : Option MutationPhase) (sent : Option String) (c : SendCheckpoint) (w : World)
      → is_submitting phase ≡ false
      → IsUnsubmitted c
      → IsFresh w
      → Safely
          (λ c' w'. IsUnsubmitted c' × IsFresh w')
          (settle_submitting env row req phase sent c)
          w
  unfolding settle_submitting
  not_submitting-Safely phase sent c w p u f =
      if_split (λ m. Safely (λ c' w'. IsUnsubmitted c' × IsFresh w') m w)
        (is_submitting phase && not (is_some (truthy c.submission_remote_id))) _ (pure c)
        (λ h. absurd (not_both (is_submitting phase) _ h p)) (λ _. (IsFresh-IsSafe w f, (u, f)))

  submit_phase-Safely :
      (identity : Identity) (rcpt_to : List String) (sent : Option String) (c : SendCheckpoint)
      (w : World)
      → IsUnsubmitted c
      → IsFresh w
      → Safely (λ _ w'. IsSafe w') (submit_phase env row req identity rcpt_to sent c) w
  submit_phase-Safely identity rcpt_to sent c w u f =
      if_intro (λ m. Safely (λ _ w'. IsSafe w') m w) (is_some (truthy c.submission_remote_id))
        (pure c) _ (IsFresh-IsSafe w f, IsFresh-IsSafe w f)
        (submit_new-Safely env row req identity rcpt_to sent c w u f)

  -- The rest of a send once its checkpoint names no submission and nothing was submitted.
  pub send_fresh-Safely :
      (identity : Identity) (rcpt_to : List String) (phase : Option MutationPhase)
      (folders : List (Option String)) (c : SendCheckpoint) (w : World)
      → is_submitting phase ≡ false
      → IsUnsubmitted c
      → IsFresh w
      → Safely Fine (send_rest env row req identity rcpt_to phase folders c) w
  unfolding send_rest
  send_fresh-Safely identity rcpt_to phase folders c w p u f =
      Ensures-bind (λ w. IsSafe w) Anything Anything (λ c' w'. IsUnsubmitted c' × IsFresh w') _ _ _
        w (not_submitting-Safely phase (folder_at 1 folders) c w p u f)
        (λ c1 w1 _ h1.
          Ensures-bind (λ w. IsSafe w) Anything Anything (λ c' w'. IsUnsubmitted c' × IsFresh w') _
            _ _ w1
            (freshly IsUnsubmitted _ w1 (create_phase-Within env row req phase _ _ c1 h1.0) h1.1)
            (λ c2 w2 _ h2.
              Ensures-bind (λ w. IsSafe w) Anything Anything (λ _ w'. IsSafe w') _ _ _ w2
                (submit_phase-Safely identity rcpt_to (folder_at 1 folders) c2 w2 h2.0 h2.1)
                (λ c3 w3 s _. file-Safely (folder_at 1 folders) c3 w3 s)))

  settle_evidence-Safely :
      (c : SendCheckpoint) (e : SubmissionEvidence) (w : World)
      → IsProof c.email_remote_id e
      → IsOpen w
      → IsSafe w
      → Safely (λ c' w'. IsSubmitted c' × IsSafe w') (settle_evidence env row req c e) w
  unfolding IsProof IsRecorded
  settle_evidence-Safely c (proof_of_submission id) w p o s =
      Ensures-weaken (λ w. IsSafe w) Anything Anything
        (λ c' w'. IsRecorded env row req c (or_default id "reconciled") c' × IsSafe w') _
        (accept_or_return env row req c (or_default id "reconciled")) w
        (λ c' w' h. (
          record {
            has_submission = ap (λ o. is_some (truthy o)) h.0.0 ∙ ap is_some p.0;
            has_email = ap (λ o. is_some (truthy o)) h.0.1 ∙ p.1;
          },
          h.1,
        ))
        (accept_or_return-Safely env row req c (or_default id "reconciled") w o)
  settle_evidence-Safely c no_evidence w p o s =
      Ensures-bind (λ w. IsSafe w) Anything Anything (λ _ w'. Done tt × IsOpen w') _
        (park_unknown c) _ w
        (openly Done (park_unknown c) w (park_unknown-Within Late (λ _. refl) c) o)
        (λ _ w'' s' _. (s', tt))

  submitting-Safely :
      (sent : Option String) (c : SendCheckpoint) (w : World)
      → IsUnsubmitted c
      → IsOpen w
      → Safely
          (λ c' w'. IsSubmitted c' × IsSafe w')
          (settle_submitting env row req (some submitting) sent c)
          w
  unfolding settle_submitting
  submitting-Safely sent c w u o =
      if_split (λ m. Safely (λ c' w'. IsSubmitted c' × IsSafe w') m w)
        (true && not (is_some (truthy c.submission_remote_id))) _ (pure c)
        (λ _.
          Ensures-bind (λ w. IsSafe w) Anything Anything
            (λ e w'. IsProof c.email_remote_id e × IsOpen w') _
            (find_submission_evidence c.email_remote_id (evidence_folder env row req sent))
            (settle_evidence env row req c) w
            (openly (IsProof c.email_remote_id) _ w
              (find_submission_evidence-Within Late c.email_remote_id _) o)
            (λ e w' s h. settle_evidence-Safely c e w' h.0 h.1 s))
        (λ h. absurd (cc (h, ap is_some u)))

  -- The rest of a send that was interrupted while submitting.
  pub send_open-Safely :
      (identity : Identity) (rcpt_to : List String) (folders : List (Option String))
      (c : SendCheckpoint) (w : World)
      → IsUnsubmitted c
      → IsOpen w
      → Safely Fine (send_rest env row req identity rcpt_to (some submitting) folders c) w
  unfolding send_rest
  send_open-Safely identity rcpt_to folders c w u o =
      Ensures-bind (λ w. IsSafe w) Anything Anything (λ c' w'. IsSubmitted c' × IsSafe w') _ _ _ w
        (submitting-Safely (folder_at 1 folders) c w u o)
        (λ c1 w1 _ h1.
          Ensures-bind (λ w. IsSafe w) Anything Anything (λ c' w'. IsSubmitted c' × IsSafe w') _ _ _
            w1
            (if_split (λ m. Safely (λ c' w'. IsSubmitted c' × IsSafe w') m w1)
              (is_some (truthy c1.email_remote_id)) (pure c1) _ (λ _. (h1.1, h1))
              (λ h. absurd (cc (h, h1.0.has_email))))
            (λ c2 w2 _ h2.
              Ensures-bind (λ w. IsSafe w) Anything Anything (λ _ w'. IsSafe w') _ _ _ w2
                (if_split (λ m. Safely (λ _ w'. IsSafe w') m w2)
                  (is_some (truthy c2.submission_remote_id)) (pure c2) _ (λ _. (h2.1, h2.1))
                  (λ h. absurd (cc (h, h2.0.has_submission))))
                (λ c3 w3 s _. file-Safely (folder_at 1 folders) c3 w3 s)))
