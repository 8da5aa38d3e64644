-- ===== src/Send/Reconcile/Laws.antt =====
-- What the answers of the server prove, and that asking writes nothing.
use stormbox.Base.{
  String, true, false, not, ◌&&◌, List, [], ◌∷◌, Option, none, some, ◌==◌, string_eq, ◌≡◌, refl,
  sym, ap, if_intro, if_false, or_default, All, find, Bool-cases, inl, inr, contains, arith, ◌∙◌,
}
use stormbox.Outbox.Vocabulary.{MutationPhase}
use stormbox.Send.Checkpoint.{SendCheckpoint}
use stormbox.Send.Program.{
  Reply, got, failed, SubmissionRecord, Placement, pure, ask, truthy, scan_mailbox,
  fetch_submission_records,
}
use stormbox.Send.Program.Within.{Within, Done}
use stormbox.Send.Program.World.{IsLegal}
use stormbox.Send.Reconcile.{
  probe_absent, probe_in, read_scan, normalize_message_id, find_email_by_message_id,
  SubmissionEvidence, proof_of_submission, no_evidence, record_for, placed, by_placement, by_record,
  evidence_for, find_submission_evidence,
}
use stormbox.Send.Run.Filing.{is_some}

-- A proof names a submission, or leaves its name open, and there is an Email to prove it of.
unfoldable pub IsProof : Option String → SubmissionEvidence → Type 0
IsProof email (proof_of_submission id) =
    (truthy (some (or_default id "reconciled")) ≡ some (or_default id "reconciled"))
    × (is_some (truthy email) ≡ true)
IsProof email no_evidence = Unit

found-is_named :
    (records : List SubmissionRecord) (id : String) (r : SubmissionRecord)
    → All (λ r. (r.id == "") ≡ false) records
    → find (λ r. r.email_id == id) records ≡ some r
    → (r.id == "") ≡ false
found-is_named [] id r a h = absurd cc
found-is_named (x ∷ xs) id r a h = elim (Bool-cases (x.email_id == id)) [
  | inl e ↦ ground (arith, e, h, a.0)
  | inr e ↦
      found-is_named xs id r a.1 (sym (if_false (some x) (find (λ r. r.email_id == id) xs) e) ∙ h)
]

module _ (P : SendCheckpoint → MutationPhase → Type 0) where
  pub find_email_by_message_id-Within :
      (box : Option String) (id : String) → Within P Done (find_email_by_message_id box id)
  unfolding find_email_by_message_id
  find_email_by_message_id-Within box id = probe (truthy box)
    where
      probe : (box : Option String) → Within P Done (probe_in box id)
      probe none = tt
      probe (some m) =
          if_intro (Within P Done) (id == "") (pure probe_absent)
            (ask (scan_mailbox m) λ r. pure (read_scan (normalize_message_id id) r)) tt (λ r _. tt)

  module _ (email sent : Option String) (is_email : is_some (truthy email) ≡ true) where
    placed-IsProof : (m : String) (r : Reply (Option Placement)) → IsProof email (placed m r)
    unfolding IsProof
    placed-IsProof m (failed e) = tt
    placed-IsProof m (got none) = tt
    placed-IsProof m (got (some p)) =
        if_intro (IsProof email) (contains p.mailbox_ids m && not p.is_draft)
          (proof_of_submission none) no_evidence (refl, is_email) tt

    by_placement-Within :
        (id : String) (sent : Option String) → Within P (IsProof email) (by_placement id sent)
    unfolding IsProof
    by_placement-Within id none = tt
    by_placement-Within id (some m) = λ r _. placed-IsProof m r

    by_record-Within :
        (id : String) (r : Reply (List SubmissionRecord))
        → IsLegal fetch_submission_records r
        → (o : Option SubmissionRecord) → record_for id r ≡ o
        → Within P (IsProof email) (by_record id sent o)
    unfolding IsProof
    by_record-Within id r legal none h = by_placement-Within id sent
    by_record-Within id (got rs) legal (some x) h =
        (if_false none (some x.id) (found-is_named rs id x legal h), is_email)
    by_record-Within id (failed e) legal (some x) h = absurd cc

  evidence_for-Within :
      (email sent : Option String) (o : Option String)
      → truthy email ≡ o
      → Within P (IsProof email) (evidence_for o sent)
  unfolding IsProof
  evidence_for-Within email sent none h = tt
  evidence_for-Within email sent (some id) h =
      λ r legal. by_record-Within email sent (ap is_some h) id r legal (record_for id r) refl

  pub find_submission_evidence-Within :
      (email sent : Option String) → Within P (IsProof email) (find_submission_evidence email sent)
  unfolding find_submission_evidence
  find_submission_evidence-Within email sent =
      evidence_for-Within email (truthy sent) (truthy email) refl
