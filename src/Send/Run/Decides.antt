-- ===== src/Send/Run/Decides.antt =====
-- The outcomes of the parts of a send before its filing.
use stormbox.Base.{
  String, Bool, true, false, not, [], ◌∷◌, Option, none, some, ◌≡◌, refl, sym, if_intro, has, ◌==◌,
  string_eq, inl,
}
use stormbox.Outbox.Vocabulary.{MutationPhase}
use stormbox.Outbox.Errors.{
  ErrorDetail, extract_method_error_by_id, submission_error, is_retryable_submission_error,
}
use stormbox.Outbox.Errors.Laws.{extract_method_error_by_id-terminal, submission_error-terminal}
use stormbox.Send.Checkpoint.{SendCheckpoint}
use stormbox.Send.Outcome.{of_jmap_error, rejected_terminal, rejected_send_outcome}
use stormbox.Send.Outcome.Decided.{IsDecided, rejected-IsDecided}
use stormbox.Send.Program.{
  Reply, got, failed, SetSlot, SetPayload, Send, ask, ◌>>=◌, truthy, create_email,
}
use stormbox.Send.Program.Within.{Done}
use stormbox.Send.Program.Gives.{Gives, Gives-bind}
use stormbox.Send.Reconcile.{
  EmailProbe, probe_found, probe_absent, inconclusive, find_email_by_message_id, probe_in,
  evidence_for, by_record, by_placement, record_for, find_submission_evidence, normalize_message_id,
}
use stormbox.Send.Run.Filing.{Environment, SendRow, SendRequest, is_some}
use stormbox.Send.Run.{
  save_checkpoint, save_rewound, destroy_rejected, rewind_definitive_submission_rejection,
  scheduled_box, target_box, after_probe, probe_created, prepared, created_or_return, created_slot,
  after_create, create_new, create_missing, create_phase, not_created, method_rejected,
}

-- The outcomes that a program returns early are decided; its values may be any.
abbrev pub Settles : {A : Type 0} → Send A → Type 0
Settles = Gives IsDecided Done

pub Settles-bind :
    {A B : Type 0} (Q : B → Type 0) (m : Send A) (f : A → Send B)
    → Settles m
    → ((a : A) → Gives IsDecided Q (f a))
    → Gives IsDecided Q (m >>= f)
Settles-bind Q m f h g = Gives-bind IsDecided Done Q m f h (λ a _. g a)

find_email_by_message_id-Settles :
    (box : Option String) (id : String) → Settles (find_email_by_message_id box id)
unfolding find_email_by_message_id
find_email_by_message_id-Settles box id = probe (truthy box)
  where
    probe : (box : Option String) → Settles (probe_in box id)
    probe none = tt
    probe (some m) = if_intro Settles (id == "") _ _ tt (λ r. tt)

pub find_submission_evidence-Settles :
    (email sent : Option String) → Settles (find_submission_evidence email sent)
unfolding find_submission_evidence
find_submission_evidence-Settles email sent = evidence (truthy email)
  where
    placement : (id : String) (s : Option String) → Settles (by_placement id s)
    placement id none = tt
    placement id (some m) = λ r. tt

    evidence : (e : Option String) → Settles (evidence_for e (truthy sent))
    evidence none = tt
    evidence (some id) = λ r. by (record_for id r)
      where
        by : (o : Option _) → Settles (by_record id (truthy sent) o)
        by none = placement id (truthy sent)
        by (some x) = tt

pub save_checkpoint-Settles :
    (c : SendCheckpoint) (p : MutationPhase) → Settles (save_checkpoint c p)
unfolding save_checkpoint
save_checkpoint-Settles c p (got _) = tt
save_checkpoint-Settles c p (failed e) = tt

pub rewind-Settles :
    (c : SendCheckpoint) (terminal : Bool)
    → Settles (rewind_definitive_submission_rejection c terminal)
unfolding rewind_definitive_submission_rejection
rewind-Settles c terminal = destroys terminal (truthy c.email_remote_id)
  where
    saves : (terminal : Bool) → Settles (save_rewound terminal c)
    saves true = λ r. tt
    saves false = λ r. tt

    destroys :
        (t : Bool) (id : Option String) → Settles (destroy_rejected t id (save_rewound terminal c))
    destroys true (some id) = λ r. saves terminal
    destroys true none = saves terminal
    destroys false id = saves terminal

pub not-not : (b : Bool) → not (not b) ≡ b
not-not true = refl
not-not false = refl

module _ (env : Environment) (row : SendRow) (req : SendRequest) where
  target_box-Settles :
      (drafts outbox : Option String) → Settles (target_box env row req drafts outbox)
  unfolding target_box IsDecided
  target_box-Settles drafts outbox = if_intro Settles (is_some req.scheduled_at) _ _ (λ r. box r) tt
    where
      box : (r : Reply (Option String)) → Settles (scheduled_box env row req r)
      box (got m) = tt
      box (failed e) = rejected-IsDecided _ (not e.terminal) (sym (not-not e.terminal))

  after_probe-Settles :
      (c : SendCheckpoint) (p : EmailProbe) → Settles (after_probe env row req c p)
  unfolding IsDecided
  after_probe-Settles c probe_absent = tt
  after_probe-Settles c (probe_found id) = save_checkpoint-Settles _ _
  after_probe-Settles c (inconclusive reason) = inl refl

  probe_created-Settles :
      (phase : Option MutationPhase) (box : Option String) (c : SendCheckpoint)
      → Settles (probe_created env row req phase box c)
  unfolding probe_created
  probe_created-Settles none box c = tt
  probe_created-Settles (some p) box c =
      Settles-bind Done (find_email_by_message_id box c.message_id) (after_probe env row req c)
        (find_email_by_message_id-Settles box c.message_id) (after_probe-Settles c)

  not_created-IsDecided : (d : Option ErrorDetail) → IsDecided (not_created env row req d)
  unfolding IsDecided
  not_created-IsDecided d =
      if_intro IsDecided (has ("blobNotFound" ∷ []) (elim d [ none ↦ none | some d' ↦ d'.type ]))
        (rejected_terminal (record {
          type = some "blobNotFound";
          terminal = true;
          reason = none;
          detail = d;
          facts = none;
        }))
        (rejected_send_outcome (of_jmap_error (submission_error "notCreated" d))
          (is_retryable_submission_error d))
        (inl refl)
        (rejected-IsDecided (of_jmap_error (submission_error "notCreated" d))
          (is_retryable_submission_error d) (submission_error-terminal "notCreated" d))

  pub method_rejected-IsDecided :
      (p : SetPayload) (call_id : String)
      → IsDecided (method_rejected env row req (extract_method_error_by_id p.responses call_id))
  method_rejected-IsDecided p call_id =
      rejected-IsDecided _ _ (extract_method_error_by_id-terminal p.responses call_id)

  created_or_return-Settles :
      (c : SendCheckpoint) (id : Option String) (d : Option ErrorDetail)
      → Settles (created_or_return env row req c id d)
  created_or_return-Settles c (some id) d = save_checkpoint-Settles _ _
  created_or_return-Settles c none d = not_created-IsDecided d

  after_create-Settles :
      (c : SendCheckpoint) (r : Reply SetPayload) → Settles (after_create env row req c r)
  unfolding IsDecided
  after_create-Settles c (failed e) = refl
  after_create-Settles c (got p) = by_slot p.slot
    where
      by_slot :
          (s : Option SetSlot)
          → Settles (created_slot env row req c (extract_method_error_by_id p.responses "c1") s)
      by_slot (some s) = created_or_return-Settles c (truthy s.created) s.not_created
      by_slot none = method_rejected-IsDecided p "c1"

  create_new-Settles :
      (box : Option String) (c : SendCheckpoint) → Settles (create_new env row req box c)
  unfolding create_new
  create_new-Settles box c = λ r.
      Settles-bind Done (prepared env row req r)
        (λ _. ask (create_email (normalize_message_id c.message_id)) (after_create env row req c))
        (prepares r) (λ _ r. after_create-Settles c r)
    where
      prepares : (r : Reply (Unit {0})) → Settles (prepared env row req r)
      prepares (got _) = tt
      prepares (failed e) = rejected-IsDecided _ (not _) (sym (not-not _))

  pub create_phase-Settles :
      (phase : Option MutationPhase) (drafts outbox : Option String) (c : SendCheckpoint)
      → Settles (create_phase env row req phase drafts outbox c)
  unfolding create_phase
  create_phase-Settles phase drafts outbox c =
      if_intro Settles (is_some (truthy c.email_remote_id)) _ _ tt (
        Settles-bind Done (target_box env row req drafts outbox) _
          (target_box-Settles drafts outbox)
          (λ box.
            Settles-bind Done (probe_created env row req phase box c)
              (create_missing env row req box) (probe_created-Settles phase box c) (missing box)))
    where
      missing :
          (box : Option String) (c : SendCheckpoint) → Settles (create_missing env row req box c)
      missing box c =
          if_intro Settles (is_some (truthy c.email_remote_id)) _ _ tt (create_new-Settles box c)
