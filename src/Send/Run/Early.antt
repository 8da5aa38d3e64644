-- ===== src/Send/Run/Early.antt =====
-- What a send does before its submission call: it submits nothing, and every checkpoint that it
-- writes names no submission.
use stormbox.Base.{
  ℕ, String, Bool, true, false, Option, none, some, ◌≡◌, refl, if_intro, or_else, string_eq,
}
use stormbox.Outbox.Vocabulary.{MutationPhase}
use stormbox.Outbox.Errors.{ErrorDetail, JmapError, extract_method_error_by_id}
use stormbox.Send.Checkpoint.{SendCheckpoint}
use stormbox.Send.Outcome.{SendOutcome}
use stormbox.Send.Program.{
  Reply, got, failed, SetSlot, SetPayload, Send, pure, finish, ask, ◌>>◌, truthy,
  ensure_scheduled_mailbox, create_email,
}
use stormbox.Send.Program.Within.{Within, Within-bind, Done}
use stormbox.Send.Reconcile.{
  EmailProbe, probe_found, probe_absent, inconclusive, find_email_by_message_id,
  normalize_message_id,
}
use stormbox.Send.Reconcile.Laws.{find_email_by_message_id-Within}
use stormbox.Send.Once.{IsUnsubmitted}
use stormbox.Send.Run.Filing.{Environment, SendRow, SendRequest, is_some}
use stormbox.Send.Run.{
  save_checkpoint, save_rewound, destroy_rejected, rewind_definitive_submission_rejection,
  scheduled_box, target_box, after_probe, probe_created, prepared, created_or_return, created_slot,
  after_create, create_new, create_missing, create_phase, held, hold_for,
}

pub save_checkpoint-Within :
    (P : SendCheckpoint → MutationPhase → Type 0) (c : SendCheckpoint) (p : MutationPhase)
    → P c p
    → Within P (λ c'. c' ≡ c) (save_checkpoint c p)
unfolding save_checkpoint
save_checkpoint-Within P c p h = (h, (refl, λ e. tt))

abbrev pub Early : SendCheckpoint → MutationPhase → Type 0
Early c p = IsUnsubmitted c

save_rewound-Within :
    (terminal : Bool) (c : SendCheckpoint)
    → IsUnsubmitted c
    → Within Early Done (save_rewound terminal c)
save_rewound-Within true c u = (u, (tt, λ e. tt))
save_rewound-Within false c u = (u, (tt, λ e. tt))

destroy_rejected-Within :
    (terminal : Bool) (id : Option String) (m : Send (Unit {0}))
    → Within Early Done m
    → Within Early Done (destroy_rejected terminal id m)
destroy_rejected-Within true (some id) m h = λ r _. h
destroy_rejected-Within true none m h = h
destroy_rejected-Within false id m h = h

pub rewind-Within :
    (c : SendCheckpoint) (terminal : Bool)
    → IsUnsubmitted c
    → Within Early Done (rewind_definitive_submission_rejection c terminal)
unfolding rewind_definitive_submission_rejection
rewind-Within c terminal u =
    destroy_rejected-Within terminal (truthy c.email_remote_id) (save_rewound terminal c)
      (save_rewound-Within terminal c u)

-- An early return after the rewind.
pub rewind_finish-Within :
    {A : Type 0} (R : A → Type 0) (c : SendCheckpoint) (terminal : Bool) (o : SendOutcome)
    → IsUnsubmitted c
    → Within Early R (rewind_definitive_submission_rejection c terminal >> finish o)
rewind_finish-Within R c terminal o u =
    Within-bind Early Done R (rewind_definitive_submission_rejection c terminal) (λ _. finish o)
      (rewind-Within c terminal u) (λ _ _. tt)

module _ (env : Environment) (row : SendRow) (req : SendRequest) where
  target_box-Within :
      (drafts outbox : Option String) → Within Early Done (target_box env row req drafts outbox)
  unfolding target_box
  target_box-Within drafts outbox =
      if_intro (Within Early Done) (is_some req.scheduled_at)
        (ask ensure_scheduled_mailbox (scheduled_box env row req)) (pure (or_else outbox drafts))
        (λ r _. box r) tt
    where
      box : (r : Reply (Option String)) → Within Early Done (scheduled_box env row req r)
      box (got m) = tt
      box (failed e) = tt

  after_probe-Within :
      (c : SendCheckpoint) (p : EmailProbe)
      → IsUnsubmitted c
      → Within Early IsUnsubmitted (after_probe env row req c p)
  unfolding save_checkpoint
  after_probe-Within c probe_absent u = u
  after_probe-Within c (probe_found id) u = (u, (u, λ e. tt))
  after_probe-Within c (inconclusive reason) u = tt

  probe_created-Within :
      (phase : Option MutationPhase) (box : Option String) (c : SendCheckpoint)
      → IsUnsubmitted c
      → Within Early IsUnsubmitted (probe_created env row req phase box c)
  unfolding probe_created
  probe_created-Within none box c u = u
  probe_created-Within (some p) box c u =
      Within-bind Early Done IsUnsubmitted (find_email_by_message_id box c.message_id)
        (after_probe env row req c) (find_email_by_message_id-Within Early box c.message_id)
        (λ p _. after_probe-Within c p u)

  created_or_return-Within :
      (c : SendCheckpoint) (id : Option String) (d : Option ErrorDetail)
      → IsUnsubmitted c
      → Within Early IsUnsubmitted (created_or_return env row req c id d)
  unfolding save_checkpoint
  created_or_return-Within c (some id) d u = (u, (u, λ e. tt))
  created_or_return-Within c none d u = tt

  created_slot-Within :
      (c : SendCheckpoint) (e : JmapError) (s : Option SetSlot)
      → IsUnsubmitted c
      → Within Early IsUnsubmitted (created_slot env row req c e s)
  created_slot-Within c e (some s) u = created_or_return-Within c (truthy s.created) s.not_created u
  created_slot-Within c e none u = tt

  after_create-Within :
      (c : SendCheckpoint) (r : Reply SetPayload)
      → IsUnsubmitted c
      → Within Early IsUnsubmitted (after_create env row req c r)
  after_create-Within c (got p) u =
      created_slot-Within c (extract_method_error_by_id p.responses "c1") p.slot u
  after_create-Within c (failed e) u = tt

  create_new-Within :
      (box : Option String) (c : SendCheckpoint)
      → IsUnsubmitted c
      → Within Early IsUnsubmitted (create_new env row req box c)
  unfolding create_new
  create_new-Within box c u = λ r _.
      Within-bind Early Done IsUnsubmitted (prepared env row req r)
        (λ _. ask (create_email (normalize_message_id c.message_id)) (after_create env row req c))
        (prepares r) (λ _ _ r _. after_create-Within c r u)
    where
      prepares : (r : Reply (Unit {0})) → Within Early Done (prepared env row req r)
      prepares (got _) = tt
      prepares (failed e) = tt

  create_missing-Within :
      (box : Option String) (c : SendCheckpoint)
      → IsUnsubmitted c
      → Within Early IsUnsubmitted (create_missing env row req box c)
  create_missing-Within box c u =
      if_intro (Within Early IsUnsubmitted) (is_some (truthy c.email_remote_id)) (pure c)
        (create_new env row req box c) u (create_new-Within box c u)

  pub create_phase-Within :
      (phase : Option MutationPhase) (drafts outbox : Option String) (c : SendCheckpoint)
      → IsUnsubmitted c
      → Within Early IsUnsubmitted (create_phase env row req phase drafts outbox c)
  unfolding create_phase
  create_phase-Within phase drafts outbox c u =
      if_intro (Within Early IsUnsubmitted) (is_some (truthy c.email_remote_id)) (pure c) _ u (
        Within-bind Early Done IsUnsubmitted (target_box env row req drafts outbox) _
          (target_box-Within drafts outbox)
          (λ box _.
            Within-bind Early IsUnsubmitted IsUnsubmitted (probe_created env row req phase box c)
              (create_missing env row req box) (probe_created-Within phase box c u)
              (create_missing-Within box)))

  held-Within :
      (c : SendCheckpoint) (r : Reply ℕ)
      → IsUnsubmitted c
      → Within Early Done (held env row req c r)
  held-Within c (got n) u = tt
  held-Within c (failed e) u =
      if_intro (Within Early Done) e.terminal _ _ (rewind_finish-Within Done c true _ u) tt

  pub hold_for-Within :
      (c : SendCheckpoint) (target : Option String)
      → IsUnsubmitted c
      → Within Early Done (hold_for env row req c target)
  hold_for-Within c none u = tt
  hold_for-Within c (some target) u = λ r _. held-Within c r u
