-- ===== src/Send/Run/Filing/Laws.antt =====
-- The filing after a submission writes the row at the phases after it only, and submits nothing.
use stormbox.Base.{
  Bool, String, List, [], ◌∷◌, Option, none, some, if_intro, ltb, ◌+◌, has, ◌&&◌, string_eq, false,
}
use stormbox.Outbox.Vocabulary.{MutationPhase, cache_pending, unknown}
use stormbox.Outbox.Errors.{JmapError}
use stormbox.Send.Checkpoint.{SendCheckpoint}
use stormbox.Send.Outcome.{SendOutcome, ambiguous, outcome_unknown}
use stormbox.Send.Program.{
  Reply, got, failed, Send, pure, save, ask, ◌>>◌, truthy, mark_views_stale,
  scheduled_mailbox_remote_id, resolve_folder_remote_ids,
}
use stormbox.Send.Program.Within.{Within, Within-bind, Done}
use stormbox.Send.Drafts.{caught, destroy_draft_emails, with_pending}
use stormbox.Send.Drafts.Laws.{destroy_draft_emails-writes}
use stormbox.Send.Run.Filing.{
  Environment, SendRequest, park_unknown, is_some, retire_unfiled, queue_cleanup, counted,
  confirmation, pending_of, cleanup_of, post_submission_failure, cleaned, after_cleanup,
  after_filing, file_in, scheduled_filing, reconcile_sent_locally, after_folders,
  resume_cache_reconciliation, cache_repair_max_attempts,
}

module _ (P : SendCheckpoint → MutationPhase → Type 0)
    (parks : (c : SendCheckpoint) → P c unknown) where
  pub park_unknown-Within : (c : SendCheckpoint) → Within P Done (park_unknown c)
  unfolding park_unknown
  park_unknown-Within c = (parks c, (tt, λ e. tt))

  module _ (writes : (c : SendCheckpoint) → P c cache_pending) (env : Environment)
      (req : SendRequest) where
    queue_cleanup-Within :
        (ids : List String) (rest : Send SendOutcome)
        → Within P Done rest
        → Within P Done (queue_cleanup env req ids rest)
    queue_cleanup-Within [] rest h = h
    queue_cleanup-Within (x ∷ xs) rest h = λ r _. h

    retire_unfiled-Within :
        (sent : Option String) (c : SendCheckpoint) (e : JmapError)
        → Within P Done (retire_unfiled env req sent c e)
    retire_unfiled-Within sent c e =
        let rest : Send SendOutcome =
          ask (mark_views_stale sent) λ _. pure (confirmation env req c false) in
        if_intro (Within P Done) (has ("composeBodyIncomplete" ∷ []) e.type) rest
          (queue_cleanup env req (cleanup_of env req c) rest) (λ r _. tt)
          (queue_cleanup-Within (cleanup_of env req c) rest λ r _. tt)

    counted-Within :
        (sent : Option String) (c : SendCheckpoint) (e : JmapError) (r : Reply (Unit {0}))
        → Within P Done (counted env req sent c e r)
    counted-Within sent c e (got _) = tt
    counted-Within sent c e (failed _) = retire_unfiled-Within sent c e

    post_submission_failure-Within :
        (sent : Option String) (c : SendCheckpoint) (e : JmapError)
        → Within P Done (post_submission_failure env req sent c e)
    unfolding post_submission_failure
    post_submission_failure-Within sent c e =
        let c' : SendCheckpoint = record c { cache_attempts = c.cache_attempts + 1 } in
        if_intro (Within P Done) (ltb (c.cache_attempts + 1) cache_repair_max_attempts)
          (save c' cache_pending (counted env req sent c e)) (retire_unfiled env req sent c e)
          (writes c', (counted-Within sent c e (got tt), λ x. counted-Within sent c e (failed x)))
          (retire_unfiled-Within sent c e)

    cleaned-Within :
        (mailbox : Option String) (filed : Bool) (c : SendCheckpoint) (e : Option JmapError)
        → Within P Done (cleaned env req mailbox filed c e)
    cleaned-Within mailbox filed c none = tt
    cleaned-Within mailbox filed c (some e) = post_submission_failure-Within mailbox c e

    after_filing-Within :
        (mailbox : Option String) (c : SendCheckpoint) (r : Reply Bool)
        → Within P Done (after_filing env req mailbox c r)
    after_filing-Within mailbox c (failed e) = post_submission_failure-Within mailbox c e
    after_filing-Within mailbox c (got filed) =
        Within-bind P Done Done (destroy_draft_emails env.set_limit (pending_of env req c) c)
          (after_cleanup env req mailbox filed)
          (destroy_draft_emails-writes P writes env.set_limit (pending_of env req c) c)
          (λ r _. cleaned-Within mailbox filed r.checkpoint (caught r.ending))

    file_in-Within :
        (mailbox : Option String) (c : SendCheckpoint) → Within P Done (file_in env req mailbox c)
    file_in-Within mailbox c = (
      writes c,
      (λ r _. after_filing-Within mailbox c r, λ e. post_submission_failure-Within mailbox c e),
    )

    scheduled_filing-Within :
        (sent : Option String) (c : SendCheckpoint) (r : Reply (Option String))
        → Within P Done (scheduled_filing env req sent c r)
    scheduled_filing-Within sent c (failed e) = post_submission_failure-Within sent c e
    scheduled_filing-Within sent c (got mailbox) = file_in-Within mailbox c

    pub reconcile_sent_locally-Within :
        (sent : Option String) (c : SendCheckpoint)
        → Within P Done (reconcile_sent_locally env req sent c)
    unfolding reconcile_sent_locally
    reconcile_sent_locally-Within sent checkpoint =
        let c : SendCheckpoint = with_pending (pending_of env req checkpoint) checkpoint in
        if_intro (Within P Done) (is_some req.scheduled_at)
          (ask scheduled_mailbox_remote_id (scheduled_filing env req sent c))
          (file_in env req sent c) (λ r _. scheduled_filing-Within sent c r) (file_in-Within sent c)

    after_folders-Within :
        (c : SendCheckpoint) (r : Reply (List (Option String)))
        → Within P Done (after_folders env req c r)
    after_folders-Within c (failed e) = post_submission_failure-Within none c e
    after_folders-Within c (got folders) = reconcile_sent_locally-Within _ c

    pub resume_cache_reconciliation-Within :
        (c : SendCheckpoint) → Within P Done (resume_cache_reconciliation env req c)
    unfolding resume_cache_reconciliation
    resume_cache_reconciliation-Within c =
        let incomplete : Send SendOutcome =
          pure (ambiguous (outcome_unknown (some "incompleteCheckpoint"))) in
        if_intro (Within P Done)
          (is_some (truthy c.email_remote_id) && is_some (truthy c.submission_remote_id))
          (ask (resolve_folder_remote_ids (req.sent_folder_id ∷ req.drafts_folder_id ∷ []))
            (after_folders env req c))
          (park_unknown c >> incomplete) (λ r _. after_folders-Within c r)
          (Within-bind P Done Done (park_unknown c) (λ _. incomplete) (park_unknown-Within c)
            λ _ _. tt)
