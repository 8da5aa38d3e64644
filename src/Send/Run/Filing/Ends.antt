-- ===== src/Send/Run/Filing/Ends.antt =====
-- The filing after a submission comes to an end with an outcome.
use stormbox.Base.{
  ◌≤◌, ◌+◌, Bool, String, List, [], ◌∷◌, Option, none, some, if_intro, ltb, has, ◌&&◌, string_eq,
  false,
}
use stormbox.Outbox.Vocabulary.{cache_pending}
use stormbox.Outbox.Errors.{JmapError}
use stormbox.Send.Checkpoint.{SendCheckpoint}
use stormbox.Send.Outcome.{SendOutcome, ambiguous, outcome_unknown}
use stormbox.Send.Program.{
  Reply, got, failed, Send, pure, save, ask, ◌>>=◌, ◌>>◌, truthy, mark_views_stale,
  scheduled_mailbox_remote_id, resolve_folder_remote_ids,
}
use stormbox.Send.Program.Returns.{Returns, Returns-bind}
use stormbox.Send.Drafts.{caught, destroy_draft_emails, with_pending}
use stormbox.Send.Drafts.Ends.{destroy_draft_emails-Returns}
use stormbox.Send.Run.Filing.{
  Environment, SendRequest, park_unknown, is_some, retire_unfiled, queue_cleanup, counted,
  confirmation, pending_of, cleanup_of, post_submission_failure, cleaned, after_cleanup,
  after_filing, after_pending, file_in, scheduled_filing, reconcile_sent_locally, after_folders,
  resume_cache_reconciliation, cache_repair_max_attempts,
}

module _ (env : Environment) (req : SendRequest) where
  queue_cleanup-Returns :
      (ids : List String) (rest : Send SendOutcome)
      → Returns rest
      → Returns (queue_cleanup env req ids rest)
  queue_cleanup-Returns [] rest h = h
  queue_cleanup-Returns (x ∷ xs) rest h = λ r. h

  retire_unfiled-Returns :
      (sent : Option String) (c : SendCheckpoint) (e : JmapError)
      → Returns (retire_unfiled env req sent c e)
  retire_unfiled-Returns sent c e =
      let rest : Send SendOutcome =
        ask (mark_views_stale sent) λ _. pure (confirmation env req c false) in
      if_intro Returns (has ("composeBodyIncomplete" ∷ []) e.type) rest
        (queue_cleanup env req (cleanup_of env req c) rest) (λ r. tt)
        (queue_cleanup-Returns (cleanup_of env req c) rest λ r. tt)

  post_submission_failure-Returns :
      (sent : Option String) (c : SendCheckpoint) (e : JmapError)
      → Returns (post_submission_failure env req sent c e)
  unfolding post_submission_failure
  post_submission_failure-Returns sent c e =
      if_intro Returns (ltb (c.cache_attempts + 1) cache_repair_max_attempts)
        (save (record c { cache_attempts = c.cache_attempts + 1 }) cache_pending
          (counted env req sent c e))
        (retire_unfiled env req sent c e) count (retire_unfiled-Returns sent c e)
    where
      count : (r : Reply (Unit {0})) → Returns (counted env req sent c e r)
      count (got _) = tt
      count (failed _) = retire_unfiled-Returns sent c e

  cleaned-Returns :
      (mailbox : Option String) (filed : Bool) (c : SendCheckpoint) (e : Option JmapError)
      → Returns (cleaned env req mailbox filed c e)
  cleaned-Returns mailbox filed c none = tt
  cleaned-Returns mailbox filed c (some e) = post_submission_failure-Returns mailbox c e

  module _ (limited : 1 ≤ env.set_limit) where
    after_filing-Returns :
        (mailbox : Option String) (c : SendCheckpoint) (r : Reply Bool)
        → Returns (after_filing env req mailbox c r)
    after_filing-Returns mailbox c (failed e) = post_submission_failure-Returns mailbox c e
    after_filing-Returns mailbox c (got filed) =
        Returns-bind (destroy_draft_emails env.set_limit (pending_of env req c) c)
          (after_cleanup env req mailbox filed)
          (destroy_draft_emails-Returns env.set_limit (pending_of env req c) c limited)
          (λ r. cleaned-Returns mailbox filed r.checkpoint (caught r.ending))

    after_pending-Returns :
        (mailbox : Option String) (c : SendCheckpoint) (r : Reply (Unit {0}))
        → Returns (after_pending env req mailbox c r)
    after_pending-Returns mailbox c (failed e) = post_submission_failure-Returns mailbox c e
    after_pending-Returns mailbox c (got _) = λ r. after_filing-Returns mailbox c r

    scheduled_filing-Returns :
        (sent : Option String) (c : SendCheckpoint) (r : Reply (Option String))
        → Returns (scheduled_filing env req sent c r)
    scheduled_filing-Returns sent c (failed e) = post_submission_failure-Returns sent c e
    scheduled_filing-Returns sent c (got mailbox) = λ r. after_pending-Returns mailbox c r

    reconcile_sent_locally-Returns :
        (sent : Option String) (c : SendCheckpoint)
        → Returns (reconcile_sent_locally env req sent c)
    unfolding reconcile_sent_locally
    reconcile_sent_locally-Returns sent checkpoint =
        let c : SendCheckpoint = with_pending (pending_of env req checkpoint) checkpoint in
        if_intro Returns (is_some req.scheduled_at)
          (ask scheduled_mailbox_remote_id (scheduled_filing env req sent c))
          (file_in env req sent c) (λ r. scheduled_filing-Returns sent c r)
          (λ r. after_pending-Returns sent c r)

    after_folders-Returns :
        (c : SendCheckpoint) (r : Reply (List (Option String)))
        → Returns (after_folders env req c r)
    after_folders-Returns c (failed e) = post_submission_failure-Returns none c e
    after_folders-Returns c (got folders) = reconcile_sent_locally-Returns _ c

    pub resume_cache_reconciliation-Returns :
        (c : SendCheckpoint) → Returns (resume_cache_reconciliation env req c)
    unfolding resume_cache_reconciliation park_unknown ◌>>=◌
    resume_cache_reconciliation-Returns c =
        if_intro Returns
          (is_some (truthy c.email_remote_id) && is_some (truthy c.submission_remote_id))
          (ask (resolve_folder_remote_ids (req.sent_folder_id ∷ req.drafts_folder_id ∷ []))
            (after_folders env req c))
          (park_unknown c >> pure (ambiguous (outcome_unknown (some "incompleteCheckpoint"))))
          (λ r. after_folders-Returns c r) (λ r. tt)
