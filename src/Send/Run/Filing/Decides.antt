-- ===== src/Send/Run/Filing/Decides.antt =====
-- The outcomes of the filing after a submission.
use stormbox.Base.{
  refl, ◌+◌, Bool, String, List, [], ◌∷◌, Option, none, some, if_intro, ltb, has, ◌&&◌, string_eq,
  false,
}
use stormbox.Outbox.Vocabulary.{cache_pending}
use stormbox.Outbox.Errors.{JmapError}
use stormbox.Send.Checkpoint.{SendCheckpoint}
use stormbox.Send.Outcome.{SendOutcome, ambiguous, outcome_unknown}
use stormbox.Send.Program.{
  Reply, got, failed, Send, pure, save, ask, ◌>>=◌, ◌>>◌, truthy, mark_views_stale,
  scheduled_mailbox_remote_id, resolve_folder_remote_ids,
}
use stormbox.Send.Program.Within.{Done}
use stormbox.Send.Program.Gives.{Gives, Gives-bind}
use stormbox.Send.Outcome.Decided.{IsDecided}
use stormbox.Send.Drafts.{caught, destroy_draft_emails, with_pending}
use stormbox.Send.Drafts.Gives.{destroy_draft_emails-Gives}
use stormbox.Send.Run.Filing.{
  Environment, SendRequest, park_unknown, is_some, retire_unfiled, queue_cleanup, counted,
  confirmation, pending_of, cleanup_of, post_submission_failure, cleaned, after_cleanup,
  after_filing, after_pending, file_in, scheduled_filing, reconcile_sent_locally, after_folders,
  resume_cache_reconciliation, cache_repair_max_attempts,
}

-- A program of an outcome that is decided, however it is returned.
abbrev pub Decides : Send SendOutcome → Type 0
Decides = Gives IsDecided IsDecided

module _ (env : Environment) (req : SendRequest) where
  queue_cleanup-Decides :
      (ids : List String) (rest : Send SendOutcome)
      → Decides rest
      → Decides (queue_cleanup env req ids rest)
  queue_cleanup-Decides [] rest h = h
  queue_cleanup-Decides (x ∷ xs) rest h = λ r. h

  retire_unfiled-Decides :
      (sent : Option String) (c : SendCheckpoint) (e : JmapError)
      → Decides (retire_unfiled env req sent c e)
  unfolding IsDecided
  retire_unfiled-Decides sent c e =
      let rest : Send SendOutcome =
        ask (mark_views_stale sent) λ _. pure (confirmation env req c false) in
      if_intro Decides (has ("composeBodyIncomplete" ∷ []) e.type) rest
        (queue_cleanup env req (cleanup_of env req c) rest) (λ r. tt)
        (queue_cleanup-Decides (cleanup_of env req c) rest λ r. tt)

  post_submission_failure-Decides :
      (sent : Option String) (c : SendCheckpoint) (e : JmapError)
      → Decides (post_submission_failure env req sent c e)
  unfolding post_submission_failure IsDecided
  post_submission_failure-Decides sent c e =
      if_intro Decides (ltb (c.cache_attempts + 1) cache_repair_max_attempts)
        (save (record c { cache_attempts = c.cache_attempts + 1 }) cache_pending
          (counted env req sent c e))
        (retire_unfiled env req sent c e) count (retire_unfiled-Decides sent c e)
    where
      count : (r : Reply (Unit {0})) → Decides (counted env req sent c e r)
      count (got _) = refl
      count (failed _) = retire_unfiled-Decides sent c e

  cleaned-Decides :
      (mailbox : Option String) (filed : Bool) (c : SendCheckpoint) (e : Option JmapError)
      → Decides (cleaned env req mailbox filed c e)
  unfolding IsDecided
  cleaned-Decides mailbox filed c none = tt
  cleaned-Decides mailbox filed c (some e) = post_submission_failure-Decides mailbox c e

  after_filing-Decides :
      (mailbox : Option String) (c : SendCheckpoint) (r : Reply Bool)
      → Decides (after_filing env req mailbox c r)
  after_filing-Decides mailbox c (failed e) = post_submission_failure-Decides mailbox c e
  after_filing-Decides mailbox c (got filed) =
      Gives-bind IsDecided Done IsDecided
        (destroy_draft_emails env.set_limit (pending_of env req c) c)
        (after_cleanup env req mailbox filed)
        (destroy_draft_emails-Gives IsDecided env.set_limit (pending_of env req c) c)
        (λ r _. cleaned-Decides mailbox filed r.checkpoint (caught r.ending))

  after_pending-Decides :
      (mailbox : Option String) (c : SendCheckpoint) (r : Reply (Unit {0}))
      → Decides (after_pending env req mailbox c r)
  after_pending-Decides mailbox c (failed e) = post_submission_failure-Decides mailbox c e
  after_pending-Decides mailbox c (got _) = λ r. after_filing-Decides mailbox c r

  scheduled_filing-Decides :
      (sent : Option String) (c : SendCheckpoint) (r : Reply (Option String))
      → Decides (scheduled_filing env req sent c r)
  scheduled_filing-Decides sent c (failed e) = post_submission_failure-Decides sent c e
  scheduled_filing-Decides sent c (got mailbox) = λ r. after_pending-Decides mailbox c r

  pub reconcile_sent_locally-Decides :
      (sent : Option String) (c : SendCheckpoint) → Decides (reconcile_sent_locally env req sent c)
  unfolding reconcile_sent_locally
  reconcile_sent_locally-Decides sent checkpoint =
      let c : SendCheckpoint = with_pending (pending_of env req checkpoint) checkpoint in
      if_intro Decides (is_some req.scheduled_at)
        (ask scheduled_mailbox_remote_id (scheduled_filing env req sent c)) (file_in env req sent c)
        (λ r. scheduled_filing-Decides sent c r) (λ r. after_pending-Decides sent c r)

  after_folders-Decides :
      (c : SendCheckpoint) (r : Reply (List (Option String))) → Decides (after_folders env req c r)
  after_folders-Decides c (failed e) = post_submission_failure-Decides none c e
  after_folders-Decides c (got folders) = reconcile_sent_locally-Decides _ c

  pub resume_cache_reconciliation-Decides :
      (c : SendCheckpoint) → Decides (resume_cache_reconciliation env req c)
  unfolding resume_cache_reconciliation park_unknown ◌>>=◌ IsDecided
  resume_cache_reconciliation-Decides c =
      if_intro Decides
        (is_some (truthy c.email_remote_id) && is_some (truthy c.submission_remote_id))
        (ask (resolve_folder_remote_ids (req.sent_folder_id ∷ req.drafts_folder_id ∷ []))
          (after_folders env req c))
        (park_unknown c >> pure (ambiguous (outcome_unknown (some "incompleteCheckpoint"))))
        (λ r. after_folders-Decides c r) (λ r. (refl, refl))
