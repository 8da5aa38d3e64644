-- ===== src/Send/Run/Filing/Budget.antt =====
-- The budget of the local repair: an attempt that files either confirms the send, or counts itself.
use stormbox.Base.{
  ℕ, suc, ◌+◌, ◌<◌, Bool, true, false, String, List, [], ◌∷◌, Option, none, some, ◌≡◌, refl, sym,
  subst, ap, if_split, if_intro, ltb, ltb→lt, has, ◌&&◌, string_eq, arith, All, delete_where,
  or_default, contains, ◌∙◌,
}
use stormbox.Base.Sets.{Distinct-delete_where}
use stormbox.Outbox.Vocabulary.{cache_pending}
use stormbox.Outbox.Errors.{JmapError}
use stormbox.Send.Checkpoint.{
  SendCheckpoint, read_checkpoint, is_blank, well_formed_draft_email_ids,
}
use stormbox.Send.Checkpoint.Laws.{
  IsStorable, AreStorable, AreDraftIds, read_checkpoint-encode, to_set_id,
  well_formed_draft_email_ids-AreDraftIds,
}
use stormbox.Send.Outcome.{
  SendOutcome, confirmed, rejected_retryable, rejected_terminal, ambiguous, outcome_unknown,
}
use stormbox.Send.Program.{
  Reply, got, failed, Send, pure, save, ask, ◌>>◌, truthy, mark_views_stale,
  scheduled_mailbox_remote_id, resolve_folder_remote_ids,
}
use stormbox.Send.Program.World.{World, saved}
use stormbox.Send.Program.Rules.{Ensures, Ensures-bind}
use stormbox.Send.Program.Within.{Within-Ensures}
use stormbox.Send.Drafts.{caught, destroy_draft_emails, with_pending, remaining}
use stormbox.Send.Drafts.Laws.{destroy_draft_emails-Within}
use stormbox.Send.Run.Filing.{
  Environment, SendRequest, park_unknown, is_some, retire_unfiled, queue_cleanup, counted,
  confirmation, pending_of, cleanup_of, post_submission_failure, cleaned, after_cleanup,
  after_filing, file_in, scheduled_filing, reconcile_sent_locally, after_folders,
  resume_cache_reconciliation, cache_repair_max_attempts,
}

-- A checkpoint with these remote ids and `k` failed attempts to file, whose drafts read back.
pub record IsBooked (email submission : Option String) (k : ℕ) (c : SendCheckpoint) : Type 0 where
  pub email_kept : c.email_remote_id ≡ email
  pub submission_kept : c.submission_remote_id ≡ submission
  pub attempts_kept : c.cache_attempts ≡ k
  pub storable : IsStorable c

-- The send is confirmed, or the row carries one failed attempt more and has another left.
unfoldable pub Filed : Option String → Option String → ℕ → SendOutcome → World → Type 0
Filed email submission k (confirmed x) w = Unit
Filed email submission k (rejected_retryable e) w =
    (suc k < cache_repair_max_attempts)
    × (w.phase ≡ some cache_pending)
    × (c : SendCheckpoint) × (read_checkpoint w.response ≡ some c)
    × IsBooked email submission (suc k) c
Filed email submission k (rejected_terminal e) w = ⊥
Filed email submission k (ambiguous e) w = ⊥

All-delete :
    (p : String → Bool) (xs : List String)
    → All (λ id. is_blank id ≡ false) xs
    → All (λ id. is_blank id ≡ false) (delete_where p xs)
All-delete p [] a = tt
All-delete p (x ∷ xs) a =
    if_intro (All (λ id. is_blank id ≡ false)) (p x) (delete_where p xs) (x ∷ delete_where p xs)
      (All-delete p xs a.1) (a.0, All-delete p xs a.1)

remaining-AreDraftIds : (xs ids : List String) → AreDraftIds ids → AreDraftIds (remaining xs ids)
unfolding AreDraftIds
remaining-AreDraftIds xs ids (a, d) =
    (All-delete (contains xs) ids a, Distinct-delete_where (contains xs) ids d)

or_well_formed :
    (o : Option (List String)) (ids : List String)
    → AreStorable o
    → AreDraftIds ids
    → AreDraftIds (or_default o ids)
or_well_formed none ids s a = a
or_well_formed (some xs) ids s a = s

incomplete : (a b : Bool) → a ≡ true → b ≡ true → a && b ≡ false → ⊥
incomplete true true h k l = cc
incomplete true false h k l = cc
incomplete false b h k l = cc

module _ (email submission : Option String) (k : ℕ) (env : Environment) (req : SendRequest) where
  Booked : SendCheckpoint → Type 0
  Booked c = IsBooked email submission k c

  abbrev Files : {A : Type 0} → (A → World → Type 0) → Send A → World → Type 0
  Files = Ensures (λ _. Unit) (λ _ _. Unit) (λ _ _. Unit)

  abbrev FilesSend : Send SendOutcome → World → Type 0
  FilesSend = Files (Filed email submission k)

  queue_cleanup-Files :
      (ids : List String) (rest : Send SendOutcome) (w : World)
      → FilesSend rest w
      → FilesSend (queue_cleanup env req ids rest) w
  queue_cleanup-Files [] rest w h = h
  queue_cleanup-Files (x ∷ xs) rest w h = (tt, λ r _. h)

  retire_unfiled-Files :
      (sent : Option String) (c : SendCheckpoint) (e : JmapError) (w : World)
      → FilesSend (retire_unfiled env req sent c e) w
  unfolding Filed
  retire_unfiled-Files sent c e w =
      let rest : Send SendOutcome =
        ask (mark_views_stale sent) λ _. pure (confirmation env req c false) in
      if_intro (λ m. FilesSend m w) (has ("composeBodyIncomplete" ∷ []) e.type) rest
        (queue_cleanup env req (cleanup_of env req c) rest) (tt, λ r _. (tt, tt))
        (queue_cleanup-Files (cleanup_of env req c) rest w (tt, λ r _. (tt, tt)))

  post_submission_failure-Files :
      (sent : Option String) (c : SendCheckpoint) (e : JmapError) (w : World)
      → Booked c
      → FilesSend (post_submission_failure env req sent c e) w
  unfolding post_submission_failure Filed saved Booked
  post_submission_failure-Files sent c e w b =
      let c' : SendCheckpoint = record c { cache_attempts = c.cache_attempts + 1 } in
      if_split (λ m. FilesSend m w) (ltb (c.cache_attempts + 1) cache_repair_max_attempts)
        (save c' cache_pending (counted env req sent c e)) (retire_unfiled env req sent c e)
        (λ h. (
          tt,
          (
            (
              tt,
              (
                omega (
                  arith,
                  ltb→lt (c.cache_attempts + 1) cache_repair_max_attempts h,
                  b.attempts_kept,
                ),
                refl,
                c',
                read_checkpoint-encode c' b.storable,
                record {
                  email_kept = b.email_kept;
                  submission_kept = b.submission_kept;
                  attempts_kept = omega (arith, b.attempts_kept);
                  storable = b.storable;
                },
              ),
            ),
            λ x. (
              retire_unfiled-Files sent c e w,
              retire_unfiled-Files sent c e (saved c' cache_pending w),
            ),
          ),
        ))
        (λ h. retire_unfiled-Files sent c e w)

  cleaned-Files :
      (mailbox : Option String) (filed : Bool) (c : SendCheckpoint) (e : Option JmapError)
      (w : World)
      → Booked c
      → FilesSend (cleaned env req mailbox filed c e) w
  unfolding Filed
  cleaned-Files mailbox filed c none w b = (tt, tt)
  cleaned-Files mailbox filed c (some e) w b = post_submission_failure-Files mailbox c e w b

  pending_of-AreDraftIds : (c : SendCheckpoint) → Booked c → AreDraftIds (pending_of env req c)
  unfolding Booked
  pending_of-AreDraftIds c b =
      or_well_formed c.pending_draft_destroy_ids (well_formed_draft_email_ids req.draft_email_ids)
        b.storable (well_formed_draft_email_ids-AreDraftIds req.draft_email_ids)

  with_pending-Booked :
      (ids : List String) (c : SendCheckpoint)
      → AreDraftIds ids
      → Booked c
      → Booked (with_pending ids c)
  unfolding Booked
  with_pending-Booked ids c a b = record {
    email_kept = b.email_kept;
    submission_kept = b.submission_kept;
    attempts_kept = b.attempts_kept;
    storable = a;
  }

  destroys-Files :
      (c : SendCheckpoint) (w : World)
      → Booked c
      → Files
          (λ r _. Booked r.checkpoint × Unit)
          (destroy_draft_emails env.set_limit (pending_of env req c) c)
          w
  unfolding AreDraftIds
  destroys-Files c w b =
      let ids : List String = pending_of env req c in
      let a : AreDraftIds ids = pending_of-AreDraftIds c b in
      Within-Ensures (λ _ _. Unit) (λ _. Unit) (λ _ _. Unit) (λ _ _. Unit) (λ _. Unit) (λ _ _. tt)
        (λ _ _ _. tt) (λ _ _ _. tt) (λ _ _ _ _ _. tt) (λ r. Booked r.checkpoint)
        (destroy_draft_emails env.set_limit ids c) w
        (destroy_draft_emails-Within (λ _ _. Unit) Booked AreDraftIds (λ _ _. tt)
          remaining-AreDraftIds with_pending-Booked env.set_limit ids c
          (subst AreDraftIds (sym (to_set_id ids a.1)) a) b)
        tt

  after_filing-Files :
      (mailbox : Option String) (c : SendCheckpoint) (r : Reply Bool) (w : World)
      → Booked c
      → FilesSend (after_filing env req mailbox c r) w
  after_filing-Files mailbox c (failed e) w b = post_submission_failure-Files mailbox c e w b
  after_filing-Files mailbox c (got filed) w b =
      Ensures-bind (λ _. Unit) (λ _ _. Unit) (λ _ _. Unit) (λ r _. Booked r.checkpoint × Unit) _
        (destroy_draft_emails env.set_limit (pending_of env req c) c)
        (after_cleanup env req mailbox filed) w (destroys-Files c w b)
        (λ r w' _ h. cleaned-Files mailbox filed r.checkpoint (caught r.ending) w' h.0)

  file_in-Files :
      (mailbox : Option String) (c : SendCheckpoint) (w : World)
      → Booked c
      → FilesSend (file_in env req mailbox c) w
  file_in-Files mailbox c w b = (
    tt,
    (
      (tt, λ r _. after_filing-Files mailbox c r (saved c cache_pending w) b),
      λ e. (
        post_submission_failure-Files mailbox c e w b,
        post_submission_failure-Files mailbox c e (saved c cache_pending w) b,
      ),
    ),
  )

  scheduled_filing-Files :
      (sent : Option String) (c : SendCheckpoint) (r : Reply (Option String)) (w : World)
      → Booked c
      → FilesSend (scheduled_filing env req sent c r) w
  scheduled_filing-Files sent c (failed e) w b = post_submission_failure-Files sent c e w b
  scheduled_filing-Files sent c (got mailbox) w b = file_in-Files mailbox c w b

  reconcile_sent_locally-Files :
      (sent : Option String) (c : SendCheckpoint) (w : World)
      → Booked c
      → FilesSend (reconcile_sent_locally env req sent c) w
  unfolding reconcile_sent_locally
  reconcile_sent_locally-Files sent checkpoint w b =
      let c : SendCheckpoint = with_pending (pending_of env req checkpoint) checkpoint in
      let b' : Booked c =
        with_pending-Booked _ checkpoint (pending_of-AreDraftIds checkpoint b) b in
      if_intro (λ m. FilesSend m w) (is_some req.scheduled_at)
        (ask scheduled_mailbox_remote_id (scheduled_filing env req sent c)) (file_in env req sent c)
        (tt, λ r _. scheduled_filing-Files sent c r w b') (file_in-Files sent c w b')

  after_folders-Files :
      (c : SendCheckpoint) (r : Reply (List (Option String))) (w : World)
      → Booked c
      → FilesSend (after_folders env req c r) w
  after_folders-Files c (failed e) w b = post_submission_failure-Files none c e w b
  after_folders-Files c (got folders) w b = reconcile_sent_locally-Files _ c w b

  pub resume_cache_reconciliation-Files :
      (c : SendCheckpoint) (w : World)
      → IsBooked email submission k c
      → is_some (truthy email) ≡ true
      → is_some (truthy submission) ≡ true
      → FilesSend (resume_cache_reconciliation env req c) w
  unfolding resume_cache_reconciliation Booked
  resume_cache_reconciliation-Files c w b he hs =
      if_split (λ m. FilesSend m w)
        (is_some (truthy c.email_remote_id) && is_some (truthy c.submission_remote_id))
        (ask (resolve_folder_remote_ids (req.sent_folder_id ∷ req.drafts_folder_id ∷ []))
          (after_folders env req c))
        (park_unknown c >> pure (ambiguous (outcome_unknown (some "incompleteCheckpoint"))))
        (λ _. (tt, λ r _. after_folders-Files c r w b))
        (λ h. absurd (
          incomplete (is_some (truthy c.email_remote_id)) (is_some (truthy c.submission_remote_id))
            (ap (λ o. is_some (truthy o)) b.email_kept ∙ he)
            (ap (λ o. is_some (truthy o)) b.submission_kept ∙ hs) h))
