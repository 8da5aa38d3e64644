-- ===== src/Send/Run/Repair.antt =====
-- The attempts at a row whose submission is recorded: each files, and at most two are repeated.
use stormbox.Base.{
  ℕ, zero, suc, ◌≤◌, ◌<◌, ◌+◌, true, String, Option, some, ◌≡◌, ◌⊎◌, inl, inr, refl, sym, subst, ap,
  ◌∙◌, arith, if◌then◌else◌,
}
use stormbox.Outbox.Vocabulary.{MutationPhase, submitted, cache_pending, phase_eq}
use stormbox.Send.Checkpoint.{SendCheckpoint, read_checkpoint, read_phase}
use stormbox.Send.Outcome.{SendOutcome, rejected_retryable, SendError, ambiguous, outcome_unknown}
use stormbox.Send.Program.{Send, pure, truthy}
use stormbox.Send.Program.World.{World, Ending, value, died, Exec}
use stormbox.Send.Program.Rules.{Ensures-Exec}
use stormbox.Send.Program.Returns.{Returns-Exec}
use stormbox.Send.Run.Filing.{
  Environment, SendRequest, is_some, resume_cache_reconciliation, cache_repair_max_attempts,
}
use stormbox.Send.Run.Filing.Ends.{resume_cache_reconciliation-Returns}
use stormbox.Send.Run.Filing.Budget.{IsBooked, Filed, resume_cache_reconciliation-Files}
use stormbox.Send.Run.Once.{row_of}
use stormbox.Send.Run.{run_send, resume, is_unrecognized}

-- The row records an accepted submission: its phase is past it, and its checkpoint reads back with
-- both remote ids, which are not empty, and `k` failed attempts to file.
pub record IsAccepted (email submission : Option String) (k : ℕ) (w : World) : Type 0 where
  pub phase_after : (w.phase ≡ some submitted) ⊎ (w.phase ≡ some cache_pending)
  pub checkpoint : SendCheckpoint
  pub reads : read_checkpoint w.response ≡ some checkpoint
  pub booked : IsBooked email submission k checkpoint
  pub has_email : is_some (truthy email) ≡ true
  pub has_submission : is_some (truthy submission) ≡ true

module _ (account : Option ℕ) (req : SendRequest) (email submission : Option String) where
  -- Such a row is filed and nothing else.
  run_send-filing :
      (env : Environment) (w : World) (c : SendCheckpoint)
      → (w.phase ≡ some submitted) ⊎ (w.phase ≡ some cache_pending)
      → read_checkpoint w.response ≡ some c
      → run_send env (row_of account w) req ≡ resume_cache_reconciliation env req c
  unfolding run_send read_phase
  run_send-filing env w c p r = by_phase p
    where
      runs : Option MutationPhase → Option SendCheckpoint → Send SendOutcome
      runs phase stored =
          if is_unrecognized env (row_of account w) req phase
          then pure (ambiguous (outcome_unknown (some "unrecognizedPhase")))
          else resume env (row_of account w) req (read_phase phase) stored

      by_phase :
          (w.phase ≡ some submitted) ⊎ (w.phase ≡ some cache_pending)
          → runs w.phase (read_checkpoint w.response) ≡ resume_cache_reconciliation env req c
      by_phase (inl h) =
          ap (λ p. runs p (read_checkpoint w.response)) h ∙ ap (runs (some submitted)) r
      by_phase (inr h) =
          ap (λ p. runs p (read_checkpoint w.response)) h ∙ ap (runs (some cache_pending)) r

  -- An attempt at a row whose submission is recorded, if no crash cuts it off and the limit is one
  -- or more, ends with an outcome: the send is confirmed, or it is to be retried, and then the row
  -- stays past its submission with its remote ids and one failed attempt more, of three.
  pub run_send-Filed :
      (k : ℕ) (env : Environment) (w w' : World) (e : Ending SendOutcome)
      → 1 ≤ env.set_limit
      → IsAccepted email submission k w
      → Exec (run_send env (row_of account w) req) w e w'
      → (e ≡ died) ⊎ ((o : SendOutcome) × (e ≡ value o) × Filed email submission k o w')
  run_send-Filed k env w w' e limited a x =
      let m : Send SendOutcome = resume_cache_reconciliation env req a.checkpoint in
      let y : Exec m w e w' =
        subst (λ m. Exec m w e w') (run_send-filing env w a.checkpoint a.phase_after a.reads) x in
      ending e y
        (Returns-Exec m w e w' (resume_cache_reconciliation-Returns env req limited a.checkpoint) y)
    where
      filed :
          (o : SendOutcome)
          → Exec (resume_cache_reconciliation env req a.checkpoint) w (value o) w'
          → Filed email submission k o w'
      filed o y =
          (Ensures-Exec (λ _. Unit) (λ _ _. Unit) (λ _ _. Unit) (Filed email submission k)
            (resume_cache_reconciliation env req a.checkpoint) w (value o) w'
            (resume_cache_reconciliation-Files email submission k env req a.checkpoint w a.booked
              a.has_email a.has_submission)
            y).1

      ending :
          (e : Ending SendOutcome)
          → Exec (resume_cache_reconciliation env req a.checkpoint) w e w'
          → (e ≡ died) ⊎ ((o : SendOutcome) × (e ≡ value o))
          → (e ≡ died) ⊎ ((o : SendOutcome) × (e ≡ value o) × Filed email submission k o w')
      ending e y (inl h) = inl h
      ending e y (inr (o, h)) = inr (
        o,
        h,
        filed o (subst (λ e. Exec (resume_cache_reconciliation env req a.checkpoint) w e w') h y),
      )

  -- So many attempts, one after another, each ended with a retry.
  pub data Retries : ℕ → World → World → Type 0 where
    no_retry : {w : World} → Retries 0 w w
    retried :
        {n : ℕ} {w w' w'' : World} (env : Environment) (error : SendError)
        → 1 ≤ env.set_limit
        → Exec (run_send env (row_of account w) req) w (value (rejected_retryable error)) w'
        → Retries n w' w''
        → Retries (suc n) w w''

  value_inj : (o o' : SendOutcome) → value o ≡ value o' → o ≡ o'
  value_inj o o' h = cc

  after_retry :
      (k : ℕ) (env : Environment) (w w' : World) (error : SendError)
      → 1 ≤ env.set_limit
      → IsAccepted email submission k w
      → Exec (run_send env (row_of account w) req) w (value (rejected_retryable error)) w'
      → (suc k < cache_repair_max_attempts) × IsAccepted email submission (suc k) w'
  unfolding Filed
  after_retry k env w w' error limited a x =
      next (run_send-Filed k env w w' (value (rejected_retryable error)) limited a x)
    where
      next :
          (value (rejected_retryable error) ≡ died)
            ⊎ ((o : SendOutcome) × (value (rejected_retryable error) ≡ value o)
                × Filed email submission k o w')
          → (suc k < cache_repair_max_attempts) × IsAccepted email submission (suc k) w'
      next (inl h) = absurd cc
      next (inr (o, h, f)) =
          let (lt, phase, c, reads, booked) =
            subst (λ o. Filed email submission k o w') (sym (value_inj _ o h)) f in
          (
            lt,
            record {
              phase_after = inr phase;
              checkpoint = c;
              reads = reads;
              booked = booked;
              has_email = a.has_email;
              has_submission = a.has_submission;
            },
          )

  Retries-lt :
      (n k : ℕ) (w w' : World)
      → IsAccepted email submission k w
      → Retries n w w'
      → (n ≡ 0) ⊎ (n + k < cache_repair_max_attempts)
  Retries-lt zero k w w' a r = inl refl
  Retries-lt (suc n) k w w'' a (retried {w' = w'} env error limited x rest) =
      let (lt, a') = after_retry k env w w' error limited a x in
      elim (Retries-lt n (suc k) w' w'' a' rest) [
        | inl h ↦ inr (omega (arith, h, lt))
        | inr h ↦ inr (omega (arith, h))
      ]

  -- Whatever the filing meets, attempts at a row whose submission is recorded end with a retry at most
  -- twice in a row, if the limit is one or more.
  pub Retries-le :
      (n k : ℕ) (w w' : World) → IsAccepted email submission k w → Retries n w w' → n ≤ 2
  Retries-le n k w w' a r = elim (Retries-lt n k w w' a r) [
    | inl h ↦ omega (arith, h)
    | inr h ↦ omega (arith, h)
  ]
