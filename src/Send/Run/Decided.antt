-- ===== src/Send/Run/Decided.antt =====
-- The outcomes of a whole send.
use stormbox.Base.{
  ℕ, String, List, [], ◌∷◌, Option, none, some, refl, if_intro, string_eq, inl, inr, ◌⊎◌,
}
use stormbox.Outbox.Vocabulary.{
  MutationType, MutationPhase, queued, submitting, submitted, cache_pending, unknown,
}
use stormbox.Outbox.Errors.Laws.{submission_error-terminal}
use stormbox.Outbox.Runner.{RunnerOptions}
use stormbox.Send.Checkpoint.{SendCheckpoint, read_phase, read_checkpoint}
use stormbox.Send.Outcome.{SendOutcome}
use stormbox.Send.Outcome.Decided.{IsDecided, rejected-IsDecided, Parks, IsDecided-Parks}
use stormbox.Send.Program.{got, failed, Identity, ◌>>=◌}
use stormbox.Send.Program.World.{World, value, finished, Exec}
use stormbox.Send.Program.Gives.{Gives-Exec}
use stormbox.Send.Run.Filing.{Environment, SendRow, SendRequest, folder_at}
use stormbox.Send.Run.Filing.Decides.{
  Decides, reconcile_sent_locally-Decides, resume_cache_reconciliation-Decides,
}
use stormbox.Send.Run.Decides.{Settles, Settles-bind, save_checkpoint-Settles, create_phase-Settles}
use stormbox.Send.Run.Settles.{settle_submitting-Settles, submit_phase-Settles}
use stormbox.Send.Run.{
  stored_checkpoint, send_rest, send_phases, addressed, send_from, resume, run_send,
  is_unrecognized, no_recipients, build_envelope_recipients,
}

module _ (env : Environment) (row : SendRow) (req : SendRequest) where
  send_rest-Decides :
      (identity : Identity) (rcpt_to : List String) (phase : Option MutationPhase)
      (folders : List (Option String)) (c : SendCheckpoint)
      → Decides (send_rest env row req identity rcpt_to phase folders c)
  unfolding send_rest
  send_rest-Decides identity rcpt_to phase folders c =
      Settles-bind IsDecided _ _
        (settle_submitting-Settles env row req phase (folder_at 1 folders) c)
        λ c1. Settles-bind IsDecided _ _ (create_phase-Settles env row req phase _ _ c1) λ c2.
          Settles-bind IsDecided _ _ (submit_phase-Settles env row req identity rcpt_to _ c2)
            λ c3. reconcile_sent_locally-Decides env req (folder_at 1 folders) c3

  send_phases-Decides :
      (identity : Identity) (rcpt_to : List String) (phase : Option MutationPhase)
      (stored : Option SendCheckpoint)
      → Decides (send_phases env row req identity rcpt_to phase stored)
  unfolding send_phases ◌>>=◌
  send_phases-Decides identity rcpt_to phase stored (failed e) = tt
  send_phases-Decides identity rcpt_to phase stored (got folders) =
      Settles-bind IsDecided _ (send_rest env row req identity rcpt_to phase folders)
        (stores stored) (send_rest-Decides identity rcpt_to phase folders)
    where
      stores :
          (stored : Option SendCheckpoint) → Settles (stored_checkpoint env row req identity stored)
      stores (some c) = tt
      stores none = save_checkpoint-Settles _ queued

  no_recipients-IsDecided : IsDecided (no_recipients env row req)
  no_recipients-IsDecided = rejected-IsDecided _ _ (submission_error-terminal "notSubmitted" _)

  addressed-Decides :
      (identity : Identity) (rcpt_to : List String) (phase : Option MutationPhase)
      (stored : Option SendCheckpoint)
      → Decides (addressed env row req identity rcpt_to phase stored)
  addressed-Decides identity [] (some submitting) stored =
      send_phases-Decides identity [] (some submitting) stored
  addressed-Decides identity [] phase stored = no_recipients-IsDecided
  addressed-Decides identity (r ∷ rs) phase stored =
      send_phases-Decides identity (r ∷ rs) phase stored

  send_from-Decides :
      (phase : Option MutationPhase) (stored : Option SendCheckpoint)
      → Decides (send_from env row req phase stored)
  unfolding send_from ◌>>=◌ IsDecided
  send_from-Decides phase stored (failed e) = tt
  send_from-Decides phase stored (got none) = inr refl
  send_from-Decides phase stored (got (some identity)) =
      addressed-Decides identity (build_envelope_recipients env row req) phase stored

  resume-Decides :
      (phase : Option MutationPhase) (stored : Option SendCheckpoint)
      → Decides (resume env row req phase stored)
  unfolding resume IsDecided
  resume-Decides none stored = send_from-Decides none stored
  resume-Decides (some unknown) stored = (refl, refl)
  resume-Decides (some p) none = (refl, refl)
  resume-Decides (some submitted) (some c) = resume_cache_reconciliation-Decides env req c
  resume-Decides (some cache_pending) (some c) = resume_cache_reconciliation-Decides env req c
  resume-Decides (some p) (some c) = send_from-Decides (some p) (some c)

  run_send-Decides : Decides (run_send env row req)
  unfolding run_send IsDecided
  run_send-Decides =
      if_intro Decides (is_unrecognized env row req row.phase) _ _ (refl, refl)
        (resume-Decides (read_phase row.phase) (read_checkpoint row.server_response))

-- Wherever `run_send` returns an outcome, and whatever the server and the writes answered before: the
-- error of a rejection for now has no terminal flag, and a rejection for good and an outcome that
-- cannot be known are terminal for the runner at every attempt and under every bound on attempts,
-- the latter with the type `outcomeUnknown`.
pub run_send-Parks :
    (env : Environment) (row : SendRow) (req : SendRequest) (w w' : World) (outcome : SendOutcome)
    (options : RunnerOptions) (t : MutationType) (attempt : ℕ)
    → Exec (run_send env row req) w (value outcome) w'
      ⊎ Exec (run_send env row req) w (finished outcome) w'
    → Parks options t attempt outcome
run_send-Parks env row req w w' outcome options t attempt (inl x) =
    IsDecided-Parks options t attempt outcome
      (Gives-Exec IsDecided IsDecided _ w (value outcome) w' (run_send-Decides env row req) x)
run_send-Parks env row req w w' outcome options t attempt (inr x) =
    IsDecided-Parks options t attempt outcome
      (Gives-Exec IsDecided IsDecided _ w (finished outcome) w' (run_send-Decides env row req) x)
