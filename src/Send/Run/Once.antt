-- ===== src/Send/Run/Once.antt =====
-- A row is submitted at most once, over all its attempts.
use stormbox.Base.{
  ℕ, ◌≤◌, String, Bool, true, false, not, List, [], ◌∷◌, Option, none, some, ◌≡◌, refl, sym, ap,
  subst, if_split, if◌then◌else◌, string_eq, contains, ◌∙◌,
}
use stormbox.Outbox.Vocabulary.{
  MutationPhase, created, queued, submitting, submitted, cache_pending, unknown, phase_eq,
}
use stormbox.Send.Checkpoint.{
  SendCheckpoint, read_checkpoint, read_mutation_checkpoint, send_phases as send_phase_labels,
  read_phase, new_checkpoint, null_column,
}
use stormbox.Send.Outcome.{SendOutcome}
use stormbox.Send.Program.{Reply, got, failed, Identity, ◌>>=◌, of_reply}
use stormbox.Send.Program.World.{World, Ending, Exec}
use stormbox.Send.Program.Rules.{Ensures-bind, Ensures-Exec}
use stormbox.Send.Program.Within.{Within, Done}
use stormbox.Send.Once.{
  IsUnsubmitted, IsSafe, IsFresh, IsOpen, IsUnrecorded, IsFresh-IsSafe, is_early, is_before,
}
use stormbox.Send.Run.Filing.{
  Environment, SendRow, SendRequest, is_some, resume_cache_reconciliation,
}
use stormbox.Send.Run.Filing.Laws.{resume_cache_reconciliation-Within}
use stormbox.Send.Run.Early.{Early}
use stormbox.Send.Run.Submission.{Late, Anything, Safely, freshly, safely}
use stormbox.Send.Run.Phases.{Fine, send_fresh-Safely, send_open-Safely}
use stormbox.Send.Run.{
  is_submitting, send_rest, send_phases, stored_checkpoint, addressed, identified, send_from,
  resume, run_send, is_unrecognized, save_checkpoint,
}

module _ (env : Environment) (row : SendRow) (req : SendRequest) where
  -- A checkpoint that is read, or a new one, names no submission.
  AllUnsubmitted : Option SendCheckpoint → Type 0
  AllUnsubmitted stored = (c : SendCheckpoint) → stored ≡ some c → IsUnsubmitted c

  stored_checkpoint-Within :
      (identity : Identity) (stored : Option SendCheckpoint)
      → AllUnsubmitted stored
      → Within Early IsUnsubmitted (stored_checkpoint env row req identity stored)
  unfolding save_checkpoint new_checkpoint AllUnsubmitted
  stored_checkpoint-Within identity (some c) u = u c refl
  stored_checkpoint-Within identity none u = (refl, (refl, λ e. tt))

  phases_fresh-Safely :
      (identity : Identity) (rcpt_to : List String) (phase : Option MutationPhase)
      (stored : Option SendCheckpoint) (w : World)
      → is_submitting phase ≡ false
      → AllUnsubmitted stored
      → IsFresh w
      → Safely Fine (send_phases env row req identity rcpt_to phase stored) w
  unfolding send_phases ◌>>=◌
  phases_fresh-Safely identity rcpt_to phase stored w p u f = (IsFresh-IsSafe w f, λ r _. answer r)
    where
      answer :
          (r : Reply (List (Option String)))
          → Safely Fine
              (of_reply r >>= λ folders.
                stored_checkpoint env row req identity stored
                >>= send_rest env row req identity rcpt_to phase folders)
              w
      answer (failed e) = (IsFresh-IsSafe w f, tt)
      answer (got folders) =
          Ensures-bind (λ w. IsSafe w) Anything Anything (λ c' w'. IsUnsubmitted c' × IsFresh w') _
            _ _ w (freshly IsUnsubmitted _ w (stored_checkpoint-Within identity stored u) f)
            (λ c w' _ h.
              send_fresh-Safely env row req identity rcpt_to phase folders c w' p h.0 h.1)

  phases_open-Safely :
      (identity : Identity) (rcpt_to : List String) (c : SendCheckpoint) (w : World)
      → IsUnsubmitted c
      → IsOpen w
      → IsSafe w
      → Safely Fine (send_phases env row req identity rcpt_to (some submitting) (some c)) w
  unfolding send_phases ◌>>=◌
  phases_open-Safely identity rcpt_to c w u o s = (s, λ r _. answer r)
    where
      answer :
          (r : Reply (List (Option String)))
          → Safely Fine
              (of_reply r >>= λ folders.
                send_rest env row req identity rcpt_to (some submitting) folders c)
              w
      answer (failed e) = (s, tt)
      answer (got folders) = send_open-Safely env row req identity rcpt_to folders c w u o

  addressed-Safely :
      (identity : Identity) (rcpt_to : List String) (phase : Option MutationPhase)
      (stored : Option SendCheckpoint) (w : World)
      → IsSafe w
      → Safely Fine (send_phases env row req identity rcpt_to phase stored) w
      → Safely Fine (addressed env row req identity rcpt_to phase stored) w
  addressed-Safely identity [] (some submitting) stored w s h = h
  addressed-Safely identity [] phase stored w s h = (s, (tt, s))
  addressed-Safely identity (r ∷ rs) phase stored w s h = h

  send_from-Safely :
      (phase : Option MutationPhase) (stored : Option SendCheckpoint) (w : World)
      → IsSafe w
      → ((identity : Identity) (rcpt_to : List String)
          → Safely Fine (send_phases env row req identity rcpt_to phase stored) w)
      → Safely Fine (send_from env row req phase stored) w
  unfolding send_from ◌>>=◌
  send_from-Safely phase stored w s h = (s, λ r _. answer r)
    where
      answer :
          (r : Reply (Option Identity))
          → Safely Fine (of_reply r >>= identified env row req phase stored) w
      answer (failed e) = (s, tt)
      answer (got none) = (s, (tt, s))
      answer (got (some identity)) = addressed-Safely identity _ phase stored w s (h identity _)

  IsSafe-IsFresh :
      (w : World) → IsSafe w → is_early w.phase ≡ true → is_before w.phase ≡ true → IsFresh w
  IsSafe-IsFresh w s e b = record {
    none_accepted = s.early e;
    none_trusted = (s.before b).0;
    unrecorded = (s.before b).1;
  }

  early-Safely :
      (phase : Option MutationPhase) (stored : Option SendCheckpoint) (w : World)
      → is_submitting phase ≡ false
      → IsSafe w
      → is_early w.phase ≡ true
      → is_before w.phase ≡ true
      → read_checkpoint w.response ≡ stored
      → Safely Fine (send_from env row req phase stored) w
  unfolding AllUnsubmitted IsUnrecorded
  early-Safely phase stored w p s e b r =
      let f : IsFresh w = IsSafe-IsFresh w s e b in
      send_from-Safely phase stored w s λ identity rcpt_to.
        phases_fresh-Safely identity rcpt_to phase stored w p (λ c h. f.unrecorded c (r ∙ h)) f

  open-Safely :
      (c : SendCheckpoint) (w : World)
      → w.phase ≡ some submitting
      → read_checkpoint w.response ≡ some c
      → IsSafe w
      → Safely Fine (send_from env row req (some submitting) (some c)) w
  unfolding IsUnrecorded
  open-Safely c w e r s =
      let b : (w.trust_queued ≡ 0) × IsUnrecorded w.response = s.before (ap is_before e) in
      let o : IsOpen w = record {
        once = s.once;
        none_trusted = b.0;
        not_early = ap is_early e;
        before = λ _. b.1;
      } in
      send_from-Safely (some submitting) (some c) w s
        λ identity rcpt_to. phases_open-Safely identity rcpt_to c w (b.1 c r) o s

  filing-Safely :
      (c : SendCheckpoint) (w : World)
      → IsSafe w
      → Safely Fine (resume_cache_reconciliation env req c) w
  filing-Safely c w s =
      safely Done _ w (resume_cache_reconciliation-Within Late (λ _. refl) (λ _. refl) env req c) s

  resume-Safely :
      (phase : Option MutationPhase) (stored : Option SendCheckpoint) (w : World)
      → w.phase ≡ phase
      → read_checkpoint w.response ≡ stored
      → is_unrecognized env row req phase ≡ false
      → IsSafe w
      → Safely Fine (resume env row req phase stored) w
  unfolding resume read_phase
  resume-Safely (some unknown) stored w e r k s = (s, (tt, s))
  resume-Safely none stored w e r k s =
      early-Safely none stored w refl s (ap is_early e) (ap is_before e) r
  resume-Safely (some queued) none w e r k s = (s, (tt, s))
  resume-Safely (some queued) (some c) w e r k s =
      early-Safely (some queued) (some c) w refl s (ap is_early e) (ap is_before e) r
  resume-Safely (some created) none w e r k s = (s, (tt, s))
  resume-Safely (some created) (some c) w e r k s =
      early-Safely (some created) (some c) w refl s (ap is_early e) (ap is_before e) r
  resume-Safely (some submitting) none w e r k s = (s, (tt, s))
  resume-Safely (some submitting) (some c) w e r k s = open-Safely c w e r s
  resume-Safely (some submitted) none w e r k s = (s, (tt, s))
  resume-Safely (some submitted) (some c) w e r k s = filing-Safely c w s
  resume-Safely (some cache_pending) none w e r k s = (s, (tt, s))
  resume-Safely (some cache_pending) (some c) w e r k s = filing-Safely c w s
  resume-Safely (some p) stored w e r k s = absurd cc

-- The row as an attempt reads it.
abbrev pub row_of : Option ℕ → World → SendRow
row_of account w = record { account_id = account; phase = w.phase; server_response = w.response }

recognized :
    (env : Environment) (row : SendRow) (req : SendRequest) (p : Option MutationPhase)
    → is_unrecognized env row req p ≡ false
    → read_phase p ≡ p
unfolding read_phase
recognized env row req none k = refl
recognized env row req (some p) k = kept (contains send_phase_labels p) k
  where
    kept :
        (b : Bool)
        → not (is_some (if b then some p else none)) ≡ false
        → (if b then some p else none) ≡ some p
    kept true h = refl
    kept false h = absurd cc

pub run_send-Safely :
    (env : Environment) (account : Option ℕ) (req : SendRequest) (w : World)
    → IsSafe w
    → Safely Fine (run_send env (row_of account w) req) w
unfolding run_send
run_send-Safely env account req w s =
    let row : SendRow = row_of account w in
    if_split (λ m. Safely Fine m w) (is_unrecognized env row req w.phase) _
      (resume env row req (read_phase w.phase) (read_checkpoint w.response)) (λ _. (s, (tt, s)))
      (λ k.
        let e : read_phase w.phase ≡ w.phase = recognized env row req w.phase k in
        resume-Safely env row req (read_phase w.phase) (read_checkpoint w.response) w (sym e) refl
          (subst (λ p. is_unrecognized env row req p ≡ false) (sym e) k) s)

-- Any number of attempts at a row, one after another, each ended by its end or by a crash.
pub data Attempts (account : Option ℕ) (req : SendRequest) : World → World → Type 0 where
  no_more : {w : World} → Attempts account req w w
  attempt :
      {w w' w'' : World} {e : Ending SendOutcome} (env : Environment)
      → Exec (run_send env (row_of account w) req) w e w'
      → Attempts account req w' w''
      → Attempts account req w w''

pub Attempts-IsSafe :
    (account : Option ℕ) (req : SendRequest) (w w' : World)
    → Attempts account req w w'
    → IsSafe w
    → IsSafe w'
Attempts-IsSafe account req w w' no_more s = s
Attempts-IsSafe account req w w' (attempt {w' = v} {e = e} env x rest) s =
    Attempts-IsSafe account req v w' rest
      (Ensures-Exec (λ w. IsSafe w) Anything Anything Fine _ w e v
        (run_send-Safely env account req w s) x).0

null-IsUnrecorded : IsUnrecorded null_column
unfolding IsUnrecorded read_checkpoint read_mutation_checkpoint
null-IsUnrecorded c h = absurd cc

-- Over any number of attempts at the row of a new send, each ended by its end, by an error or by a
-- crash at any await, whether or not a write that failed was made, and whatever the honest server
-- answers: the server accepts at most one submission, the recipients are queued for trust at most
-- once, and nothing is accepted while the row is at a phase before the submission call.
pub Attempts-once :
    (account : Option ℕ) (req : SendRequest) (w w' : World)
    → Attempts account req w w'
    → w.phase ≡ none
    → w.response ≡ null_column
    → w.accepted ≡ 0
    → w.trust_queued ≡ 0
    → (w'.accepted ≤ 1) × (w'.trust_queued ≤ 1) × (is_early w'.phase ≡ true → w'.accepted ≡ 0)
Attempts-once account req w w' a p r n t =
    let s : IsSafe w' = Attempts-IsSafe account req w w' a (
      IsFresh-IsSafe w record {
        none_accepted = n;
        none_trusted = t;
        unrecorded = subst IsUnrecorded (sym r) null-IsUnrecorded;
      }) in
    (s.once, s.trusted_once, s.early)
