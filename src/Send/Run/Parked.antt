-- ===== src/Send/Run/Parked.antt =====
-- A send as the runner processes it.
use stormbox.Base.{◌+◌, String, true, false, List, some, ◌≡◌, ◌⊎◌, nat_eq, string_eq}
use stormbox.Outbox.Store.{Row}
use stormbox.Outbox.Runner.{
  RunnerOptions, ProcessRow, Instants, returned, run_with_retry, World as RunnerWorld,
}
use stormbox.Outbox.Runner.Settle.{IsParked}
use stormbox.Outbox.Runner.Attempt.{claim, run_with_retry-parks}
use stormbox.Send.Outcome.{SendOutcome, Confirmation, to_process_result}
use stormbox.Send.Outcome.Decided.{answered, is_final, Parks-is_terminal}
use stormbox.Send.Program.World.{World, value, finished, Exec}
use stormbox.Send.Run.Filing.{Environment, SendRow, SendRequest}
use stormbox.Send.Run.{run_send}
use stormbox.Send.Run.Decided.{run_send-Parks}

-- If the runner is not stopped and a send ends as rejected for good, or as one whose fate cannot be
-- known, the attempt that processed its claimed row loses no row that the send left and parks the
-- row as conflicted with the send's error, whatever the server and the writes answered and however
-- many attempts are left.
pub run_send-IsParked :
    (env : Environment) (read : SendRow) (req : SendRequest) (before after : World)
    (outcome : SendOutcome) (text : Confirmation → String) (o : RunnerOptions)
    (process : ProcessRow) (t : Instants) (row active : Row) (w : RunnerWorld) (rows : List Row)
    → Exec (run_send env read req) before (value outcome) after
      ⊎ Exec (run_send env read req) before (finished outcome) after
    → is_final outcome ≡ true
    → w.stopped ≡ false
    → (claim o t row w).1 ≡ some active
    → process active (claim o t row w).0
      ≡ (rows, returned (answered text (to_process_result outcome)))
    → IsParked row.id
        (answered text (to_process_result outcome)).error
        rows
        (run_with_retry o process t row w).rows
run_send-IsParked env read req before after outcome text o process t row active w rows x f h e p =
    let (failed, final) =
      Parks-is_terminal text o active.mutation_type (row.attempts + 1) outcome
        (run_send-Parks env read req before after outcome o active.mutation_type (row.attempts + 1)
          x)
        f in
    run_with_retry-parks o process t row active w rows
      (returned (answered text (to_process_result outcome))) h e p failed final
