-- ===== src/Outbox/Runner/Attempt.antt =====
-- A whole attempt: claim, call, settle.
use stormbox.Base.{
  ◌+◌, true, false, Option, some, ◌≡◌, List, if_false, nat_eq, contains, refl, ap, sym, ◌∙◌, subst,
}
use stormbox.Outbox.Vocabulary.{type_eq}
use stormbox.Outbox.Errors.{JmapError}
use stormbox.Outbox.Store.{Row, claim_in_flight}
use stormbox.Outbox.Store.Laws.{claim_in_flight-some}
use stormbox.Outbox.Runner.{
  RunnerOptions, Processed, is_terminal, threw, thrown_error, ProcessRow, World, result_of,
  Instants, run_claimed, after_claim, run_with_retry,
}
use stormbox.Outbox.Runner.Backoff.{thrown-terminal}
use stormbox.Outbox.Runner.Settle.{IsSettled, settle-IsSettled, settle-IsParked, IsParked}

-- The claim that an attempt makes.
abbrev pub claim : RunnerOptions → Instants → Row → World → List Row × Option Row
claim o t row w = claim_in_flight o.account_id (row.attempts + 1) t.claimed_at row w.rows

module _ (o : RunnerOptions) (process : ProcessRow) (t : Instants) (row active : Row)
    (w : World) where
  run_claimed_lem :
      w.stopped ≡ false
      → (claim o t row w).1 ≡ some active
      → run_with_retry o process t row w
        ≡ run_claimed o process t.settled_at
            (row.attempts + 1)
            active
            (record w { rows = (claim o t row w).0 })
  unfolding run_with_retry
  run_claimed_lem h e =
      if_false _ _ h
      ∙ ap (λ a. after_claim o process t row a (record w { rows = (claim o t row w).0 })) e

  -- While the runner is not stopped, the answer decides where a claimed row is after the attempt. If
  -- it is good, the row is gone, and no other. If it is a failure that is final for the type of the
  -- row and the number of the attempt, no row that the call left is lost, and the row is conflicted
  -- with the error. Otherwise no row that the call left is lost, and the row waits with the error
  -- until the backoff is over, with an attempt of its budget left.
  pub run_with_retry-IsSettled :
      (rows : List Row) (processed : Processed)
      → w.stopped ≡ false
      → (claim o t row w).1 ≡ some active
      → process active (claim o t row w).0 ≡ (rows, processed)
      → IsSettled o t.settled_at
          (row.attempts + 1)
          row.mutation_type
          row.id
          (result_of o active processed)
          rows
          (run_with_retry o process t row w).rows
  run_with_retry-IsSettled rows processed h e p =
      let (same_id, _, same_type) =
        claim_in_flight-some o.account_id (row.attempts + 1) t.claimed_at row active w.rows e in
      rw (run_claimed_lem h e, p, sym same_id, sym same_type)
        (settle-IsSettled o t.settled_at (row.attempts + 1) active (result_of o active processed)
          (record w { rows = rows }))

  -- An answer that failed for good parks the row.
  pub run_with_retry-parks :
      (rows : List Row) (processed : Processed)
      → w.stopped ≡ false
      → (claim o t row w).1 ≡ some active
      → process active (claim o t row w).0 ≡ (rows, processed)
      → (result_of o active processed).ok ≡ false
      → is_terminal o active.mutation_type (row.attempts + 1) (result_of o active processed).error
        ≡ true
      → IsParked row.id
          (result_of o active processed).error
          rows
          (run_with_retry o process t row w).rows
  run_with_retry-parks rows processed h e p failed final =
      let (same_id, _, _) =
        claim_in_flight-some o.account_id (row.attempts + 1) t.claimed_at row active w.rows e in
      rw (run_claimed_lem h e, p, sym same_id)
        (settle-IsParked o t.settled_at (row.attempts + 1) active (result_of o active processed)
          (record w { rows = rows }) failed final)

  -- While the runner is not stopped, when the call for a claimed row of a type that must not be
  -- replayed throws, then, whatever the error, no row that the call left is lost, and the row is
  -- conflicted with the error that the throw is turned into.
  pub run_with_retry-unsafe_throw :
      (rows : List Row) (err : JmapError)
      → w.stopped ≡ false
      → (claim o t row w).1 ≡ some active
      → process active (claim o t row w).0 ≡ (rows, threw err)
      → contains o.unsafe_to_replay_types row.mutation_type ≡ true
      → IsParked row.id
          (some (thrown_error o active err))
          rows
          (run_with_retry o process t row w).rows
  run_with_retry-unsafe_throw rows err h e p u =
      let (_, _, same_type) =
        claim_in_flight-some o.account_id (row.attempts + 1) t.claimed_at row active w.rows e in
      run_with_retry-parks rows (threw err) h e p refl (
        thrown-terminal o active (row.attempts + 1) err
          (subst (λ u. contains o.unsafe_to_replay_types u ≡ true) (sym same_type) u))
