-- ===== src/Outbox/Runner/Promises.antt =====
-- The promises of `runMutation`: each registered one has a row that the runner still works on.
use stormbox.Base.{
  ℕ, ◌+◌, Bool, true, false, Option, none, some, ◌≡◌, inl, inr, arith, List, [], ◌∷◌, All, All-map,
  ◌==◌, nat_eq, if◌then◌else◌, Bool-cases, delete_where, if_false,
}
use stormbox.Outbox.Vocabulary.{MutationStatus, conflicted, type_eq, status_eq}
use stormbox.Outbox.Errors.{JmapError}
use stormbox.Outbox.Store.{
  Row, claim_in_flight, claims, claimed, parked, retried, mark_retry, mark_conflicted, delete_row,
}
use stormbox.Outbox.Store.Laws.{is_live, update-is_live, delete-is_live}
use stormbox.Outbox.Runner.{
  RunnerOptions, ProcessResult, ProcessRow, Awaiter, World, Instants, settle, is_terminal,
  backoff_delay, resolve_awaiters, fire_tally, awaits, after_claim, run_with_retry,
  settle_unclaimed_row, settle_found, plain_outcome, result_of,
}

-- The promises for the rows that `p` selects have a row that is queued or in flight.
abbrev pub Served : (ℕ → Bool) → List Row → Awaiter → Type 0
Served p rows a = p a.mutation_id ≡ true → is_live a.mutation_id rows ≡ true

abbrev pub AllServed : (ℕ → Bool) → World → Type 0
AllServed p w = All (Served p w.rows) w.awaiters

-- `processRow` may write to the table, but a row that it is not asked to settle stays.
abbrev KeepsLive : ProcessRow → Type 0
KeepsLive process =
    (row : Row) (rows : List Row) (id : ℕ)
    → is_live id rows ≡ true
    → is_live id (process row rows).0 ≡ true

module _ (p : ℕ → Bool) where
  Served-mono :
      (rows rows' : List Row) (us : List Awaiter)
      → ((id : ℕ) → is_live id rows ≡ true → is_live id rows' ≡ true)
      → All (Served p rows) us
      → All (Served p rows') us
  Served-mono rows rows' us keep = All-map _ _ us (λ a s k. keep a.mutation_id (s k))

  -- Once the promises of a row are resolved, that row may go.
  Served-resolved :
      (id : ℕ) (rows rows' : List Row) (us : List Awaiter)
      → ((j : ℕ) → (j == id) ≡ false → is_live j rows ≡ true → is_live j rows' ≡ true)
      → All (Served p rows) us
      → All (Served p rows') (delete_where (awaits id) us)
  Served-resolved id rows rows' [] keep s = tt
  Served-resolved id rows rows' (a ∷ us) keep s = elim (Bool-cases (awaits id a)) [
    | inl e ↦ rw (e, if◌then◌else◌) (Served-resolved id rows rows' us keep s.1)
    | inr e ↦
        rw (e, if◌then◌else◌)
          (λ k. keep a.mutation_id e (s.0 k), Served-resolved id rows rows' us keep s.1)
  ]

deleted_live :
    (id : ℕ) (rows : List Row) (j : ℕ)
    → (j == id) ≡ false
    → is_live j rows ≡ true
    → is_live j (delete_row id rows) ≡ true
unfolding delete_row
deleted_live id rows j e h = delete-is_live _ j rows (λ r k. ground (arith, e, k)) h

parked_live :
    (id now : ℕ) (err : Option JmapError) (rows : List Row) (j : ℕ)
    → (j == id) ≡ false
    → is_live j rows ≡ true
    → is_live j (mark_conflicted id err now rows) ≡ true
unfolding mark_conflicted
parked_live id now err rows j e h =
    update-is_live (λ x. x.id == id) (parked err now) j rows (λ r k l. ground (arith, e, k, l)) h

retried_live :
    (id at now : ℕ) (err : Option JmapError) (rows : List Row) (j : ℕ)
    → is_live j rows ≡ true
    → is_live j (mark_retry id at err now rows) ≡ true
unfolding mark_retry
retried_live id at now err rows j h =
    update-is_live (λ x. x.id == id) (retried at err now) j rows (λ r k l. ground (arith, k, l)) h

claimed_live :
    (account attempt ts : ℕ) (row : Row) (rows : List Row) (j : ℕ)
    → is_live j rows ≡ true
    → is_live j (claim_in_flight account attempt ts row rows).0 ≡ true
unfolding claim_in_flight
claimed_live account attempt ts row rows j h =
    update-is_live (claims account row) (claimed attempt ts) j rows (λ r k l. ground (arith, k, l))
      h

-- What one attempt does to the promises, part by part.
module _ (p : ℕ → Bool) (o : RunnerOptions) where
  settle-AllServed :
      (now attempt : ℕ) (row : Row) (r : ProcessResult) (w : World)
      → AllServed p w
      → AllServed p (settle o now attempt row r w)
  unfolding settle resolve_awaiters fire_tally
  settle-AllServed now attempt row r w s = elim (Bool-cases r.ok) [
    | inl h ↦ rw h (Served-resolved p row.id w.rows _ w.awaiters (deleted_live row.id w.rows) s)
    | inr h ↦ elim (Bool-cases (is_terminal o row.mutation_type attempt r.error)) [
      | inl k ↦
          rw (h, k)
            (Served-resolved p row.id w.rows _ w.awaiters (parked_live row.id now r.error w.rows) s)
      | inr k ↦
          rw (h, k)
            (Served-mono p w.rows _ w.awaiters
              (retried_live row.id (now + backoff_delay o attempt) now r.error w.rows) s)
    ]
  ]

  found-AllServed :
      (id : ℕ) (x : Option Row) (w : World) → AllServed p w → AllServed p (settle_found id x w)
  unfolding resolve_awaiters
  found-AllServed id none w s = Served-resolved p id w.rows _ w.awaiters (λ j e l. l) s
  found-AllServed id (some x) w s = by_status x.local_status
    where
      by_status :
          (st : MutationStatus)
          → AllServed p (elim st [
            | conflicted ↦ resolve_awaiters id (plain_outcome false x.error_json) w
            | _ ↦ w
          ])
      by_status conflicted = Served-resolved p id w.rows _ w.awaiters (λ j e l. l) s
      by_status _ = s

  after_claim-AllServed :
      (process : ProcessRow) (t : Instants) (row : Row) (active : Option Row) (w : World)
      → KeepsLive process
      → AllServed p w
      → AllServed p (after_claim o process t row active w)
  unfolding settle_unclaimed_row
  after_claim-AllServed process t row none w keep s = found-AllServed row.id _ w s
  after_claim-AllServed process t row (some active) w keep s =
      settle-AllServed t.settled_at (row.attempts + 1) active
        (result_of o active (process active w.rows).1)
        (record w { rows = (process active w.rows).0 })
        (Served-mono p w.rows _ w.awaiters (keep active w.rows) s)

  -- No attempt strands a promise of `runMutation`: if each registered promise had a row that is
  -- queued or in flight, the same holds after the attempt, whatever its outcome, provided that
  -- `processRow` itself takes no live row out of the queue.
  pub run_with_retry-AllServed :
      (process : ProcessRow) (t : Instants) (row : Row) (w : World)
      → KeepsLive process
      → AllServed p w
      → AllServed p (run_with_retry o process t row w)
  unfolding run_with_retry
  run_with_retry-AllServed process t row w keep s = elim (Bool-cases w.stopped) [
    | inl h ↦ rw (h, if◌then◌else◌) s
    | inr h ↦ rw (if_false _ _ h) (
        after_claim-AllServed process t row _ _ keep (
          Served-mono p w.rows _ w.awaiters
            (claimed_live o.account_id (row.attempts + 1) t.claimed_at row w.rows) s))
  ]
