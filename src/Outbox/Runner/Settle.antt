-- ===== src/Outbox/Runner/Settle.antt =====
-- Where an attempt leaves its row, the other rows and the promises.
use stormbox.Base.{
  ℕ, ◌+◌, ◌<◌, true, false, Option, some, ◌≡◌, inl, inr, arith, List, All, All-update_where, map,
  delete_where, map-update_where, map-delete_where, Bool, ◌==◌, nat_eq, Bool-cases, refl,
}
use stormbox.Outbox.Vocabulary.{MutationType, type_eq, status_eq, conflicted, retry}
use stormbox.Outbox.Errors.{JmapError}
use stormbox.Outbox.Store.{Row, parked, retried, mark_retry, mark_conflicted, delete_row}
use stormbox.Outbox.Runner.{
  RunnerOptions, ProcessResult, World, settle, is_terminal, backoff_delay, attempt_limit,
  resolve_awaiters, fire_tally,
}
use stormbox.Outbox.Runner.Backoff.{not_terminal-lt_limit}

abbrev pub ids : List Row → List ℕ
ids = map (λ r. r.id)

abbrev ParkedAs : ℕ → Option JmapError → Row → Type 0
ParkedAs id error x = x.id ≡ id → (x.local_status ≡ conflicted) × (x.error_json ≡ error)

abbrev WaitsAs : ℕ → ℕ → Option JmapError → Row → Type 0
WaitsAs id due error x =
    x.id ≡ id → (x.local_status ≡ retry) × (x.not_before ≡ some due) × (x.error_json ≡ error)

-- No row is lost, and the row is parked with the error.
pub record IsParked (id : ℕ) (error : Option JmapError) (before after : List Row) : Type 0 where
  pub kept : ids after ≡ ids before
  pub parked : All (ParkedAs id error) after

-- No row is lost, and the row waits for its next attempt.
pub record IsWaiting (id due : ℕ) (error : Option JmapError) (before after : List Row)
    : Type 0 where
  pub kept : ids after ≡ ids before
  pub waiting : All (WaitsAs id due error) after

module _ (o : RunnerOptions) (now attempt : ℕ) (t : MutationType) (id : ℕ)
    (error : Option JmapError) (before after : List Row) where
  abbrev pub SettledBy : (ok final : Bool) → Type 0
  SettledBy true final = ids after ≡ delete_where (λ i. i == id) (ids before)
  SettledBy false true = IsParked id error before after
  SettledBy false false =
      IsWaiting id (now + backoff_delay o attempt) error before after
      × (attempt < attempt_limit o t)

-- Where an answer leaves its row: gone, parked with the error, or due again after the backoff with
-- an attempt of its budget left.
abbrev pub IsSettled :
    RunnerOptions → ℕ → ℕ → MutationType → ℕ → ProcessResult → List Row → List Row → Type 0
IsSettled o now attempt t id r before after =
    SettledBy o now attempt t id r.error before after r.ok (is_terminal o t attempt r.error)

module _ (o : RunnerOptions) (now attempt : ℕ) (row : Row) (r : ProcessResult) (w : World) where
  deleted_rows : r.ok ≡ true → (settle o now attempt row r w).rows ≡ delete_row row.id w.rows
  unfolding settle resolve_awaiters fire_tally
  deleted_rows h = rw h

  parked_rows :
      r.ok ≡ false
      → is_terminal o row.mutation_type attempt r.error ≡ true
      → (settle o now attempt row r w).rows ≡ mark_conflicted row.id r.error now w.rows
  unfolding settle resolve_awaiters fire_tally
  parked_rows h k = ground (arith, h, k)

  retried_rows :
      r.ok ≡ false
      → is_terminal o row.mutation_type attempt r.error ≡ false
      → (settle o now attempt row r w).rows
        ≡ mark_retry row.id (now + backoff_delay o attempt) r.error now w.rows
  unfolding settle
  retried_rows h k = ground (arith, h, k)

module _ (id now : ℕ) (e : Option JmapError) (rows : List Row) where
  mark_conflicted-IsParked : IsParked id e rows (mark_conflicted id e now rows)
  unfolding mark_conflicted
  mark_conflicted-IsParked = record {
    kept = map-update_where (λ x. x.id) (λ x. x.id == id) (parked e now) (λ x. refl) rows;
    parked =
        All-update_where (ParkedAs id e) (λ x. x.id == id) (parked e now) rows
          (λ x h k. (refl, refl)) (λ x h k. absurd (ground (arith, h, k)));
  }

  mark_retry-IsWaiting : (due : ℕ) → IsWaiting id due e rows (mark_retry id due e now rows)
  unfolding mark_retry
  mark_retry-IsWaiting due = record {
    kept = map-update_where (λ x. x.id) (λ x. x.id == id) (retried due e now) (λ x. refl) rows;
    waiting =
        All-update_where (WaitsAs id due e) (λ x. x.id == id) (retried due e now) rows
          (λ x h k. (refl, refl, refl)) (λ x h k. absurd (ground (arith, h, k)));
  }

  delete_row-ids : ids (delete_row id rows) ≡ delete_where (λ i. i == id) (ids rows)
  unfolding delete_row
  delete_row-ids = map-delete_where (λ r. r.id) (λ i. i == id) rows

-- A terminal failure parks the row.
pub settle-IsParked :
    (o : RunnerOptions) (now attempt : ℕ) (row : Row) (r : ProcessResult) (w : World)
    → r.ok ≡ false
    → is_terminal o row.mutation_type attempt r.error ≡ true
    → IsParked row.id r.error w.rows (settle o now attempt row r w).rows
settle-IsParked o now attempt row r w h k =
    rw (parked_rows o now attempt row r w h k) (mark_conflicted-IsParked row.id now r.error w.rows)

-- An answer decides where an attempt leaves its row: it deletes it, parks it, or schedules it again
-- within the budget.
pub settle-IsSettled :
    (o : RunnerOptions) (now attempt : ℕ) (row : Row) (r : ProcessResult) (w : World)
    → IsSettled o now attempt row.mutation_type row.id r w.rows (settle o now attempt row r w).rows
settle-IsSettled o now attempt row r w = elim (Bool-cases r.ok) [
  | inl h ↦ rw (deleted_rows o now attempt row r w h, h) (delete_row-ids row.id now r.error w.rows)
  | inr h ↦ elim (Bool-cases (is_terminal o row.mutation_type attempt r.error)) [
    | inl k ↦
        rw (parked_rows o now attempt row r w h k, h, k)
          (mark_conflicted-IsParked row.id now r.error w.rows)
    | inr k ↦
        rw (retried_rows o now attempt row r w h k, h, k)
          (
            mark_retry-IsWaiting row.id now r.error w.rows (now + backoff_delay o attempt),
            not_terminal-lt_limit o row.mutation_type attempt r.error k,
          )
  ]
]
