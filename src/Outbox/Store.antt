-- ===== src/Outbox/Store.antt =====
-- The table `pending_mutations` and the statements that outbox-runner.ts runs on it. The table is
-- a list of rows; a statement is a function of the list. `error_json` holds the error object that
-- the source writes there as JSON text.
pub mod Laws
use stormbox.Base.{
  ℕ, String, Bool, true, false, ◌&&◌, ◌||◌, List, [], ◌∷◌, Option, none, some, ◌==◌, nat_eq, leb,
  ltb, if◌then◌else◌, filter, find, take, update_where, delete_where, count_where,
}
use stormbox.Outbox.Vocabulary.{
  MutationStatus, pending, in_flight, retry, conflicted, MutationPhase, MutationType, status_eq,
  type_eq,
}
use stormbox.Outbox.Errors.{JmapError}

pub record Row : Type 0 where
  pub id : ℕ
  pub account_id : ℕ
  pub mutation_type : MutationType
  pub local_status : MutationStatus
  pub target_message_id : Option ℕ
  pub phase : Option MutationPhase
  pub request_json : String
  pub error_json : Option JmapError
  pub attempts : ℕ
  pub not_before : Option ℕ
  pub last_attempt_at : Option ℕ
  pub created_at : ℕ
  pub updated_at : ℕ

-- `local_status IN ('pending','retry')`.
abbrev is_queued : MutationStatus → Bool
is_queued pending = true
is_queued retry = true
is_queued _ = false

-- `not_before IS NULL OR not_before <= now`.
abbrev is_due : ℕ → Option ℕ → Bool
is_due now none = true
is_due now (some t) = leb t now

abbrev is_ready : ℕ → ℕ → Row → Bool
is_ready account now r =
    (r.account_id == account) && (is_queued r.local_status && is_due now r.not_before)

-- `ORDER BY created_at, id`.
abbrev pub before : Row → Row → Bool
before a b = ltb a.created_at b.created_at || ((a.created_at == b.created_at) && leb a.id b.id)

unfoldable pub insert_by_age : Row → List Row → List Row
insert_by_age r [] = r ∷ []
insert_by_age r (x ∷ xs) =
    let rest = insert_by_age r xs in if before r x then r ∷ x ∷ xs else x ∷ rest

unfoldable pub order_by_age : List Row → List Row
order_by_age [] = []
order_by_age (r ∷ rs) = insert_by_age r (order_by_age rs)

-- `DRAIN_BATCH_SIZE`.
abbrev drain_batch_size : ℕ
drain_batch_size = 50

unfoldable pub load_ready_rows : ℕ → ℕ → List Row → List Row
load_ready_rows account now rows =
    take drain_batch_size (order_by_age (filter (is_ready account now) rows))

unfoldable pub load_row : ℕ → ℕ → List Row → Option Row
load_row account id = find (λ r. (r.account_id == account) && (r.id == id))

-- The guard and the assignment of the claiming UPDATE.
abbrev pub claims : ℕ → Row → Row → Bool
claims account row r =
    (r.id == row.id)
    && ((r.account_id == account)
        && ((r.mutation_type == row.mutation_type) && (r.local_status == row.local_status)))

abbrev pub claimed : ℕ → ℕ → Row → Row
claimed attempts ts r = record r {
  local_status = in_flight;
  attempts = attempts;
  last_attempt_at = some ts;
  updated_at = ts;
}

abbrev pub checked_out : Row → Option Row → Option Row
checked_out row none = none
checked_out row (some current) =
    if (current.local_status == in_flight) && (current.mutation_type == row.mutation_type)
    then some current
    else none

-- The rows after the claim, and the claimed row if this call won it.
unfoldable pub claim_in_flight : ℕ → ℕ → ℕ → Row → List Row → List Row × Option Row
unfolding load_row
claim_in_flight account attempts ts row rows =
    let rows' = update_where (claims account row) (claimed attempts ts) rows in
    (
      rows',
      if count_where (claims account row) rows == 1
          then checked_out row (load_row account row.id rows')
          else none,
    )

abbrev pub retried : ℕ → Option JmapError → ℕ → Row → Row
retried not_before error now r = record r {
  local_status = retry;
  not_before = some not_before;
  error_json = error;
  updated_at = now;
}

unfoldable pub mark_retry : ℕ → ℕ → Option JmapError → ℕ → List Row → List Row
mark_retry id not_before error now = update_where (λ r. r.id == id) (retried not_before error now)

abbrev pub parked : Option JmapError → ℕ → Row → Row
parked error now r = record r { local_status = conflicted; error_json = error; updated_at = now }

unfoldable pub mark_conflicted : ℕ → Option JmapError → ℕ → List Row → List Row
mark_conflicted id error now = update_where (λ r. r.id == id) (parked error now)

unfoldable pub delete_row : ℕ → List Row → List Row
delete_row id = delete_where (λ r. r.id == id)

-- The UPDATE of `_awaitMutation`: the row may run at once.
abbrev pub waits_as : ℕ → ℕ → Row → Bool
waits_as account id r = (r.account_id == account) && ((r.id == id) && is_queued r.local_status)

abbrev pub eligible : ℕ → Row → Row
eligible now r = record r { not_before = none; updated_at = now }

unfoldable pub clear_backoff : ℕ → ℕ → ℕ → List Row → List Row
clear_backoff account id now = update_where (waits_as account id) (eligible now)

-- `SELECT MIN(not_before)` over the queued rows of the account.
abbrev earlier : Option ℕ → Option ℕ → Option ℕ
earlier none b = b
earlier (some a) none = some a
earlier (some a) (some b) = some (if leb a b then a else b)

unfoldable pub next_wake : ℕ → List Row → Option ℕ
next_wake account [] = none
next_wake account (r ∷ rs) =
    let rest = next_wake account rs in
    if (r.account_id == account) && is_queued r.local_status
    then earlier r.not_before rest
    else rest
