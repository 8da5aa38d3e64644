-- ===== src/Outbox/Store/Laws.antt =====
-- What the statements on `pending_mutations` do to the rows.
use stormbox.Base.{
  ℕ, Bool, true, false, ◌&&◌, Option, none, some, ◌≡◌, inl, inr, arith, List, [], ◌∷◌, ◌==◌, nat_eq,
  beq_true, if◌then◌else◌, Bool-cases, find, subst, some_inj, and_true, count_where, any,
  delete_where, update_where,
}
use stormbox.Outbox.Vocabulary.{MutationStatus, type_eq, status_eq, retry, in_flight, pending}
use stormbox.Outbox.Store.{Row, load_row, claim_in_flight, claims, claimed, checked_out}

find-true : (p : Row → Bool) (rows : List Row) (x : Row) → find p rows ≡ some x → p x ≡ true
find-true p [] x h = cc
find-true p (y ∷ rows) x h = elim (Bool-cases (p y)) [
  | inl e ↦
      let same : some y ≡ some x = rw (e, if◌then◌else◌) at h in
      subst (λ z. p z ≡ true) (some_inj y x same) e
  | inr e ↦ find-true p rows x (rw (e, if◌then◌else◌) at h)
]

checked_out-some :
    (row active : Row) (o : Option Row)
    → checked_out row o ≡ some active
    → (o ≡ some active)
      × (active.local_status == in_flight ≡ true)
      × (active.mutation_type == row.mutation_type ≡ true)
checked_out-some row active none h = cc
checked_out-some row active (some x) h =
    elim (Bool-cases ((x.local_status == in_flight) && (x.mutation_type == row.mutation_type))) [
      | inl e ↦
          let same : some x ≡ some active = rw (e, if◌then◌else◌) at h in
          let fits = and_true _ _ e in
          (
            same,
            subst (λ (y : Row). (y.local_status == in_flight) ≡ true) (some_inj x active same)
                fits.0,
            subst (λ (y : Row). (y.mutation_type == row.mutation_type) ≡ true)
                (some_inj x active same) fits.1,
          )
      | inr e ↦ let no_row : none ≡ some active = rw (e, if◌then◌else◌) at h in absurd (cc no_row)
    ]

won_claim :
    (row active : Row) (won : Bool) (o : Option Row)
    → (if won then checked_out row o else none) ≡ some active
    → checked_out row o ≡ some active
won_claim row active true o h = h
won_claim row active false o h = absurd (cc h)

load_row-some :
    (account id : ℕ) (rows : List Row) (x : Row)
    → load_row account id rows ≡ some x
    → (x.account_id ≡ account) × (x.id ≡ id)
unfolding load_row
load_row-some account id rows x h =
    let fits = and_true _ _ (find-true _ rows x h) in
    (beq_true x.account_id account fits.0, beq_true x.id id fits.1)

-- A won claim gives the row of that id, in flight and of the same type.
pub claim_in_flight-some :
    (account attempt ts : ℕ) (row active : Row) (rows : List Row)
    → (claim_in_flight account attempt ts row rows).1 ≡ some active
    → (active.id ≡ row.id)
      × (active.local_status ≡ in_flight)
      × (active.mutation_type ≡ row.mutation_type)
unfolding claim_in_flight
claim_in_flight-some account attempt ts row active rows h =
    let rows' = update_where (claims account row) (claimed attempt ts) rows in
    let c = checked_out-some row active (load_row account row.id rows') (
      won_claim row active (count_where (claims account row) rows == 1)
        (load_row account row.id rows') h) in
    (
      (load_row-some account row.id rows' active c.0).1,
      beq_true active.local_status in_flight c.1,
      beq_true active.mutation_type row.mutation_type c.2,
    )

-- Some row of this id is still to be run or running.
abbrev pub is_live_status : MutationStatus → Bool
is_live_status pending = true
is_live_status retry = true
is_live_status in_flight = true
is_live_status _ = false

abbrev pub is_live : ℕ → List Row → Bool
is_live id = any (λ r. (r.id == id) && is_live_status r.local_status)

-- A statement that keeps live rows live, as far as one id is concerned.
pub update-is_live :
    (p : Row → Bool) (f : Row → Row) (id : ℕ) (rows : List Row)
    → ((r : Row)
        → p r ≡ true
        → ((r.id == id) && is_live_status r.local_status) ≡ true
        → (((f r).id == id) && is_live_status (f r).local_status) ≡ true)
    → is_live id rows ≡ true
    → is_live id (update_where p f rows) ≡ true
update-is_live p f id [] keep h = h
update-is_live p f id (r ∷ rows) keep h = ground (arith, keep r, update-is_live p f id rows keep)

pub delete-is_live :
    (p : Row → Bool) (id : ℕ) (rows : List Row)
    → ((r : Row) → p r ≡ true → (r.id == id) ≡ false)
    → is_live id rows ≡ true
    → is_live id (delete_where p rows) ≡ true
delete-is_live p id [] keep h = h
delete-is_live p id (r ∷ rows) keep h = ground (arith, keep r, delete-is_live p id rows keep)

pub find-is_live :
    (account id : ℕ) (rows : List Row) (x : Row)
    → load_row account id rows ≡ some x
    → is_live_status x.local_status ≡ true
    → is_live id rows ≡ true
unfolding load_row
find-is_live account id [] x h l = cc
find-is_live account id (r ∷ rows) x h l = ground (arith, find-is_live account id rows x)
