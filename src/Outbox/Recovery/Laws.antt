-- ===== src/Outbox/Recovery/Laws.antt =====
-- What recovery decides for each row, and what it keeps.
use stormbox.Base.{
  ℕ, false, ◌&&◌, List, [], ◌∷◌, none, some, nat_eq, if◌then◌else◌, update_where, map, ◌≡◌, refl,
  arith, Bool-cases, inl, inr, ◌⊎◌, ap,
}
use stormbox.Outbox.Vocabulary.{pending, conflicted, status_eq, type_eq, phase_eq}
use stormbox.Outbox.Store.{Row}
use stormbox.Outbox.Recovery.{
  RecoveryOptions, is_nil, interrupted, is_stranded, is_ambiguous, requeue_stranded,
  recover_stranded,
}

-- The decision for one row, as the comment above `recoverStranded` words it.
unfoldable pub reclaim : RecoveryOptions → ℕ → Row → Row
reclaim o now r =
    if is_stranded o r
    then if is_ambiguous o r
      then record r { local_status = conflicted; error_json = some interrupted; updated_at = now }
      else record r { local_status = pending; not_before = none; updated_at = now }
    else r

-- One row through both statements, where the first one runs.
reclaim_guarded :
    (o : RecoveryOptions) (now : ℕ) (r : Row)
    → (let parked =
          if is_stranded o r && is_ambiguous o r
          then record r {
            local_status = conflicted;
            error_json = some interrupted;
            updated_at = now;
          }
          else r in
        if is_stranded o parked
        then record parked { local_status = pending; not_before = none; updated_at = now }
        else parked)
      ≡ reclaim o now r
unfolding reclaim
reclaim_guarded o now r = elim (Bool-cases (is_stranded o r)) [
  | inl s ↦ elim (Bool-cases (is_ambiguous o r)) [ inl a ↦ ground arith | inr a ↦ ground arith ]
  | inr s ↦ ground arith
]

-- One row through the second statement alone.
reclaim_unguarded :
    (o : RecoveryOptions) (now : ℕ) (r : Row)
    → o.unsafe_to_replay_types ≡ []
    → (if is_stranded o r
        then record r { local_status = pending; not_before = none; updated_at = now }
        else r)
      ≡ reclaim o now r
unfolding reclaim
reclaim_unguarded o now r e = ground arith

guarded_map :
    (o : RecoveryOptions) (now : ℕ) (rows : List Row)
    → requeue_stranded o now (
        update_where
          (λ r. is_stranded o r && is_ambiguous o r)
          (λ r. record r {
            local_status = conflicted;
            error_json = some interrupted;
            updated_at = now;
          })
          rows)
      ≡ map (reclaim o now) rows
unfolding requeue_stranded
guarded_map o now [] = refl
guarded_map o now (r ∷ rows) = λ i. reclaim_guarded o now r i ∷ guarded_map o now rows i

unguarded_map :
    (o : RecoveryOptions) (now : ℕ) (rows : List Row)
    → o.unsafe_to_replay_types ≡ []
    → requeue_stranded o now rows ≡ map (reclaim o now) rows
unfolding requeue_stranded
unguarded_map o now [] e = refl
unguarded_map o now (r ∷ rows) e = λ i. reclaim_unguarded o now r e i ∷ unguarded_map o now rows e i

list_cases {ℓ} : {A : Type ℓ} (xs : List A) → (xs ≡ []) ⊎ (is_nil xs ≡ false)
list_cases [] = inl refl
list_cases (x ∷ xs) = inr refl

-- The two UPDATE statements together decide each row by itself.
pub recover_stranded-eq-map :
    (o : RecoveryOptions) (now : ℕ) (rows : List Row)
    → recover_stranded o now rows ≡ map (reclaim o now) rows
unfolding recover_stranded
recover_stranded-eq-map o now rows = elim (list_cases o.unsafe_to_replay_types) [
  | inl e ↦ rw (ap is_nil e) (unguarded_map o now rows e)
  | inr e ↦ rw e (guarded_map o now rows)
]
