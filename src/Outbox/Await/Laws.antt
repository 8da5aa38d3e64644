-- ===== src/Outbox/Await/Laws.antt =====
-- No caller of `runMutation` waits for a settled row, and what `stop` tells those that wait.
use stormbox.Base.{
  ◌++◌, ℕ, Bool, true, false, not, List, [], ◌∷◌, Option, none, some, ◌==◌, nat_eq, contains,
  if◌then◌else◌, ◌≡◌, refl, arith, Bool-cases, inl, inr, All, All-append, ◌↔◌, beq_true, subst, sym,
  delete_where, if_intro, All-map, map,
}
use text.Mathlib.TextEquality.{eq_iff}
use stormbox.Outbox.Vocabulary.{MutationStatus, conflicted, failed, MutationType, type_eq}
use stormbox.Outbox.Store.{Row, load_row, clear_backoff, waits_as, eligible}
use stormbox.Outbox.Store.Laws.{is_live, is_live_status, find-is_live, update-is_live}
use stormbox.Outbox.Runner.{
  RunnerOptions, Outcome, Awaiter, World, resolve_awaiters, plain_outcome, awaits,
}
use stormbox.Outbox.Runner.Promises.{Served, AllServed}
use stormbox.Outbox.Await.{
  Summary, stopped_error, stop, summary_of, first_answer, register, recheck, await_mutation,
  begin_wait, answered,
}

-- Every row, and every row but one.
abbrev pub every : ℕ → Bool
every j = true

abbrev every_but : ℕ → ℕ → Bool
every_but id j = not (j == id)

-- Promises of other rows have a row that the runner works on.
others-Served :
    (id : ℕ) (rows : List Row) (us : List Awaiter)
    → All (Served (every_but id) rows) us
    → All (Served every rows) (delete_where (awaits id) us)
others-Served id rows [] s = tt
others-Served id rows (a ∷ us) s = elim (Bool-cases (awaits id a)) [
  | inl e ↦ rw (e, if◌then◌else◌) (others-Served id rows us s.1)
  | inr e ↦ rw (e, if◌then◌else◌) ((λ k. s.0 (ground (arith, e))), others-Served id rows us s.1)
]

All-Served :
    (id : ℕ) (rows : List Row) (us : List Awaiter)
    → is_live id rows ≡ true
    → All (Served (every_but id) rows) us
    → All (Served every rows) us
All-Served id rows us live = All-map _ _ us (λ a s k. elim (Bool-cases (a.mutation_id == id)) [
  | inl e ↦ subst (λ j. is_live j rows ≡ true) (sym (beq_true a.mutation_id id e)) live
  | inr e ↦ s (ground (arith, e))
])

resolved_served :
    (id : ℕ) (outcome : Outcome) (w : World)
    → AllServed (every_but id) w
    → AllServed every (resolve_awaiters id outcome w)
unfolding resolve_awaiters
resolved_served id outcome w s = others-Served id w.rows w.awaiters s

recheck_status :
    (account id : ℕ) (w : World) (x : Row) (st : MutationStatus)
    → load_row account id w.rows ≡ some x
    → x.local_status ≡ st
    → AllServed (every_but id) w
    → AllServed every (recheck id (some x) w)
unfolding recheck
recheck_status account id w x conflicted e f s = rw f (resolved_served id _ w s)
recheck_status account id w x failed e f s = rw f (resolved_served id _ w s)
recheck_status account id w x st e f s = rw f (
    All-Served id w.rows w.awaiters
      (find-is_live account id w.rows x e (subst (λ t. is_live_status t ≡ true) (sym f) refl)) s)

-- The read after the registration mends whatever happened to the row before it.
recheck-AllServed :
    (account id : ℕ) (w : World) (x : Option Row)
    → load_row account id w.rows ≡ x
    → AllServed (every_but id) w
    → AllServed every (recheck id x w)
unfolding recheck
recheck-AllServed account id w none e s = resolved_served id (plain_outcome true none) w s
recheck-AllServed account id w (some x) e s = recheck_status account id w x x.local_status e refl s

-- What a task that runs during an await may do to the promises.
abbrev Keeps : ((ℕ → Bool) → World → Type 0) → (World → World) → Type 0
Keeps P f = (p : ℕ → Bool) (w : World) → P p w → P p (f w)

clear_backoff_served :
    (account id now : ℕ) (w : World)
    → AllServed every w
    → AllServed every (record w { rows = clear_backoff account id now w.rows })
unfolding clear_backoff
clear_backoff_served account id now w s =
    All-map _ _ w.awaiters
      (λ a f k.
        update-is_live (waits_as account id) (eligible now) a.mutation_id w.rows
          (λ r i j. ground (arith, i, j)) (f k))
      s

register_served :
    (id ticket : ℕ) (t : MutationType) (w : World)
    → AllServed every w
    → AllServed (every_but id) (register id ticket t w)
register_served id ticket t w s =
    All-append _ w.awaiters _ (All-map _ _ w.awaiters (λ a f k. f refl) s)
      ((λ k. absurd (ground (arith, k))), tt)

-- The world that `await_mutation` gives, once it has registered.
waited_served :
    (o : RunnerOptions) (id ticket now : ℕ) (during_update during_read : World → World) (row : Row)
    (w : World)
    → Keeps AllServed during_update
    → Keeps AllServed during_read
    → AllServed every w
    → AllServed every (begin_wait o id ticket now during_update during_read (some row) w).0
waited_served o id ticket now during_update during_read row w ku kr s =
    let w1 = during_update (record w { rows = clear_backoff o.account_id id now w.rows }) in
    let s1 : AllServed every w1 =
      ku every (record w { rows = clear_backoff o.account_id id now w.rows })
        (clear_backoff_served o.account_id id now w s) in
    let w2 = during_read (register id ticket row.mutation_type w1) in
    let s2 : AllServed every (recheck id (load_row o.account_id id w2.rows) w2) =
      recheck-AllServed o.account_id id w2 (load_row o.account_id id w2.rows) refl (
        kr (every_but id) (register id ticket row.mutation_type w1)
          (register_served id ticket row.mutation_type w1 s1)) in
    if_intro (λ (z : World × Option Summary). AllServed every z.0) w1.stopped _ _ s1 s2

-- No caller waits for ever because its row settled while it was asking: if each promise had a row
-- that is queued or in flight, each still has one after the call, also when other tasks settle rows
-- between its reads.
pub await_mutation-AllServed :
    (o : RunnerOptions) (id ticket now : ℕ) (during_update during_read : World → World) (w : World)
    → Keeps AllServed during_update
    → Keeps AllServed during_read
    → AllServed every w
    → AllServed every (await_mutation o id ticket now during_update during_read w).0
unfolding await_mutation
await_mutation-AllServed o id ticket now during_update during_read w ku kr s =
    by_answer (load_row o.account_id id w.rows) (first_answer (load_row o.account_id id w.rows))
  where
    by_answer :
        (row : Option Row) (a : Option Summary)
        → AllServed every
            (answered a w (begin_wait o id ticket now during_update during_read row w)).0
    by_answer row (some summary) = s
    by_answer none none = s
    by_answer (some row) none =
        waited_served o id ticket now during_update during_read row w ku kr s

-- The answers that waiting callers get: one to each ticket, in order, of one failure, with an unknown
-- outcome exactly if the mutation is of a type that must not be replayed.
abbrev pub AreTold : RunnerOptions → List Awaiter → List (ℕ × Outcome) → Type 0
AreTold o [] [] = Unit
AreTold o (a ∷ us) ((ticket, outcome) ∷ told) =
    (ticket ≡ a.ticket)
    × ((summary_of outcome).failed ≡ 1)
    × ((contains o.unsafe_to_replay_types a.mutation_type ≡ true)
        ↔ ((summary_of outcome).error_type ≡ some "outcomeUnknown"))
    × AreTold o us told
AreTold o _ _ = ⊥

stopped_error-type :
    (o : RunnerOptions) (t : MutationType)
    → ((summary_of (plain_outcome false (some (stopped_error o t)))).failed ≡ 1)
      × ((contains o.unsafe_to_replay_types t ≡ true) ↔ (
          (summary_of (plain_outcome false (some (stopped_error o t)))).error_type
          ≡ some "outcomeUnknown"))
unfolding stopped_error summary_of
stopped_error-type o t = (refl, ground (arith, eq_iff "stopped" "outcomeUnknown"))

stopped-AreTold :
    (o : RunnerOptions) (us : List Awaiter)
    → AreTold o us
        (map (λ a. (a.ticket, plain_outcome false (some (stopped_error o a.mutation_type)))) us)
stopped-AreTold o [] = tt
stopped-AreTold o (a ∷ us) =
    let (one, unknown) = stopped_error-type o a.mutation_type in
    (refl, one, unknown, stopped-AreTold o us)

-- When the runner stops, each caller that waits is told, in order, of one failure, and that the
-- outcome is unknown exactly when its mutation is of a type that must not be replayed; what was told
-- before stays, and nobody waits any more.
pub stop-AreTold :
    (o : RunnerOptions) (w : World)
    → ((stop o w).awaiters ≡ [])
      × ((told : List (ℕ × Outcome)) × ((stop o w).resolved ≡ w.resolved ++ told)
          × AreTold o w.awaiters told)
unfolding stop
stop-AreTold o w = (refl, (_, refl, stopped-AreTold o w.awaiters))
