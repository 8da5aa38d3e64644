-- ===== src/Outbox/Lanes/Progress.antt =====
-- No promise chain waits for ever.
use stormbox.Base.{
  ℕ, zero, suc, ◌<◌, ◌≤◌, String, true, false, List, Option, none, some, ◌≡◌, ◌⊎◌, inl, inr, refl,
  sym, ap, ◌∙◌, subst, arith, nat_eq, string_eq, Bool-cases, contains,
}
use stormbox.Outbox.Lanes.{ParsedSession, lane}
use stormbox.Outbox.Lanes.Chains.{
  Task, Dispatcher, idle, prev_settled, can_start, Event, run, lane_eq, can_settle,
}
use stormbox.Outbox.Lanes.Sound.{In, Behind, Sound}
use stormbox.Outbox.Lanes.Order.{run-Sound}

module _ (parse : String → ParsedSession) where
  -- A row of the lane that is no later, and that runs or may start.
  pub record CanMove (d : Dispatcher) (t v : Task) : Type 0 where
    pub task : In v d.tasks
    pub same_lane : lane parse v.row ≡ lane parse t.row
    pub no_later : v.id ≤ t.id
    pub moves : (can_settle d v.id ≡ true) ⊎ (can_start d v ≡ true)

  can_move :
      (d : Dispatcher) (s : Sound parse d) (n : ℕ) (t : Task)
      → t.id < n
      → In t d.tasks
      → contains d.settled t.id ≡ false
      → (v : Task) × CanMove d t v
  can_move d s zero t h m live = absurd (omega (arith, h))
  can_move d s (suc n) t h m live = elim (Bool-cases (contains d.started t.id)) [
    | inl e ↦ (
      t,
      record {
        task = m;
        same_lane = refl;
        no_later = omega arith;
        moves = inl (rw (e, live) refl);
      },
    )
    | inr e ↦ by (can_move d s n) e t.prev refl (s.behind t m)
  ]
    where
      ready :
          contains d.started t.id ≡ false
          → prev_settled t.prev d.settled ≡ true
          → (v : Task) × CanMove d t v
      ready e f = (
        t,
        record { task = m; same_lane = refl; no_later = omega arith; moves = inr (rw (e, f) refl) },
      )

      by :
          ((v : Task)
            → v.id < n
            → In v d.tasks
            → contains d.settled v.id ≡ false
            → (x : Task) × CanMove d v x)
          → contains d.started t.id ≡ false
          → (p : Option ℕ) → t.prev ≡ p
          → Behind parse d t p
          → (v : Task) × CanMove d t v
      by earlier e none f b = ready e (ap (λ o. prev_settled o d.settled) f)
      by earlier e (some p) f (v, i, same, g, lt) = elim (Bool-cases (contains d.settled p)) [
        | inl k ↦ ready e (ap (λ o. prev_settled o d.settled) f ∙ k)
        | inr k ↦
            let (x, c) =
              earlier v (omega (arith, same, lt, h)) i
                (subst (λ y. contains d.settled y ≡ false) (sym same) k) in
            (
              x,
              record {
                task = c.task;
                same_lane = c.same_lane ∙ g;
                no_later = omega (arith, c.no_later, same, lt);
                moves = c.moves;
              },
            )
      ]

  -- As long as a dispatched row has not settled, some row of its lane, itself or one dispatched
  -- before it, runs or may start: the chains never block each other for ever.
  pub run-progress :
      (es : List Event) (t : Task)
      → In t (run parse es idle).tasks
      → contains (run parse es idle).settled t.id ≡ false
      → (v : Task) × CanMove (run parse es idle) t v
  run-progress es t m live =
      can_move (run parse es idle) (run-Sound parse es) (suc t.id) t (omega arith) m live
