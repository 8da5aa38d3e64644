-- ===== src/Outbox/Lanes/Order.antt =====
-- What the promise chains keep: a row runs only when every earlier row of its lane has settled.
use stormbox.Base.{
  ℕ, ◌<◌, String, true, false, List, [], ◌∷◌, Option, none, some, ◌≡◌, inl, inr, refl, sym, arith,
  nat_eq, string_eq, Bool-cases, contains, ltb, ltb→lt,
}
use stormbox.Outbox.Lanes.{ParsedSession, lane}
use stormbox.Outbox.Lanes.Chains.{
  Task, Dispatcher, idle, Event, dispatched, starts, settles, cleans, task_of, start, clean, step,
  run, lane_eq, can_settle,
}
use stormbox.Outbox.Lanes.Sound.{In, Has, Sound, find-In, idle-Sound, start-Sound, settle-Sound}
use stormbox.Outbox.Lanes.Cleaned.{clean-Sound}
use stormbox.Outbox.Lanes.Dispatched.{dispatch-Sound}

module _ (parse : String → ParsedSession) where
  on_task :
      (P : Dispatcher → Type 0) (f : Option Task → Dispatcher → Dispatcher) (n : ℕ) (d : Dispatcher)
      → P (f none d)
      → ((t : Task) → In t d.tasks → P (f (some t) d))
      → P (f (task_of n d) d)
  on_task P f n d h g = by (task_of n d) refl
    where
      by : (o : Option Task) → task_of n d ≡ o → P (f o d)
      by none e = h
      by (some t) e = g t (find-In n d.tasks t e)

  step-Sound : (e : Event) (d : Dispatcher) → Sound parse d → Sound parse (step parse e d)
  unfolding step start clean
  step-Sound (dispatched r) d s = dispatch-Sound parse d r s
  step-Sound (starts n) d s =
      on_task (λ v. Sound parse v) start n d s (λ t m. start-Sound parse d t s m)
  step-Sound (settles n) d s = settle-Sound parse d n s
  step-Sound (cleans n) d s =
      on_task (λ v. Sound parse v) (clean parse) n d s (λ t m. clean-Sound parse d t s)

  run_from-Sound : (es : List Event) (d : Dispatcher) → Sound parse d → Sound parse (run parse es d)
  unfolding run
  run_from-Sound [] d s = s
  run_from-Sound (e ∷ es) d s = run_from-Sound es (step parse e d) (step-Sound e d s)

  pub run-Sound : (es : List Event) → Sound parse (run parse es idle)
  run-Sound es = run_from-Sound es idle (idle-Sound parse)

  -- Whatever rows are dispatched, and in whatever order promises settle, rows start and the lock map
  -- is cleaned up: once a row has started, every row of its lane that was dispatched before it has
  -- settled.
  pub run-InOrder :
      (es : List Event) (t u : Task)
      → In t (run parse es idle).tasks
      → In u (run parse es idle).tasks
      → lane parse t.row ≡ lane parse u.row
      → u.id < t.id
      → contains (run parse es idle).started t.id ≡ true
      → contains (run parse es idle).settled u.id ≡ true
  run-InOrder es = (run-Sound es).order

  running :
      (d : Dispatcher) (n : ℕ)
      → can_settle d n ≡ true
      → Has d.started n × (contains d.settled n ≡ false)
  running d n h = ground (arith, h)

  -- Two rows of one lane never run at the same time.
  pub run-exclusive :
      (es : List Event) (t u : Task)
      → In t (run parse es idle).tasks
      → In u (run parse es idle).tasks
      → lane parse t.row ≡ lane parse u.row
      → can_settle (run parse es idle) t.id ≡ true
      → can_settle (run parse es idle) u.id ≡ true
      → t ≡ u
  run-exclusive es t u m n e h k =
      let s : Sound parse (run parse es idle) = run-Sound es in
      let (started_t, live_t) = running (run parse es idle) t.id h in
      let (started_u, live_u) = running (run parse es idle) u.id k in
      elim (Bool-cases (ltb u.id t.id)) [
        | inl l ↦ absurd (cc (s.order t u m n e (ltb→lt _ _ l) started_t, live_u))
        | inr l ↦ elim (Bool-cases (ltb t.id u.id)) [
          | inl j ↦ absurd (cc (s.order u t n m (sym e) (ltb→lt _ _ j) started_u, live_t))
          | inr j ↦ s.unique t u m n (ground (arith, l, j))
        ]
      ]
