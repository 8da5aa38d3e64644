-- ===== src/Outbox/Control/Laws.antt =====
-- No request for a drain pass is lost.
use stormbox.Base.{ℕ, ◌+◌, ◌≤◌, ◌<◌, Bool, true, false, List, [], ◌∷◌, ◌≡◌, ◌⊎◌, arith}
use stormbox.Outbox.Control.{
  Control, Event, notified, notify_timer, wake_timer, finished, drained, stopping, wake_scheduled,
  step, run, notify, drain_finishes, notify_timer_fires,
}

-- A request is recorded, and a pass in flight or an armed timer will see it.
abbrev IsArmed : Control → Type 0
IsArmed c = (c.kick_pending ≡ true) × ((c.drain_inflight ≡ true) ⊎ (c.notify_timer ≡ true))

-- A pass has started since there were `n`, the runner was stopped, or the request is armed.
abbrev pub IsServed : ℕ → Control → Type 0
IsServed n c = (n < c.passes) ⊎ (c.stopped ≡ true) ⊎ IsArmed c

step-IsServed :
    (n : ℕ) (c : Control) (e : Event) → n ≤ c.passes → IsServed n c → IsServed n (step c e)
unfolding step
step-IsServed n c (notified immediate) m s = ground arith
step-IsServed n c notify_timer m s = ground arith
step-IsServed n c wake_timer m s = ground arith
step-IsServed n c finished m s = ground arith
step-IsServed n c drained m s = ground arith
step-IsServed n c stopping m s = ground arith
step-IsServed n c (wake_scheduled b) m s = ground arith

step-passes : (c : Control) (e : Event) → c.passes ≤ (step c e).passes
unfolding step
step-passes c (notified immediate) = ground arith
step-passes c _ = ground arith

run-IsServed :
    (n : ℕ) (c : Control) (es : List Event) → n ≤ c.passes → IsServed n c → IsServed n (run c es)
unfolding run
run-IsServed n c [] m s = s
run-IsServed n c (e ∷ es) m s =
    run-IsServed n (step c e) es (omega (arith, step-passes c e)) (step-IsServed n c e m s)

notify-IsServed : (c : Control) (immediate : Bool) → IsServed c.passes (notify immediate c)
unfolding notify
notify-IsServed c immediate = ground arith

notify-passes : (c : Control) (immediate : Bool) → c.passes ≤ (notify immediate c).passes
unfolding notify
notify-passes c immediate = ground arith

-- After a call of `notify`, whatever happens next and in whatever order, a new drain pass has
-- started, or the runner was stopped, or the request is still recorded and a pass in flight or an
-- armed timer is there to serve it.
pub notify-run :
    (c : Control) (immediate : Bool) (es : List Event)
    → IsServed c.passes (run (notify immediate c) es)
notify-run c immediate es =
    run-IsServed c.passes (notify immediate c) es (notify-passes c immediate)
      (notify-IsServed c immediate)

-- An armed request of a running runner is served: the end of the pass in flight starts a new pass,
-- and so does the timer where no pass is in flight.
pub IsArmed-serves :
    (c : Control)
    → c.stopped ≡ false
    → IsArmed c
    → ((c.drain_inflight ≡ true) × ((drain_finishes c).passes ≡ c.passes + 1))
      ⊎ ((c.drain_inflight ≡ false) × ((notify_timer_fires c).passes ≡ c.passes + 1))
unfolding drain_finishes notify_timer_fires
IsArmed-serves c h a = ground arith

-- Two passes never overlap: a new one starts only when none is in flight, or at the end of the one
-- that was.
pub step-single_flight :
    (c : Control) (e : Event)
    → (c.passes < (step c e).passes)
    → ((c.drain_inflight ≡ false) ⊎ (e ≡ finished)) × ((step c e).passes ≡ c.passes + 1)
unfolding step
step-single_flight c (notified immediate) h = ground arith
step-single_flight c _ h = ground arith
