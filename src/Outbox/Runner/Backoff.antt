-- ===== src/Outbox/Runner/Backoff.antt =====
-- How long a failed row waits, and how often it is tried.
use stormbox.Base.{
  ℕ, suc, ◌+◌, ◌-◌, ◌*◌, ◌≤◌, ◌<◌, min, true, false, Option, some, ◌≡◌, arith, contains,
}
use native.Mathlib.Nat.{pow-suc}
use stormbox.Outbox.Vocabulary.{MutationType, type_eq}
use stormbox.Outbox.Errors.{JmapError}
use stormbox.Outbox.Store.{Row}
use stormbox.Outbox.Runner.{RunnerOptions, backoff_delay, is_terminal, attempt_limit, thrown_error}

two_less_one : (n : ℕ) → n + 2 - 1 ≡ suc n
two_less_one n = omega arith

one_less_one : (n : ℕ) → n + 1 - 1 ≡ n
one_less_one n = omega arith

-- The first failure waits the base delay, each further one twice as long as the one before it, and
-- none longer than the cap.
pub backoff_delay-doubles :
    (o : RunnerOptions) (n : ℕ)
    → (backoff_delay o 1 ≡ min o.backoff_base_ms o.backoff_cap_ms)
      × (backoff_delay o (n + 2) ≡ min (2 * backoff_delay o (n + 1)) o.backoff_cap_ms)
      × (backoff_delay o n ≤ o.backoff_cap_ms)
unfolding backoff_delay
backoff_delay-doubles o n =
    (omega arith, rw (two_less_one n, one_less_one n, pow-suc 2 n) (omega arith), omega arith)

pub not_terminal-lt_limit :
    (o : RunnerOptions) (t : MutationType) (n : ℕ) (e : Option JmapError)
    → is_terminal o t n e ≡ false
    → n < attempt_limit o t
unfolding is_terminal
not_terminal-lt_limit o t n e h = ground arith

-- A throw while a row of an unsafe type ran is final at the first attempt.
pub thrown-terminal :
    (o : RunnerOptions) (row : Row) (n : ℕ) (err : JmapError)
    → contains o.unsafe_to_replay_types row.mutation_type ≡ true
    → is_terminal o row.mutation_type n (some (thrown_error o row err)) ≡ true
unfolding is_terminal thrown_error
thrown-terminal o row n err h = ground (arith, h)
