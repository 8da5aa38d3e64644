-- ===== src/Outbox/Lanes/Chains.antt =====
-- `_dispatch` of outbox-runner.ts: the lock map and the promise chains, under every order in which
-- promises may settle. `guarded` and its `tail` settle together; a promise is known by a number. The
-- runner is not stopped meanwhile: `stop` waits for its rows and then clears the lock map.
use stormbox.Base.{
  ℕ, ◌+◌, String, Bool, true, false, not, ◌&&◌, List, [], ◌∷◌, Option, none, some, ◌≡◌, refl, ap,
  ◌==◌, Eq, nat_eq, string_eq, beq_refl, beq_true, contains, find, if◌then◌else◌,
}
use stormbox.Outbox.Store.{Row}
use stormbox.Outbox.Lanes.{
  Lane, contacts_trash_document, identity_writes, settings_document, mailbox_subscriptions,
  draft_target, draft_session, row, target, ParsedSession, lane,
}

abbrev pub lane_beq : Lane → Lane → Bool
lane_beq contacts_trash_document contacts_trash_document = true
lane_beq identity_writes identity_writes = true
lane_beq settings_document settings_document = true
lane_beq mailbox_subscriptions mailbox_subscriptions = true
lane_beq (draft_target a) (draft_target b) = a == b
lane_beq (draft_session a) (draft_session b) = a == b
lane_beq (row a) (row b) = a == b
lane_beq (target a) (target b) = a == b
lane_beq _ _ = false

pub lane_beq-true : (a b : Lane) → lane_beq a b ≡ true → a ≡ b
lane_beq-true contacts_trash_document contacts_trash_document h = refl
lane_beq-true identity_writes identity_writes h = refl
lane_beq-true settings_document settings_document h = refl
lane_beq-true mailbox_subscriptions mailbox_subscriptions h = refl
lane_beq-true (draft_target a) (draft_target b) h = ap draft_target (beq_true a b h)
lane_beq-true (draft_session a) (draft_session b) h = ap draft_session (beq_true a b h)
lane_beq-true (row a) (row b) h = ap row (beq_true a b h)
lane_beq-true (target a) (target b) h = ap target (beq_true a b h)
lane_beq-true _ _ h = cc

pub lane_beq_refl : (a : Lane) → lane_beq a a ≡ true
lane_beq_refl contacts_trash_document = refl
lane_beq_refl identity_writes = refl
lane_beq_refl settings_document = refl
lane_beq_refl mailbox_subscriptions = refl
lane_beq_refl (draft_target a) = beq_refl a
lane_beq_refl (draft_session a) = beq_refl a
lane_beq_refl (row a) = beq_refl a
lane_beq_refl (target a) = beq_refl a

instance abbrev pub lane_eq : Eq Lane
lane_eq = record { same = lane_beq; same_self = lane_beq_refl; same_only = lane_beq-true }

-- A dispatched row: the number of its promise, and that of the promise behind which it is chained,
-- which is `none` for `Promise.resolve()`.
pub record Task : Type 0 where
  pub id : ℕ
  pub row : Row
  pub prev : Option ℕ

abbrev pub Locks : Type 0
Locks = Lane → Option ℕ

-- The dispatched rows, the last one first; `_targetLocks`; and the promises whose row has started,
-- that have settled, and whose cleanup has run.
pub record Dispatcher : Type 0 where
  pub tasks : List Task
  pub locks : Locks
  pub next : ℕ
  pub started : List ℕ
  pub settled : List ℕ
  pub cleaned : List ℕ

abbrev pub idle : Dispatcher
idle = record { tasks = []; locks = λ k. none; next = 0; started = []; settled = []; cleaned = [] }

abbrev pub set_lock : Lane → Option ℕ → Locks → Locks
set_lock key promise locks k = if k == key then promise else locks k

abbrev pub holds : Option ℕ → ℕ → Bool
holds none n = false
holds (some m) n = m == n

abbrev pub prev_settled : Option ℕ → List ℕ → Bool
prev_settled none settled = true
prev_settled (some p) settled = contains settled p

-- `_runWithRetry` is called once, after the promise before it.
abbrev pub can_start : Dispatcher → Task → Bool
can_start d t = not (contains d.started t.id) && prev_settled t.prev d.settled

-- The row runs.
abbrev pub can_settle : Dispatcher → ℕ → Bool
can_settle d n = contains d.started n && not (contains d.settled n)

pub data Event : Type 0 where
  dispatched : Row → Event
  starts settles cleans : ℕ → Event

abbrev pub task_of : ℕ → Dispatcher → Option Task
task_of n d = find (λ t. t.id == n) d.tasks

unfoldable pub start : Option Task → Dispatcher → Dispatcher
start none d = d
start (some t) d = if can_start d t then record d { started = t.id ∷ d.started } else d

unfoldable pub settle : ℕ → Dispatcher → Dispatcher
settle n d = if can_settle d n then record d { settled = n ∷ d.settled } else d

module _ (parse : String → ParsedSession) where
  unfoldable pub dispatch : Row → Dispatcher → Dispatcher
  dispatch r d =
      let key = lane parse r in
      record d {
        tasks = record { id = d.next; row = r; prev = d.locks key } ∷ d.tasks;
        locks = set_lock key (some d.next) d.locks;
        next = d.next + 1;
      }

  -- The lock is deleted only if it is still that of the promise.
  unfoldable pub clean : Option Task → Dispatcher → Dispatcher
  clean none d = d
  clean (some t) d =
      let key = lane parse t.row in
      let rest = record d { cleaned = t.id ∷ d.cleaned } in
      if contains d.settled t.id && not (contains d.cleaned t.id)
      then if holds (d.locks key) t.id
        then record rest { locks = set_lock key none d.locks }
        else rest
      else d

  -- An event that cannot happen changes nothing.
  unfoldable pub step : Event → Dispatcher → Dispatcher
  unfolding dispatch start settle clean
  step (dispatched r) d = dispatch r d
  step (starts n) d = start (task_of n d) d
  step (settles n) d = settle n d
  step (cleans n) d = clean (task_of n d) d

  unfoldable pub run : List Event → Dispatcher → Dispatcher
  unfolding step
  run [] d = d
  run (e ∷ es) d = run es (step e d)
