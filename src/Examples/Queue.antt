-- ===== src/Examples/Queue.antt =====
-- The outbox at concrete rows: recovery, lanes, attempts.
use stormbox.Base.{
  contains, ◌∙◌, inl, inr, ap, sym, subst, true, not, ◌&&◌, ℕ, String, false, List, [], ◌∷◌, Option,
  none, some, All, map, ◌≡◌, ◌≢◌, ◌↔◌, refl, nat_eq, ◌+◌, arith,
}
use stormbox.Outbox.Vocabulary.{
  MutationStatus, pending, in_flight, conflicted, MutationPhase, submitting, submitted,
  MutationType, send, save_draft, set_keywords, type_eq, status_eq, phase_eq,
}
use stormbox.Outbox.Store.{Row}
use stormbox.Outbox.Recovery.{interrupted, is_stranded, recover_stranded}
use stormbox.Outbox.Recovery.Laws.{reclaim, recover_stranded-eq-map}
use stormbox.Outbox.Recovery.Outcomes.{
  backend_options, recover_stranded-send, recover_stranded-none_stranded,
}
use stormbox.Outbox.Lanes.{
  ParsedSession, no_text, text, lane, draft_session_id, has_draft_session, is_contact_write,
  is_identity_write, is_settings_write, is_subscription_write,
}
use stormbox.Outbox.Lanes.Chains.{
  Task, Event, dispatched, starts, settles, cleans, idle, run, step, dispatch, start, settle, clean,
  can_settle,
}
use stormbox.Outbox.Lanes.Sound.{In}
use stormbox.Outbox.Lanes.Laws.{
  is_account_write, IsPlain, IsDraft, lane-eq_iff_plain, lane-eq_iff_draft, lane-draft-ne-plain,
}
use stormbox.Outbox.Lanes.Order.{run-InOrder, run-exclusive}
use stormbox.Outbox.Lanes.Progress.{CanMove, run-progress}

abbrev row_of : ℕ → MutationType → MutationStatus → Option MutationPhase → ℕ → Row
row_of id type status phase message = record {
  id = id;
  account_id = 7;
  mutation_type = type;
  local_status = status;
  target_message_id = some message;
  phase = phase;
  request_json = "{}";
  error_json = none;
  attempts = 1;
  not_before = none;
  last_attempt_at = none;
  created_at = 10 + id;
  updated_at = 10 + id;
}

abbrev stuck_send : Row
stuck_send = row_of 1 send in_flight (some submitting) 40

abbrev accepted_send : Row
accepted_send = row_of 2 send in_flight (some submitted) 41

abbrev stuck_flag : Row
stuck_flag = row_of 3 set_keywords in_flight none 42

recover_stranded-send_example :
    recover_stranded (backend_options 7) 100 (stuck_send ∷ stuck_flag ∷ [])
    ≡ record stuck_send {
      local_status = conflicted;
      error_json = some interrupted;
      updated_at = 100;
    }
      ∷ recover_stranded (backend_options 7) 100 (stuck_flag ∷ [])
recover_stranded-send_example =
    recover_stranded-send 7 100 stuck_send (stuck_flag ∷ []) refl refl refl refl

-- An accepted send is resumed, not sent again.
accepted_send_resumes :
    recover_stranded (backend_options 7) 100 (accepted_send ∷ [])
    ≡ record accepted_send { local_status = pending; updated_at = 100 } ∷ []
unfolding recover_stranded
accepted_send_resumes = refl

recover_stranded-none_stranded_example :
    All
      (λ r. is_stranded (backend_options 7) r ≡ false)
      (recover_stranded (backend_options 7) 100 (stuck_send ∷ accepted_send ∷ stuck_flag ∷ []))
recover_stranded-none_stranded_example =
    recover_stranded-none_stranded (backend_options 7) 100
      (stuck_send ∷ accepted_send ∷ stuck_flag ∷ [])

recover_stranded-eq-map_example :
    recover_stranded (backend_options 7) 100 (stuck_send ∷ stuck_flag ∷ [])
    ≡ map (reclaim (backend_options 7) 100) (stuck_send ∷ stuck_flag ∷ [])
recover_stranded-eq-map_example =
    recover_stranded-eq-map (backend_options 7) 100 (stuck_send ∷ stuck_flag ∷ [])

-- No request names a draft session, and every request does.
abbrev no_session : String → ParsedSession
no_session json = no_text

abbrev session_a : String
session_a = "a"

abbrev in_session_a : String → ParsedSession
in_session_a json = text session_a

abbrev first_flag : Row
first_flag = row_of 4 set_keywords pending none 50

abbrev second_flag : Row
second_flag = row_of 5 set_keywords pending none 50

abbrev other_flag : Row
other_flag = row_of 6 set_keywords pending none 51

abbrev draft : Row
draft = row_of 8 save_draft pending none 50

-- The first and the last row run, and the second is chained behind the first.
abbrev wave : List Event
wave =
    dispatched first_flag
    ∷ dispatched second_flag
    ∷ dispatched other_flag
    ∷ starts 0
    ∷ starts 1
    ∷ starts 2
    ∷ []

abbrev task_from : ℕ → Row → Option ℕ → Task
task_from id row prev = record { id = id; row = row; prev = prev }

-- The first row settles, and its lock stays, since the second row has taken it; then the second
-- row starts.
abbrev onward : List Event
onward =
    dispatched first_flag
    ∷ dispatched second_flag
    ∷ dispatched other_flag
    ∷ starts 0
    ∷ starts 1
    ∷ settles 0
    ∷ cleans 0
    ∷ starts 1
    ∷ []

wave_started : (run no_session wave idle).started ≡ 2 ∷ 0 ∷ []
unfolding run step dispatch start settle clean lane draft_session_id has_draft_session
    is_contact_write is_identity_write is_settings_write is_subscription_write
wave_started = refl

wave_tasks :
    (run no_session wave idle).tasks
    ≡ task_from 2 other_flag none
      ∷ task_from 1 second_flag (some 0)
      ∷ task_from 0 first_flag none
      ∷ []
unfolding run step dispatch start settle clean lane draft_session_id has_draft_session
    is_contact_write is_identity_write is_settings_write is_subscription_write
wave_tasks = refl

onward_started : (run no_session onward idle).started ≡ 1 ∷ 0 ∷ []
unfolding run step dispatch start settle clean lane draft_session_id has_draft_session
    is_contact_write is_identity_write is_settings_write is_subscription_write
onward_started = refl

onward_tasks :
    (run no_session onward idle).tasks
    ≡ task_from 2 other_flag none
      ∷ task_from 1 second_flag (some 0)
      ∷ task_from 0 first_flag none
      ∷ []
unfolding run step dispatch start settle clean lane draft_session_id has_draft_session
    is_contact_write is_identity_write is_settings_write is_subscription_write
onward_tasks = refl

one_lane : lane no_session second_flag ≡ lane no_session first_flag
unfolding lane draft_session_id has_draft_session is_contact_write is_identity_write
    is_settings_write is_subscription_write
one_lane = refl

run-InOrder_example : contains (run no_session onward idle).settled 0 ≡ true
run-InOrder_example =
    run-InOrder no_session onward (task_from 1 second_flag (some 0)) (task_from 0 first_flag none)
      (subst (In (task_from 1 second_flag (some 0))) (sym onward_tasks) (inr (inl refl)))
      (subst (In (task_from 0 first_flag none)) (sym onward_tasks) (inr (inr (inl refl)))) one_lane
      (omega arith) (ap (λ l. contains l 1) onward_started)

wave_settled : (run no_session wave idle).settled ≡ []
unfolding run step dispatch start settle clean lane draft_session_id has_draft_session
    is_contact_write is_identity_write is_settings_write is_subscription_write
wave_settled = refl

first_runs : can_settle (run no_session wave idle) 0 ≡ true
first_runs =
    ap (λ l. contains l 0 && not (contains (run no_session wave idle).settled 0)) wave_started
    ∙ ap (λ l. not (contains l 0)) wave_settled

first_task : In (task_from 0 first_flag none) (run no_session wave idle).tasks
first_task = subst (In (task_from 0 first_flag none)) (sym wave_tasks) (inr (inr (inl refl)))

run-exclusive_example : task_from 0 first_flag none ≡ task_from 0 first_flag none
run-exclusive_example =
    run-exclusive no_session wave (task_from 0 first_flag none) (task_from 0 first_flag none)
      first_task first_task refl first_runs first_runs

run-progress_example :
    (v : Task) × CanMove no_session (run no_session wave idle) (task_from 1 second_flag (some 0)) v
run-progress_example =
    run-progress no_session wave (task_from 1 second_flag (some 0))
      (subst (In (task_from 1 second_flag (some 0))) (sym wave_tasks) (inr (inl refl)))
      (ap (λ l. contains l 1) wave_settled)

first_flag-IsPlain : IsPlain no_session first_flag
unfolding is_account_write draft_session_id is_contact_write is_identity_write is_settings_write
    is_subscription_write has_draft_session
first_flag-IsPlain = record { not_account = refl; no_session = refl }

second_flag-IsPlain : IsPlain no_session second_flag
unfolding is_account_write draft_session_id is_contact_write is_identity_write is_settings_write
    is_subscription_write has_draft_session
second_flag-IsPlain = record { not_account = refl; no_session = refl }

draft-IsDraft : IsDraft in_session_a draft session_a
unfolding is_account_write draft_session_id is_contact_write is_identity_write is_settings_write
    is_subscription_write has_draft_session
draft-IsDraft = record { not_account = refl; in_session = refl }

first_flag-IsPlain_beside : IsPlain in_session_a first_flag
unfolding is_account_write draft_session_id is_contact_write is_identity_write is_settings_write
    is_subscription_write has_draft_session
first_flag-IsPlain_beside = record { not_account = refl; no_session = refl }

lane-eq_iff_plain_example : (lane no_session first_flag ≡ lane no_session second_flag) ↔ (
    (first_flag.target_message_id ≡ second_flag.target_message_id)
    × ((first_flag.target_message_id ≡ none) → first_flag.id ≡ second_flag.id))
lane-eq_iff_plain_example =
    lane-eq_iff_plain no_session first_flag second_flag first_flag-IsPlain second_flag-IsPlain

lane-eq_iff_draft_example : (lane in_session_a draft ≡ lane in_session_a draft) ↔ (
    (draft.target_message_id ≡ draft.target_message_id)
    × ((draft.target_message_id ≡ none) → session_a ≡ session_a))
lane-eq_iff_draft_example =
    lane-eq_iff_draft in_session_a draft draft session_a session_a draft-IsDraft draft-IsDraft

lane-draft-ne-plain_example : lane in_session_a draft ≢ lane in_session_a first_flag
lane-draft-ne-plain_example =
    lane-draft-ne-plain in_session_a draft first_flag session_a draft-IsDraft
      first_flag-IsPlain_beside
