-- ===== src/Autonomy/Tasks.antt =====
-- glados/autonomy/task_manager.py: `TaskManager.submit` and `_run_task`, and the runner of
-- glados/autonomy/jobs.py, `BackgroundJobScheduler._submit`. The pool's threads interleave: between
-- the calls of one task come the updates of other slots. `shutdown` is not modelled.
pub mod Lifecycle
use glados_docker.Common.{
  Bool, List, Option, String, [], any_of, false, first_some, if◌then◌else◌, none, some, str_append,
  str_eq, strip, ℕ, ◌++◌, ◌∷◌, ◌≡◌,
}
use glados_docker.Autonomy.Slots.{SlotStore, TaskSlot, update_all, update_slot}

pub record TaskResult : Type 0 where
  pub status : String
  pub summary : String
  pub notify_user : Bool
  pub importance : Option ℕ
  pub confidence : Option ℕ
  pub next_run : Option ℕ

-- How a runner ends: with a result, with another value (as its text, empty where it is falsy), or
-- with an exception (as its text).
pub data Outcome : Type 0 where
  returned : TaskResult → Outcome
  said : String → Outcome
  raised : String → Outcome

-- `summary.strip() if summary else "Completed."`
unfoldable pub or_completed : String → String
or_completed s = if str_eq s "" then "Completed." else strip s

unfoldable pub settle : Bool → Outcome → TaskResult
unfolding or_completed
settle notify (returned r) = record r { summary = or_completed r.summary }
settle notify (said s) = record {
  status = "done";
  summary = or_completed s;
  notify_user = notify;
  importance = none;
  confidence = none;
  next_run = none;
}
settle notify (raised exc) = record {
  status = "error";
  summary = str_append "Failed: " exc;
  notify_user = notify;
  importance = none;
  confidence = none;
  next_run = none;
}

pub record TaskUpdateEvent : Type 0 where
  pub slot_id : String
  pub title : String
  pub updated_at : ℕ
  pub result : TaskResult

-- The slots, and the queue of the event bus.
pub record Tasks : Type 0 where
  pub slots : SlotStore
  pub published : List TaskUpdateEvent

abbrev pub note_slot : String → String → String → String → Bool → ℕ → TaskSlot
note_slot sid title status summary notify now = record {
  slot_id = sid;
  title = title;
  status = status;
  summary = summary;
  updated_at = now;
  notify_user = notify;
  importance = none;
  confidence = none;
  next_run = none;
  report = none;
}

abbrev pub result_slot : String → String → ℕ → TaskResult → TaskSlot
result_slot sid title now r = record {
  slot_id = sid;
  title = title;
  status = r.status;
  summary = r.summary;
  updated_at = now;
  notify_user = r.notify_user;
  importance = r.importance;
  confidence = r.confidence;
  next_run = r.next_run;
  report = none;
}

unfoldable pub submit_task : String → String → Bool → ℕ → Tasks → Tasks
unfolding update_slot
submit_task sid title notify now t = record t {
  slots = (update_slot (note_slot sid title "queued" "Waiting to start" notify now) t.slots).1;
}

-- `_run_task` up to the call of the runner.
unfoldable pub begin_task : String → String → Bool → ℕ → Tasks → Tasks
unfolding update_slot
begin_task sid title notify now t = record t {
  slots = (update_slot (note_slot sid title "running" "Working..." notify now) t.slots).1;
}

-- `_run_task` from the runner's end.
unfoldable pub end_task : String → String → Bool → ℕ → Outcome → Tasks → Tasks
unfolding settle update_slot
end_task sid title notify now outcome t =
    let r = settle notify outcome in
    record t {
      slots = (update_slot (result_slot sid title now r) t.slots).1;
      published =
          t.published ++ record { slot_id = sid; title = title; updated_at = now; result = r } ∷ [];
    }

-- The runner that the scheduler submits for a job: a result without a next run gets the
-- scheduler's.
unfoldable pub job_outcome : ℕ → Outcome → Outcome
job_outcome next (returned r) = returned (record r { next_run = first_some r.next_run (some next) })
job_outcome next other = other

abbrev pub other_updates : List TaskSlot → Tasks → Tasks
other_updates us t = record t { slots = update_all us t.slots }

abbrev pub AvoidsSlot : String → List TaskSlot → Type 0
AvoidsSlot sid us = any_of (λ u. str_eq u.slot_id sid) us ≡ false
