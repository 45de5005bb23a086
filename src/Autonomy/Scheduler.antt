-- ===== src/Autonomy/Scheduler.antt =====
-- glados/autonomy/jobs.py: `BackgroundJobScheduler`. A round of the polling loop reads the clock
-- once; between rounds, and inside one, jobs that were submitted may end.
pub mod Spacing
use glados_docker.Common.{
  Bool, Dict, List, String, [], get, if◌then◌else◌, keep, ltb, mem_text, not, or_else, put, str_eq,
  ℕ, ◌+◌, ◌∷◌,
}

pub record JobDefinition : Type 0 where
  pub slot_id : String
  pub title : String
  pub interval_s : ℕ
  pub run_on_start : Bool

-- `_next_run`, `_running`, and what was submitted, the newest first: the job, when, and the next
-- time that it was given.
pub record Scheduler : Type 0 where
  pub next_run : Dict ℕ
  pub running : List String
  pub submitted : List (JobDefinition × ℕ × ℕ)

abbrev pub idle : Scheduler
idle = record { next_run = []; running = []; submitted = [] }

-- The loop of `run` that gives each job its first time.
unfoldable pub start : ℕ → List JobDefinition → Scheduler → Scheduler
start now [] s = s
start now (job ∷ jobs) s =
    let initial = if job.run_on_start then now else now + job.interval_s in
    start now jobs (record s { next_run = put job.slot_id initial s.next_run })

unfoldable pub is_running : String → Scheduler → Bool
is_running slot_id s = mem_text slot_id s.running

-- `_submit`: the job is among the running before the task manager has it.
unfoldable pub submit : ℕ → JobDefinition → ℕ → Scheduler → Scheduler
submit now job next s = record s {
  running = job.slot_id ∷ s.running;
  submitted = (job, now, next) ∷ s.submitted;
}

-- One job in a round of the polling loop.
unfoldable pub poll_job : ℕ → JobDefinition → Scheduler → Scheduler
unfolding is_running submit
poll_job now job s =
    let next = or_else (get job.slot_id s.next_run) (now + job.interval_s) in
    if ltb now next
    then s
    else if is_running job.slot_id s
    then s
    else let scheduled = now + job.interval_s in
      submit now job scheduled (record s { next_run = put job.slot_id scheduled s.next_run })

-- The `finally` of the runner: the job is no longer running.
unfoldable pub finish : String → Scheduler → Scheduler
finish slot_id s = record s { running = keep (λ j. not (str_eq j slot_id)) s.running }

-- A round, without what ends while it goes on.
unfoldable pub poll : ℕ → List JobDefinition → Scheduler → Scheduler
unfolding poll_job
poll now [] s = s
poll now (job ∷ jobs) s = poll now jobs (poll_job now job s)

-- The loop's thread polls one job after another, and the workers' threads end jobs.
pub data Step : Scheduler → Scheduler → Type 0 where
  poll_step : (now : ℕ) (job : JobDefinition) (s : Scheduler) → Step s (poll_job now job s)
  finish_step : (slot_id : String) (s : Scheduler) → Step s (finish slot_id s)

pub data Reach (s : Scheduler) : Scheduler → Type 0 where
  here : Reach s s
  next : {t u : Scheduler} → Reach s t → Step t u → Reach s u
