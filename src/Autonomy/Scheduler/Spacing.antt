-- ===== src/Autonomy/Scheduler/Spacing.antt =====
-- No job is started twice at once, and not before its time.
use glados_docker.Common.{
  Bool, List, String, [], arith, eq_iff, false, get, get-put, if◌then◌else◌, keep, leb, mem_text,
  not, or_else, refl, str_eq, true, ℕ, ◌&&◌, ◌+◌, ◌==◌, ◌∷◌, ◌≡◌, ◌≤◌,
}
use glados_docker.Autonomy.Scheduler.{
  JobDefinition, Reach, Scheduler, finish, finish_step, here, next, poll_job, poll_step,
}

abbrev pub counts : String → List String → ℕ
counts sid [] = 0
counts sid (j ∷ js) = if str_eq j sid then counts sid js + 1 else counts sid js

mem-counts : (sid : String) (js : List String) → mem_text sid js ≡ false → counts sid js ≡ 0
mem-counts sid [] h = refl
mem-counts sid (j ∷ js) h = ground (arith, mem-counts sid js)

counts-finish :
    (sid other : String) (js : List String)
    → counts sid (keep (λ j. not (str_eq j other)) js) ≤ counts sid js
counts-finish sid other [] = omega arith
counts-finish sid other (j ∷ js) = ground (arith, counts-finish sid other js)

poll_job-counts :
    (sid : String) (now : ℕ) (job : JobDefinition) (s : Scheduler)
    → counts sid s.running ≤ 1
    → counts sid (poll_job now job s).running ≤ 1
unfolding poll_job
poll_job-counts sid now job s h = ground (arith, mem-counts sid s.running, eq_iff job.slot_id sid)

-- However rounds of the loop and ends of jobs interleave, a job never runs twice at the same time.
pub never_twice :
    {s t : Scheduler} (sid : String)
    → counts sid s.running ≤ 1
    → Reach s t
    → counts sid t.running ≤ 1
unfolding finish
never_twice sid h here = h
never_twice sid h (next r (poll_step now job u)) =
    poll_job-counts sid now job u (never_twice sid h r)
never_twice sid h (next r (finish_step other u)) =
    omega (arith, never_twice sid h r, counts-finish sid other u.running)

-- The time that the newest submission of a slot's jobs set for the next.
abbrev pub due_of : String → List (JobDefinition × ℕ × ℕ) → ℕ
due_of sid [] = 0
due_of sid ((job, at, due) ∷ es) = if str_eq job.slot_id sid then due else due_of sid es

-- Each submission of the slot's jobs, the newest first, is not before the end of the interval that
-- the one before it began.
abbrev pub spaced : String → List (JobDefinition × ℕ × ℕ) → Bool
spaced sid [] = true
spaced sid ((job, at, due) ∷ es) =
    (if str_eq job.slot_id sid then leb (due_of sid es) at && due == at + job.interval_s else true)
    && spaced sid es

abbrev kept_due : String → Scheduler → ℕ
kept_due sid s = or_else (get sid s.next_run) 0

record IsSpaced (sid : String) (s : Scheduler) : Type 0 where
  in_order : spaced sid s.submitted ≡ true
  kept : due_of sid s.submitted ≤ kept_due sid s

poll_job-IsSpaced :
    (sid : String) (now : ℕ) (job : JobDefinition) (s : Scheduler)
    → IsSpaced sid s
    → IsSpaced sid (poll_job now job s)
unfolding poll_job
poll_job-IsSpaced sid now job s h = record {
  in_order = ground (arith, h.in_order, h.kept, eq_iff job.slot_id sid);
  kept = ground (
    arith,
    h.kept,
    eq_iff job.slot_id sid,
    get-put job.slot_id sid (now + job.interval_s) s.next_run,
  );
}

Reach-IsSpaced : {s t : Scheduler} (sid : String) → IsSpaced sid s → Reach s t → IsSpaced sid t
unfolding finish
Reach-IsSpaced sid h here = h
Reach-IsSpaced sid h (next r (poll_step now job u)) =
    poll_job-IsSpaced sid now job u (Reach-IsSpaced sid h r)
Reach-IsSpaced sid h (next r (finish_step other u)) =
    let i = Reach-IsSpaced sid h r in record { in_order = i.in_order; kept = i.kept }

IsSpaced-fresh : (sid : String) (s : Scheduler) → s.submitted ≡ [] → IsSpaced sid s
IsSpaced-fresh sid s h = record { in_order = ground (arith, h); kept = ground (arith, h) }

-- From a scheduler that has submitted nothing, however polls at any times and ends of jobs
-- interleave, two successive submissions of a slot's job are at least the first one's interval
-- apart.
pub submissions_spaced :
    {s t : Scheduler} (sid : String) → s.submitted ≡ [] → Reach s t → spaced sid t.submitted ≡ true
submissions_spaced {s} sid h r = (Reach-IsSpaced sid (IsSpaced-fresh sid s h) r).in_order
