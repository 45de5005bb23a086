-- ===== src/Autonomy/Tests.antt =====
-- Runs of the slots, the tasks, the memory and the scheduler at concrete inputs.
use glados_docker.Common.{
  List, Option, String, [], arith, get, map, none, put, refl, remove, remove_all, some, true, ℕ,
  ◌∷◌, ◌≡◌, ◌≤◌,
}
use glados_docker.Autonomy.Slots.{TaskSlot, last_given}
use glados_docker.Autonomy.Memory.{
  MemoryEntry, SubagentMemory, insert_age, load, prune_if_needed, writes,
}
use glados_docker.Autonomy.Memory.Bounds.{IsKept}
use glados_docker.Autonomy.Memory.Runs.{Op, delete_op, run, set_op, shown_op}
use glados_docker.Autonomy.Memory.Reload.{load-run}
use glados_docker.Autonomy.Scheduler.{
  JobDefinition, Reach, Scheduler, finish, finish_step, here, idle, next, poll_job, poll_step,
  start,
}
use glados_docker.Autonomy.Scheduler.Spacing.{counts, never_twice, spaced, submissions_spaced}

abbrev news : TaskSlot
news = record {
  slot_id = "hn";
  title = "News";
  status = "done";
  summary = "3 stories";
  updated_at = 5;
  notify_user = true;
  importance = some 80;
  confidence = none;
  next_run = some 900;
  report = none;
}

abbrev weather : TaskSlot
weather = record news { slot_id = "weather"; importance = some 20 }

abbrev quiet_news : TaskSlot
quiet_news = record news { importance = none; next_run = none }

last_importance :
    last_given (λ slot. slot.importance) "hn" none (news ∷ weather ∷ quiet_news ∷ []) ≡ some 80
last_importance = refl

abbrev hourly : JobDefinition
hourly = record { slot_id = "hn"; title = "News"; interval_s = 3600; run_on_start = true }

-- Started at 10, polled at 10, 11 and 3700; the job ends before the last.
abbrev begun : Scheduler
begun = poll_job 10 hourly (start 10 (hourly ∷ []) idle)

abbrev history :
    Reach
      (start 10 (hourly ∷ []) idle)
      (poll_job 3700 hourly (finish "hn" (poll_job 11 hourly begun)))
history =
    next
      (next
        (next (next here (poll_step 10 hourly (start 10 (hourly ∷ []) idle)))
          (poll_step 11 hourly begun))
        (finish_step "hn" (poll_job 11 hourly begun)))
      (poll_step 3700 hourly (finish "hn" (poll_job 11 hourly begun)))

nothing_running : counts "hn" (start 10 (hourly ∷ []) idle).running ≤ 1
unfolding start
nothing_running = omega arith

nothing_submitted : (start 10 (hourly ∷ []) idle).submitted ≡ []
unfolding start
nothing_submitted = refl

never_twice_example :
    counts "hn" (poll_job 3700 hourly (finish "hn" (poll_job 11 hourly begun))).running ≤ 1
never_twice_example = never_twice {s = start 10 (hourly ∷ []) idle} "hn" nothing_running history

submissions :
    (poll_job 3700 hourly (finish "hn" (poll_job 11 hourly begun))).submitted
    ≡ (hourly, 3700, 7300) ∷ (hourly, 10, 3610) ∷ []
unfolding poll_job start finish get put
submissions = refl

submissions_spaced_example :
    spaced "hn" (poll_job 3700 hourly (finish "hn" (poll_job 11 hourly begun))).submitted ≡ true
submissions_spaced_example =
    submissions_spaced {s = start 10 (hourly ∷ []) idle} "hn" nothing_submitted history

abbrev note : String → ℕ → MemoryEntry
note k t = record { key = k; value = "v"; created_at = t; shown_at = none }

-- Three lines and one that is broken.
abbrev old_file : List (Option MemoryEntry)
old_file = some (note "a" 3) ∷ some (note "b" 1) ∷ some (note "c" 2) ∷ none ∷ []

abbrev history_ops : List Op
history_ops = set_op 9 "d" "new" ∷ shown_op 10 "d" ∷ delete_op "c" ∷ []

load-run_example :
    (let m = run (load 2 old_file) (map (λ op. (writes, op)) history_ops) in
      (load 2 m.file).entries ≡ m.entries)
load-run_example = load-run 2 old_file history_ops

abbrev crowded : SubagentMemory
crowded = record {
  max_entries = 2;
  entries = ("a", note "a" 3) ∷ ("b", note "b" 1) ∷ ("c", note "c" 2) ∷ [];
  file = [];
}

crowded-IsKept : IsKept crowded.entries
crowded-IsKept = record { at_key = refl; once = refl }

evicts_b : get "b" (prune_if_needed crowded).entries ≡ none
unfolding prune_if_needed insert_age get remove remove_all
evicts_b = refl

keeps_c : get "c" (prune_if_needed crowded).entries ≡ some (note "c" 2)
unfolding prune_if_needed insert_age get remove remove_all
keeps_c = refl

holds_b : get "b" crowded.entries ≡ some (note "b" 1)
unfolding get
holds_b = refl
