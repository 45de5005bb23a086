-- ===== src/Autonomy/Tasks/Lifecycle.antt =====
-- What a task leaves in its slot, from its submission to its end.
use glados_docker.Common.{
  Bool, List, Option, String, [], ap, arith, eq_iff, first_some, get, get-put, get-put_self, none,
  put, refl, some, ℕ, ◌++◌, ◌∙◌, ◌∷◌, ◌≡◌,
}
use glados_docker.Autonomy.Slots.{SlotStore, TaskSlot, fill_from, get_slot, update_all, update_slot}
use glados_docker.Autonomy.Tasks.{
  AvoidsSlot, Outcome, Tasks, begin_task, end_task, note_slot, other_updates, result_slot, settle,
  submit_task,
}

get_slot-update_all_ne :
    (sid : String) (us : List TaskSlot) (slots : SlotStore)
    → AvoidsSlot sid us
    → get_slot sid (update_all us slots) ≡ get_slot sid slots
unfolding update_all update_slot get_slot
get_slot-update_all_ne sid [] slots h = refl
get_slot-update_all_ne sid (u ∷ us) slots h = ground (
  arith,
  eq_iff u.slot_id sid,
  get_slot-update_all_ne sid us (put u.slot_id (fill_from (get u.slot_id slots) u) slots),
  get-put u.slot_id sid (fill_from (get u.slot_id slots) u) slots,
)

get_slot-update_slot :
    (args : TaskSlot) (slots : SlotStore)
    → get_slot args.slot_id (update_slot args slots).1
      ≡ some (fill_from (get_slot args.slot_id slots) args)
unfolding update_slot get_slot
get_slot-update_slot args slots =
    get-put_self args.slot_id (fill_from (get args.slot_id slots) args) slots

-- The slot of an update, after updates of others.
settled :
    (args : TaskSlot) (us : List TaskSlot) (slots : SlotStore)
    → AvoidsSlot args.slot_id us
    → get_slot args.slot_id (update_all us (update_slot args slots).1)
      ≡ some (fill_from (get_slot args.slot_id slots) args)
settled args us slots h =
    get_slot-update_all_ne args.slot_id us (update_slot args slots).1 h
    ∙ get_slot-update_slot args slots

first_some-none : (o : Option ℕ) → first_some o none ≡ o
first_some-none none = refl
first_some-none (some n) = refl

first_some-none_text : (o : Option String) → first_some o none ≡ o
first_some-none_text none = refl
first_some-none_text (some n) = refl

fill_from_twice :
    (old : Option TaskSlot) (sid title s1 s2 : String) (m1 m2 : String) (notify : Bool) (t1 t2 : ℕ)
    (slot : TaskSlot)
    → fill_from
        (some (
          fill_from
            (some (fill_from old (note_slot sid title s1 m1 notify t1)))
            (note_slot sid title s2 m2 notify t2)))
        slot
      ≡ fill_from old slot
fill_from_twice none sid title s1 s2 m1 m2 notify t1 t2 slot = rw (
  first_some-none slot.importance,
  first_some-none slot.confidence,
  first_some-none slot.next_run,
  first_some-none_text slot.report,
)
fill_from_twice (some o) sid title s1 s2 m1 m2 notify t1 t2 slot = refl

-- However the updates of other slots interleave with a task, from its submission to its end: its
-- slot then holds the status, the summary and the notice that its outcome settles to (an exception
-- is the status "error"), and an importance, a confidence, a next run and a report that the outcome
-- leaves out are those from before the submission; one event with the outcome is published.
pub task_lifecycle :
    (sid title : String) (notify : Bool) (t1 t2 t3 : ℕ) (outcome : Outcome) (us vs : List TaskSlot)
    (t : Tasks)
    → AvoidsSlot sid us
    → AvoidsSlot sid vs
    → (let final = end_task sid title notify t3 outcome (
          other_updates vs (
            begin_task sid title notify t2
              (other_updates us (submit_task sid title notify t1 t)))) in
        (get_slot sid final.slots
          ≡ some
              (fill_from (get_slot sid t.slots) (result_slot sid title t3 (settle notify outcome))))
        × (final.published
            ≡ t.published
              ++ record {
                slot_id = sid;
                title = title;
                updated_at = t3;
                result = settle notify outcome;
              }
                ∷ []))
unfolding submit_task begin_task end_task update_slot get_slot
task_lifecycle sid title notify t1 t2 t3 outcome us vs t h1 h2 =
    let queued = note_slot sid title "queued" "Waiting to start" notify t1 in
    let running = note_slot sid title "running" "Working..." notify t2 in
    let result = result_slot sid title t3 (settle notify outcome) in
    let s1 = update_all us (update_slot queued t.slots).1 in
    let s2 = update_all vs (update_slot running s1).1 in
    (
      get_slot-update_slot result s2
          ∙ ap (λ o. some (fill_from o result))
              (settled running vs s1 h2
                ∙ ap (λ o. some (fill_from o running)) (settled queued us t.slots h1))
          ∙ ap some (
              fill_from_twice (get_slot sid t.slots) sid title "queued" "running" "Waiting to start"
                "Working..." notify t1 t2 result),
      refl,
    )
