-- ===== src/Autonomy/Slots.antt =====
-- glados/autonomy/slots.py: `TaskSlotStore`. An importance or a confidence is a number of
-- hundredths, a time a number of ticks. The lock makes each call one step; the event that
-- `update_slot` emits goes to the observability bus and is not kept here.
use glados_docker.Common.{
  Bool, Dict, List, Option, String, [], ap, arith, eq_iff, first_some, get, get-put, if◌then◌else◌,
  none, put, refl, some, str_eq, values, ℕ, ◌∙◌, ◌∷◌, ◌≡◌,
}

pub record TaskSlot : Type 0 where
  pub slot_id : String
  pub title : String
  pub status : String
  pub summary : String
  pub updated_at : ℕ
  pub notify_user : Bool
  pub importance : Option ℕ
  pub confidence : Option ℕ
  pub next_run : Option ℕ
  pub report : Option String

abbrev pub SlotStore : Type 0
SlotStore = Dict TaskSlot

-- What `update_slot` takes over from the slot that is there.
abbrev pub fill_from : Option TaskSlot → TaskSlot → TaskSlot
fill_from none slot = slot
fill_from (some existing) slot = record slot {
  importance = first_some slot.importance existing.importance;
  confidence = first_some slot.confidence existing.confidence;
  next_run = first_some slot.next_run existing.next_run;
  report = first_some slot.report existing.report;
}

-- The arguments of `update_slot`, with the time filled in, are given as a slot.
unfoldable pub update_slot : TaskSlot → SlotStore → TaskSlot × SlotStore
update_slot args slots =
    let slot = fill_from (get args.slot_id slots) args in (slot, put args.slot_id slot slots)

unfoldable pub list_slots : SlotStore → List TaskSlot
list_slots slots = values slots

unfoldable pub get_slot : String → SlotStore → Option TaskSlot
get_slot slot_id slots = get slot_id slots

unfoldable pub update_all : List TaskSlot → SlotStore → SlotStore
unfolding update_slot
update_all [] slots = slots
update_all (args ∷ rest) slots = update_all rest (update_slot args slots).1

-- The last value that is not `None` among the updates of a slot.
abbrev pub last_given : (TaskSlot → Option ℕ) → String → Option ℕ → List TaskSlot → Option ℕ
last_given part sid start [] = start
last_given part sid start (args ∷ rest) =
    last_given part sid (if str_eq args.slot_id sid then first_some (part args) start else start)
      rest

abbrev pub stored : (TaskSlot → Option ℕ) → Option TaskSlot → Option ℕ
stored part none = none
stored part (some slot) = part slot

-- Each of `importance`, `confidence` and `next_run`.
pub data Sticky : (TaskSlot → Option ℕ) → Type 0 where
  by_importance : Sticky (λ slot. slot.importance)
  by_confidence : Sticky (λ slot. slot.confidence)
  by_next_run : Sticky (λ slot. slot.next_run)

stored-update :
    {part : TaskSlot → Option ℕ} (k : Sticky part) (sid : String) (args : TaskSlot)
    (slots : SlotStore)
    → stored part (get_slot sid (update_slot args slots).1) ≡ (
        if str_eq args.slot_id sid
        then first_some (part args) (stored part (get_slot sid slots))
        else stored part (get_slot sid slots))
unfolding update_slot get_slot
stored-update by_importance sid args slots = ground (
  arith,
  get-put args.slot_id sid (fill_from (get args.slot_id slots) args) slots,
  eq_iff args.slot_id sid,
)
stored-update by_confidence sid args slots = ground (
  arith,
  get-put args.slot_id sid (fill_from (get args.slot_id slots) args) slots,
  eq_iff args.slot_id sid,
)
stored-update by_next_run sid args slots = ground (
  arith,
  get-put args.slot_id sid (fill_from (get args.slot_id slots) args) slots,
  eq_iff args.slot_id sid,
)

-- After any updates a slot's importance, confidence and next run are each the last value that an
-- update of that slot gave: one that leaves the value out, or is of another slot, keeps it.
pub stored-update_all :
    {part : TaskSlot → Option ℕ} (k : Sticky part) (sid : String) (updates : List TaskSlot)
    (slots : SlotStore)
    → stored part (get_slot sid (update_all updates slots))
      ≡ last_given part sid (stored part (get_slot sid slots)) updates
unfolding update_all
stored-update_all k sid [] slots = refl
stored-update_all {part} k sid (args ∷ rest) slots =
    stored-update_all k sid rest (update_slot args slots).1
    ∙ ap (λ v. last_given part sid v rest) (stored-update k sid args slots)
