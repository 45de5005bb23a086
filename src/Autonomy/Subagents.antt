-- ===== src/Autonomy/Subagents.antt =====
-- glados/autonomy/subagent.py and subagent_manager.py: the life of the subagents of one manager.
-- `tick`, `on_start` and the clock give their answers to each step; a time is a number of ticks,
-- an importance or a confidence a number of hundredths. The threads of a subagent are counted,
-- since `start` looks at `_running`, which the thread itself sets. A `join` and `on_stop` have no
-- effect on what is kept; the mind registry and the observability bus are left out.
pub mod Stops
use glados_docker.Common.{
  Bool, Dict, List, Option, String, [], any_of, false, get, has, if◌then◌else◌, keys, leb, ltb,
  none, put, remove, some, str_append, true, ℕ, ◌+◌, ◌-◌, ◌==◌, ◌∷◌,
}
use glados_docker.Autonomy.Slots.{SlotStore, TaskSlot, update_slot}

pub record SubagentOutput : Type 0 where
  pub status : String
  pub summary : String
  pub report : Option String
  pub notify_user : Bool
  pub importance : Option ℕ
  pub confidence : Option ℕ
  pub next_run : Option ℕ

-- What `tick` does: `failed` is the text of its exception.
pub data Tick : Type 0 where
  quiet : Tick
  output : SubagentOutput → Tick
  failed : String → Tick

-- `launched` threads have not begun to run, `looping` ones are before the test of the loop, and
-- `due` ones have passed it and are about to tick. A shutdown event is the number of the object.
pub record Subagent : Type 0 where
  pub title : String
  pub loop_interval_s : ℕ
  pub run_on_start : Bool
  pub shutdown_event : ℕ
  pub running : Bool
  pub launched : ℕ
  pub looping : ℕ
  pub due : ℕ
  pub last_tick : ℕ
  pub tick_count : ℕ

-- The manager with the events that are set and the slots.
pub record SubagentManager : Type 0 where
  pub agents : Dict Subagent
  pub shutdown_event : ℕ
  pub set_events : List ℕ
  pub slots : SlotStore

abbrev pub is_set : ℕ → SubagentManager → Bool
is_set event m = any_of (λ e. e == event) m.set_events

abbrev slot_of : String → String → ℕ → SubagentOutput → TaskSlot
slot_of id title now o = record {
  slot_id = id;
  title = title;
  status = o.status;
  summary = o.summary;
  updated_at = now;
  notify_user = o.notify_user;
  importance = o.importance;
  confidence = o.confidence;
  next_run = o.next_run;
  report = o.report;
}

abbrev failed_output : String → SubagentOutput
failed_output text = record {
  status = "error";
  summary = str_append "Tick failed: " text;
  report = none;
  notify_user = false;
  importance = none;
  confidence = none;
  next_run = none;
}

-- The slots after a tick: `write_slot`, where there is an output.
unfoldable pub write_slot : String → String → ℕ → Tick → SlotStore → SlotStore
write_slot id title now quiet slots = slots
write_slot id title now (output o) slots = (update_slot (slot_of id title now o) slots).1
write_slot id title now (failed text) slots =
    (update_slot (slot_of id title now (failed_output text)) slots).1

abbrev pub with_agent : String → Subagent → SubagentManager → SubagentManager
with_agent id a m = record m { agents = put id a m.agents }

-- `_do_tick`, with the clock's answer.
unfoldable pub do_tick : ℕ → Tick → String → Subagent → SubagentManager → SubagentManager
do_tick now t id a m =
    record (with_agent id (record a { last_tick = now; tick_count = a.tick_count + 1 }) m) {
      slots = write_slot id a.title now t m.slots;
    }

-- The `finally` of `run`: a thread of the subagent ends.
unfoldable pub end_run : String → Subagent → SubagentManager → SubagentManager
end_run id a m = with_agent id (record a { running = false; looping = a.looping - 1 }) m

-- The part of `run` before the loop, for one launched thread: `start_fails` is an exception of
-- `on_start`.
unfoldable pub begin_run : ℕ → Tick → Bool → String → Subagent → SubagentManager → SubagentManager
begin_run now t start_fails id a m =
    let begun = record a { running = true; launched = a.launched - 1; looping = a.looping + 1 } in
    if start_fails
    then end_run id begun m
    else if a.run_on_start
    then do_tick now t id begun m
    else with_agent id begun m

-- The test of the loop of `run` with the wait, for one thread: it ends, waits, or is to tick. No
-- lock is held from there to the tick.
unfoldable pub loop_run : ℕ → String → Subagent → SubagentManager → SubagentManager
loop_run now id a m =
    if is_set a.shutdown_event m
    then end_run id a m
    else if ltb now (a.last_tick + a.loop_interval_s)
    then m
    else with_agent id (record a { looping = a.looping - 1; due = a.due + 1 }) m

-- The tick of a thread that has passed the test, which goes back to it.
unfoldable pub tick_run : ℕ → Tick → String → Subagent → SubagentManager → SubagentManager
tick_run now t id a m =
    if a.due == 0
    then m
    else do_tick now t id (record a { looping = a.looping + 1; due = a.due - 1 }) m

-- `none` is an exception.
unfoldable pub register : String → Subagent → SubagentManager → Option SubagentManager
register id a m = if has id m.agents then none else some (with_agent id a m)

unfoldable pub create_and_register :
    String → String → ℕ → Bool → SubagentManager → Option SubagentManager
create_and_register id title interval on_start m =
    register id
      (record {
        title = title;
        loop_interval_s = interval;
        run_on_start = on_start;
        shutdown_event = m.shutdown_event;
        running = false;
        launched = 0;
        looping = 0;
        due = 0;
        last_tick = 0;
        tick_count = 0;
      })
      m

abbrev pub start_agent : String → Option Subagent → SubagentManager → Option SubagentManager
start_agent id none m = none
start_agent id (some a) m =
    some (if a.running then m else with_agent id (record a { launched = a.launched + 1 }) m)

unfoldable pub start : String → SubagentManager → Option SubagentManager
start id m = start_agent id (get id m.agents) m

-- `Subagent.stop`
abbrev pub stop_subagent : Subagent → SubagentManager → SubagentManager
stop_subagent a m = record m {
  set_events = if a.running then a.shutdown_event ∷ m.set_events else m.set_events;
}

abbrev pub stop_agent : Option Subagent → SubagentManager → Option SubagentManager
stop_agent none m = none
stop_agent (some a) m = some (stop_subagent a m)

unfoldable pub stop : String → SubagentManager → Option SubagentManager
stop id m = stop_agent (get id m.agents) m

abbrev pub drop_agent : Option Subagent → Bool → String → SubagentManager → Option SubagentManager
drop_agent none stop_if_running id m = none
drop_agent (some a) stop_if_running id m = some (record m {
  agents = remove id m.agents;
  set_events = (if stop_if_running then stop_subagent a m else m).set_events;
})

unfoldable pub unregister : String → Bool → SubagentManager → Option SubagentManager
unregister id stop_if_running m = drop_agent (get id m.agents) stop_if_running id m

abbrev pub or_same : SubagentManager → Option SubagentManager → SubagentManager
or_same m none = m
or_same m (some n) = n

-- The loop of `start_all`, over the names at its begin.
unfoldable pub start_all : List String → SubagentManager → SubagentManager
start_all [] m = m
start_all (id ∷ ids) m = start_all ids (or_same m (start id m))

-- The loop of `stop_all`; the clock answers to each call by its number, and without a global
-- timeout there is no deadline.
unfoldable pub stop_all : (ℕ → ℕ) → Option ℕ → List String → ℕ → SubagentManager → SubagentManager
stop_all clock deadline [] calls m = m
stop_all clock none (id ∷ ids) calls m = stop_all clock none ids calls (or_same m (stop id m))
stop_all clock (some d) (id ∷ ids) calls m =
    let rest = stop_all clock (some d) ids (calls + 1) (or_same m (stop id m)) in
    if leb d (clock calls) then m else rest

unfoldable pub shutdown : (ℕ → ℕ) → ℕ → SubagentManager → SubagentManager
shutdown clock timeout m =
    stop_all clock (some (clock 0 + timeout)) (keys m.agents) 1
      (record m { set_events = m.shutdown_event ∷ m.set_events })
