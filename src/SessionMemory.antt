-- ===== src/SessionMemory.antt =====
-- glados/core/session_memory.py: the short-term memory of device-control turns, one bounded buffer
-- for each session, with an idle time to live. Times are numbers of clock ticks; every method takes
-- the reading of `now_fn` that it makes. The proofs are in the modules below.
pub mod Bounds
pub mod Reads
mod Tests
use glados_docker.Common.{
  Bool, Dict, Json, List, Option, String, [], false, get, if◌then◌else◌, keep, keys, last?, leb,
  length, ltb, none, or_else, push_bounded, put, remove, remove_all, some, str_eq, take_last, ℕ,
  ◌+◌, ◌==◌, ◌∷◌,
}

pub record Turn : Type 0 where
  pub timestamp : ℕ
  pub utterance : String
  pub resolved_area_id : Option String
  pub entities_affected : List String
  pub action_verb : Option String
  pub service : Option String
  pub service_data : Json
  pub ha_conversation_id : Option String

pub record SessionState : Type 0 where
  pub turns : List Turn
  pub last_touched : ℕ

pub record SessionMemory : Type 0 where
  pub buffer_size : ℕ
  pub ttl : ℕ
  pub sessions : Dict SessionState

-- `none` is `ValueError`.
unfoldable pub init : ℕ → ℕ → Option SessionMemory
init buffer_size ttl =
    if ltb buffer_size 1
    then none
    else if leb ttl 0
    then none
    else some (record { buffer_size = buffer_size; ttl = ttl; sessions = [] })

abbrev pub is_expired : ℕ → ℕ → SessionState → Bool
is_expired ttl now state = ltb (state.last_touched + ttl) now

-- The test of the sweep's comprehension at one key.
abbrev pub is_stale : SessionMemory → ℕ → String → Bool
is_stale m now sid = elim (get sid m.sessions) [ none ↦ false | some s ↦ is_expired m.ttl now s ]

unfoldable pub gc : ℕ → SessionMemory → SessionMemory
gc now m =
    let expired = keep (is_stale m now) (keys m.sessions) in
    record m { sessions = remove_all expired m.sessions }

-- The turns that a session holds, none for a session that is not there.
abbrev pub turns_of : Option SessionState → List Turn
turns_of none = []
turns_of (some s) = s.turns

-- `none` is `ValueError`.
unfoldable pub record_turn : ℕ → String → Turn → SessionMemory → Option SessionMemory
record_turn now sid turn m =
    if str_eq sid ""
    then none
    else let turns = push_bounded m.buffer_size (turns_of (get sid m.sessions)) turn in
      let state : SessionState = record { turns = turns; last_touched = now } in
      some (gc now (record m { sessions = put sid state m.sessions }))

-- `turns[-limit:] if limit > 0 else []`, for a limit that is not `None`.
abbrev pub limited : Option ℕ → List Turn → List Turn
limited none turns = turns
limited (some limit) turns = if limit == 0 then [] else take_last limit turns

unfoldable pub touch :
    ℕ → String → Option ℕ → SessionMemory → Option SessionState → List Turn × SessionMemory
touch now sid limit m none = ([], m)
touch now sid limit m (some s) =
    if is_expired m.ttl now s then ([], record m { sessions = remove sid m.sessions }) else (
      limited limit s.turns,
      record m { sessions = put sid (record s { last_touched = now }) m.sessions },
    )

unfoldable pub recent_turns : ℕ → String → Option ℕ → SessionMemory → List Turn × SessionMemory
unfolding touch
recent_turns now sid limit m = touch now sid limit m (get sid m.sessions)

unfoldable pub last_turn : ℕ → String → SessionMemory → Option Turn × SessionMemory
unfolding recent_turns
last_turn now sid m = let (turns, m') = recent_turns now sid (some 1) m in (last? turns, m')

unfoldable pub forget : String → SessionMemory → SessionMemory
forget sid m = record m { sessions = remove sid m.sessions }

unfoldable pub clear : SessionMemory → SessionMemory
clear m = record m { sessions = [] }

unfoldable pub active_session_count : ℕ → SessionMemory → ℕ × SessionMemory
unfolding gc
active_session_count now m = let m' = gc now m in (length m'.sessions, m')

-- The calls of a client, with the readings of the clock that they make.
pub data Op : Type 0 where
  record_op : ℕ → String → Turn → Op
  recent_op : ℕ → String → Option ℕ → Op
  last_op : ℕ → String → Op
  forget_op : String → Op
  clear_op : Op
  count_op : ℕ → Op

-- The memory after a call; a `ValueError` leaves it as it was.
unfoldable pub step : SessionMemory → Op → SessionMemory
step m (record_op now sid turn) = or_else (record_turn now sid turn m) m
step m (recent_op now sid limit) = (recent_turns now sid limit m).1
step m (last_op now sid) = (last_turn now sid m).1
step m (forget_op sid) = forget sid m
step m clear_op = clear m
step m (count_op now) = (active_session_count now m).1

unfoldable pub run : SessionMemory → List Op → SessionMemory
unfolding step
run m [] = m
run m (op ∷ ops) = run (step m op) ops
