-- ===== src/SessionMemory/Reads.antt =====
-- What a read of `SessionMemory` returns after a turn was recorded.
use glados_docker.Common.{
  Option, String, [], arith, eq_iff, get, get-put, get-put_self, if◌then◌else◌, last?-drop,
  last?-push_bounded, length, none, push_bounded, put, some, ℕ, ◌+◌, ◌-◌, ◌<◌, ◌≡◌, ◌≢◌, ◌≤◌,
}
use glados_docker.SessionMemory.Bounds.{get-gc, pushed_length}
use glados_docker.SessionMemory.{
  SessionMemory, SessionState, Turn, gc, is_expired, last_turn, recent_turns, record_turn, turns_of,
}

-- The session as a recorded turn leaves it.
abbrev state_after : ℕ → String → Turn → SessionMemory → SessionState
state_after now sid t m = record {
  turns = push_bounded m.buffer_size (turns_of (get sid m.sessions)) t;
  last_touched = now;
}

-- What another session is after the sweep of `record_turn`.
abbrev swept : ℕ → ℕ → Option SessionState → Option SessionState
swept ttl now none = none
swept ttl now (some s) = if is_expired ttl now s then none else some s

module _ (now : ℕ) (sid : String) (t : Turn) (m : SessionMemory) {m' : SessionMemory} where
  recorded_fields :
      record_turn now sid t m ≡ some m'
      → (m'.ttl ≡ m.ttl)
        × (m' ≡ gc now (record m { sessions = put sid (state_after now sid t m) m.sessions }))
  unfolding record_turn gc
  recorded_fields r = ground arith

  get_recorded :
      record_turn now sid t m ≡ some m' → get sid m'.sessions ≡ some (state_after now sid t m)
  get_recorded r =
      let after : SessionMemory = record m {
        sessions = put sid (state_after now sid t m) m.sessions;
      } in
      ground (
        arith,
        recorded_fields r,
        get-gc now after sid,
        get-put_self sid (state_after now sid t m) m.sessions,
      )

  get_other :
      record_turn now sid t m ≡ some m'
      → (other : String) → sid ≢ other
      → get other m'.sessions ≡ swept m.ttl now (get other m.sessions)
  get_other r other ne =
      let after : SessionMemory = record m {
        sessions = put sid (state_after now sid t m) m.sessions;
      } in
      ground (
        arith,
        recorded_fields r,
        get-gc now after other,
        get-put sid other (state_after now sid t m) m.sessions,
        eq_iff sid other,
      )

-- A turn recorded at `now` is the last of what a read of its session returns up to `ttl` later:
-- the session's earlier turns, expired or not, and then the turn, cut to the newest `buffer_size`.
pub recent_turns-record_turn :
    (now later : ℕ) (sid : String) (t : Turn) (m : SessionMemory) {m' : SessionMemory}
    → record_turn now sid t m ≡ some m'
    → later ≤ now + m.ttl
    → (recent_turns later sid none m').0
      ≡ push_bounded m.buffer_size (turns_of (get sid m.sessions)) t
unfolding recent_turns
recent_turns-record_turn now later sid t m {m'} r h =
    ground (arith, recorded_fields now sid t m r, get_recorded now sid t m r)

-- A turn recorded at `now` is what `last_turn` returns of its session up to `ttl` later.
pub last_turn-record_turn :
    (now later : ℕ) (sid : String) (t : Turn) (m : SessionMemory) {m' : SessionMemory}
    → 0 < m.buffer_size
    → record_turn now sid t m ≡ some m'
    → later ≤ now + m.ttl
    → (last_turn later sid m').0 ≡ some t
unfolding last_turn
last_turn-record_turn now later sid t m {m'} pos r h =
    let turns = push_bounded m.buffer_size (turns_of (get sid m.sessions)) t in
    ground (
      arith,
      recorded_fields now sid t m r,
      get_recorded now sid t m r,
      pushed_length m.buffer_size (turns_of (get sid m.sessions)) t pos,
      last?-drop (length turns - 1) turns,
      last?-push_bounded m.buffer_size (turns_of (get sid m.sessions)) t pos,
    )

-- A turn of one session leaves every later read of another session as it was.
pub recent_turns-record_turn_ne :
    (now later : ℕ) (sid other : String) (limit : Option ℕ) (t : Turn) (m : SessionMemory)
    {m' : SessionMemory}
    → record_turn now sid t m ≡ some m'
    → sid ≢ other
    → now ≤ later
    → (recent_turns later other limit m').0 ≡ (recent_turns later other limit m).0
unfolding recent_turns
recent_turns-record_turn_ne now later sid other limit t m {m'} r ne h =
    ground (arith, recorded_fields now sid t m r, get_other now sid t m r other ne)

-- A session that has expired at `now` reads as empty, and yet a turn recorded at `now` brings its
-- old turns back: the next read returns them with the new turn, cut to the newest `buffer_size`.
pub expired_turns_return :
    (now : ℕ) (sid : String) (t : Turn) (m : SessionMemory) {m' : SessionMemory} {s : SessionState}
    → get sid m.sessions ≡ some s
    → s.last_touched + m.ttl < now
    → record_turn now sid t m ≡ some m'
    → ((recent_turns now sid none m).0 ≡ [])
      × ((recent_turns now sid none m').0 ≡ push_bounded m.buffer_size s.turns t)
unfolding recent_turns
expired_turns_return now sid t m g old r =
    ground (arith, recorded_fields now sid t m r, get_recorded now sid t m r)
