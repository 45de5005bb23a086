-- ===== src/SessionMemory/Tests.antt =====
-- Runs of `SessionMemory` at concrete inputs.
use glados_docker.Common.{
  String, [], arith, eq_iff, get, has, none, null, push_bounded, put, refl, remove, remove_all,
  some, ℕ, ◌∷◌, ◌≡◌, ◌≢◌,
}
use glados_docker.SessionMemory.{
  SessionMemory, Turn, active_session_count, clear, count_op, forget, gc, init, last_op, last_turn,
  recent_turns, record_op, record_turn, run,
}
use glados_docker.SessionMemory.Bounds.{IsBounded, run-IsBounded}
use glados_docker.SessionMemory.Reads.{expired_turns_return}

program : Unit {0}
unfolding init gc record_turn last_turn forget clear active_session_count run get put remove has
    remove_all push_bounded
program = tt

abbrev said : ℕ → String → Turn
said now words = record {
  timestamp = now;
  utterance = words;
  resolved_area_id = some "kitchen";
  entities_affected = "light.kitchen" ∷ [];
  action_verb = some "turn_off";
  service = none;
  service_data = null;
  ha_conversation_id = none;
}

abbrev memory : SessionMemory
memory = record {
  buffer_size = 2;
  ttl = 600;
  sessions =
      ("a", record { turns = said 10 "lights off" ∷ []; last_touched = 10 })
      ∷ ("b", record { turns = said 20 "lamp on" ∷ []; last_touched = 20 })
      ∷ [];
}

abbrev memory_after : SessionMemory
memory_after = record memory {
  sessions =
      ("a", record { turns = said 10 "lights off" ∷ said 30 "dimmer" ∷ []; last_touched = 30 })
      ∷ ("b", record { turns = said 20 "lamp on" ∷ []; last_touched = 20 })
      ∷ [];
}

abbrev late_after : SessionMemory
late_after = record memory {
  sessions =
      ("a", record { turns = said 10 "lights off" ∷ said 900 "dimmer" ∷ []; last_touched = 900 })
      ∷ [];
}

recorded : record_turn 30 "a" (said 30 "dimmer") memory ≡ some memory_after
unfolding program
recorded = refl

recorded_late : record_turn 900 "a" (said 900 "dimmer") memory ≡ some late_after
unfolding program
recorded_late = refl

no_session : record_turn 30 "" (said 30 "dimmer") memory ≡ none
unfolding program
no_session = refl

init_two : init 2 600 ≡ some (record { buffer_size = 2; ttl = 600; sessions = [] })
unfolding program
init_two = refl

run-IsBounded_example : IsBounded (
    run
      (record { buffer_size = 2; ttl = 600; sessions = [] })
      (record_op 1 "a" (said 1 "on") ∷ count_op 5 ∷ last_op 700 "a" ∷ []))
run-IsBounded_example =
    run-IsBounded 2 600 (record { buffer_size = 2; ttl = 600; sessions = [] })
      (record_op 1 "a" (said 1 "on") ∷ count_op 5 ∷ last_op 700 "a" ∷ []) init_two

a_ne_b : ◌≢◌ {A = String} "a" "b"
a_ne_b = ground (arith, eq_iff "a" "b")

stored_a :
    get "a" memory.sessions ≡ some (record { turns = said 10 "lights off" ∷ []; last_touched = 10 })
unfolding program
stored_a = refl

expired_turns_return_example :
    ((recent_turns 900 "a" none memory).0 ≡ [])
    × ((recent_turns 900 "a" none late_after).0
        ≡ push_bounded 2 (said 10 "lights off" ∷ []) (said 900 "dimmer"))
expired_turns_return_example =
    expired_turns_return 900 "a" (said 900 "dimmer") memory stored_a (omega arith) recorded_late
