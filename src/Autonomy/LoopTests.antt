-- ===== src/Autonomy/LoopTests.antt =====
-- Runs of the autonomy loop at concrete inputs.
use glados_docker.Common.{[], arith, false, if◌then◌else◌, refl, strip, true, ◌<◌, ◌∷◌, ◌≡◌}
use glados_docker.Autonomy.Loop.{
  AutonomyLoop, dispatch, enter_chat, exit_chat, handle_event, is_chat_in_flight, should_skip,
  time_tick,
}
use glados_docker.Autonomy.Loop.Quiet.{
  at_start, began, chat_begins, chat_ends, dispatched, dispatches_quiet, ended, handles, quiet,
  then_step,
}

abbrev loop : AutonomyLoop
loop = record {
  config = record { cooldown = 4000; coalesce_ticks = true };
  gate = record { active_chats = 0; last_chat_end_ts = 0 };
  speaking = false;
  llm_queue = [];
  max_queue = 8;
  inflight = 0;
  processing_active = false;
  last_prompt_ts = 0;
}

abbrev chatting : AutonomyLoop
chatting = record loop { gate = enter_chat loop.gate }

abbrev chatted : AutonomyLoop
chatted = record chatting { gate = exit_chat 5000 chatting.gate }

one_chat : 0 < chatting.gate.active_chats
unfolding enter_chat
one_chat = omega arith

-- A tick one second after the end of a chat is held back, one three seconds after it is not.
sends : (handle_event 8000 9000 9001 time_tick "tick" chatted).0 ≡ true
unfolding handle_event should_skip is_chat_in_flight enter_chat exit_chat dispatch strip
sends = refl

waits : (handle_event 6000 9000 9001 time_tick "tick" chatted).0 ≡ false
unfolding handle_event should_skip is_chat_in_flight enter_chat exit_chat dispatch
waits = refl

dispatches_quiet_example :
    quiet 4000 (
      if (handle_event 8000 9000 9001 time_tick "tick" chatted).0
      then dispatched 8000 9000 9001 ∷ ended 5000 ∷ began ∷ []
      else ended 5000 ∷ began ∷ [])
    ≡ true
dispatches_quiet_example = dispatches_quiet loop refl refl (
    then_step
      (then_step (then_step at_start (chat_begins loop []))
        (chat_ends 5000 chatting (began ∷ []) one_chat))
      (handles 8000 9000 9001 time_tick "tick" chatted (ended 5000 ∷ began ∷ [])))
