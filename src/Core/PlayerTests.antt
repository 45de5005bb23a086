-- ===== src/Core/PlayerTests.antt =====
-- The player at concrete runs.
use glados_docker.Common.{
  List, String, [], false, is_space, join_texts, map, refl, some, split_from, true, ◌∷◌, ◌≡◌,
}
use glados_docker.Core.Player.{
  AudioMessage, BufferedSpeechPlayer, Lane, accept_message, accumulate, autonomy, buffered_samples,
  chunk_of, eos_chunk, init, priority, put_message, should_start_playback,
}
use glados_docker.Core.Player.Turns.{clip_text, end_chunk, finished, player_step, round_percent}
use glados_docker.Core.Player.Heard.{
  Op, accumulate_op, hear_all, player_op, put_op, run, sent, step, will_hear,
}
use glados_docker.Core.Player.Transcript.{run-hear_all}
use glados_docker.Core.Player.Progress.{Reaches, first_reply, idle, idle_replies}

abbrev says : String → AudioMessage
says text = record { audio = 240; text = text; is_eos = false; lane = autonomy }

abbrev ends : Lane → AudioMessage
ends lane = record { audio = 0; text = ""; is_eos = true; lane = lane }

abbrev turns : List Op
turns =
    put_op (says "Well")
    ∷ put_op (says "done.")
    ∷ accumulate_op
    ∷ player_op
    ∷ put_op (ends autonomy)
    ∷ accumulate_op
    ∷ accumulate_op
    ∷ player_op
    ∷ player_op
    ∷ player_op
    ∷ player_op
    ∷ player_op
    ∷ player_op
    ∷ []

run-hear_all_example : will_hear (run (init 24 1) turns) ≡ hear_all ([], []) (sent [] turns)
run-hear_all_example = run-hear_all 24 1 turns

stored :
    (run (init 24 1) turns).conversation
    ≡ record { role = "assistant"; content = "Well done."; source = some "autonomy" } ∷ []
unfolding run step init accumulate accept_message player_step should_start_playback end_chunk
    join_texts buffered_samples
stored = refl

abbrev waiting_player : BufferedSpeechPlayer
waiting_player = record (init 24 3) {
  play_buffer = chunk_of (says "Well") ∷ eos_chunk priority ∷ chunk_of (says "Next") ∷ [];
}

idle_replies_example :
    (q : BufferedSpeechPlayer) × (r : Reaches (idle waiting_player) q) × (q.conversation
      ≡ first_reply [] [] waiting_player.play_buffer)
    × (q.text_accumulator ≡ [])
    × (q.streaming ≡ false)
unfolding init
idle_replies_example = idle_replies waiting_player refl

-- A text that is muted while an earlier one is in the buffer comes before it in the store.
muted_first :
    (let p1 = accumulate false (put_message (says "one") (init 24 0)) in
      let p2 = accumulate true (put_message (says "two") p1) in
      let p3 = accumulate true (put_message (ends priority) p2) in
      let p4 = player_step finished (player_step finished (player_step finished p3)) in
      map (λ m. m.content) (player_step finished p4).conversation)
    ≡ "two one" ∷ []
unfolding init accumulate accept_message player_step should_start_playback end_chunk join_texts
muted_first = refl

clipped : clip_text "one two three four" 63 ≡ "one two three"
unfolding clip_text split_from is_space join_texts round_percent
clipped = refl
