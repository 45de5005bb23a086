-- ===== src/Core/Player/Turns.antt =====
-- The play thread of `BufferedSpeechPlayer`, one turn at a time.
use glados_docker.Common.{
  Bool, List, Option, String, [], false, if◌then◌else◌, join_texts, length, ltb, min, none, some,
  split_from, split_words, str_append, take, true, ℕ, ◌%◌, ◌*◌, ◌++◌, ◌+◌, ◌/◌, ◌∷◌,
}
use glados_docker.Core.Player.{
  BufferedSpeechPlayer, Lane, PreparedChunk, Stored, assistant, next_chunk, should_start_playback,
  source_of,
}

-- Python's `round(p / 100 * n)` for a whole percentage, half to even.
unfoldable pub round_percent : ℕ → ℕ → ℕ
round_percent p n =
    let q = p * n / 100 in
    let r = p * n % 100 in if ltb r 50 then q else if ltb 50 r then q + 1 else q + q % 2

-- `_clip_text`
unfoldable pub clip_text : String → ℕ → String
unfolding split_from join_texts round_percent
clip_text text percentage =
    let tokens = split_words text in
    join_texts " " (take (round_percent (min 100 percentage) (length tokens)) tokens)

pub data Playback : Type 0 where
  finished : Playback
  interrupted : ℕ → Playback

-- `_clear_all`
unfoldable pub clear_player : BufferedSpeechPlayer → BufferedSpeechPlayer
clear_player p = record p {
  interrupt_flag = true;
  play_buffer = [];
  currently_speaking = false;
  audio_output_queue = [];
}

abbrev interruption_note : String → Lane → Stored
interruption_note text lane = record {
  role = "user";
  content =
      str_append "[SYSTEM: User interrupted mid-response! Full intended output: '"
        (str_append text "']");
  source = source_of lane;
}

-- The end of a turn, after the playback of its chunk.
unfoldable pub end_chunk : Playback → PreparedChunk → BufferedSpeechPlayer → BufferedSpeechPlayer
unfolding clip_text clear_player
end_chunk finished c p = record p {
  text_accumulator = p.text_accumulator ++ c.text ∷ [];
  playing = none;
  currently_speaking = false;
}
end_chunk (interrupted percentage) c p = clear_player (record p {
  conversation =
      p.conversation
      ++ (assistant (p.text_accumulator ++ clip_text c.text percentage ∷ []) c.lane
          ∷ interruption_note c.text c.lane
          ∷ []);
  text_accumulator = [];
  playing = none;
  streaming = false;
})

abbrev pub begin_stream : Bool × BufferedSpeechPlayer → BufferedSpeechPlayer
begin_stream (true, p) = record p { streaming = true; interrupt_flag = false }
begin_stream (false, p) = p

-- After the sleep the stream goes on with a new turn or is over.
abbrev pub wake_up : List PreparedChunk → BufferedSpeechPlayer → BufferedSpeechPlayer
wake_up [] p = record p { waiting = false; streaming = false }
wake_up (c ∷ cs) p = record p { waiting = false }

abbrev pub stream_turn : BufferedSpeechPlayer → BufferedSpeechPlayer
stream_turn p =
    if p.waiting
    then wake_up p.play_buffer p
    else if p.interrupt_flag
    then record p { streaming = false }
    else next_chunk p.play_buffer p

abbrev pub idle_or_stream :
    Playback → Option PreparedChunk → BufferedSpeechPlayer → BufferedSpeechPlayer
idle_or_stream how (some c) p = end_chunk how c p
idle_or_stream how none p =
    if p.streaming then stream_turn p else begin_stream (should_start_playback p)

-- One step of the player's thread; `how` is how the playback of the chunk ends, if one is played.
unfoldable pub player_step : Playback → BufferedSpeechPlayer → BufferedSpeechPlayer
unfolding should_start_playback end_chunk
player_step how p = idle_or_stream how p.playing p
