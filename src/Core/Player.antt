-- ===== src/Core/Player.antt =====
-- glados/core/buffered_speech_player.py: the two threads of `BufferedSpeechPlayer` as steps on the
-- state that they share, each step as long as a lock is held or as the player plays one chunk. The
-- audio of a chunk is its number of samples. How the playback of a chunk ends, and whether the
-- speech is muted, are arguments of the steps. The events for the bus, `mark_assistant` and the log
-- are left out.
pub mod Turns
pub mod Heard
pub mod Accepts
pub mod Transcript
pub mod Progress
use glados_docker.Common.{
  Bool, List, Option, String, [], any_of, false, if◌then◌else◌, join_texts, leb, length, ltb, none,
  not, some, str_eq, true, ℕ, ◌&&◌, ◌*◌, ◌++◌, ◌+◌, ◌==◌, ◌∷◌,
}

pub data Lane : Type 0 where
  priority : Lane
  autonomy : Lane

pub record AudioMessage : Type 0 where
  pub audio : ℕ
  pub text : String
  pub is_eos : Bool
  pub lane : Lane

pub record PreparedChunk : Type 0 where
  pub audio_data : ℕ
  pub text : String
  pub is_eos : Bool
  pub lane : Lane

-- A message that goes to the conversation store: its role, content and source.
pub record Stored : Type 0 where
  pub role : String
  pub content : String
  pub source : Option String

-- `streaming` is whether the player is in `_play_buffered_stream`, `waiting` whether it sleeps there
-- for more chunks, `playing` the chunk that it plays.
pub record BufferedSpeechPlayer : Type 0 where
  pub audio_output_queue : List AudioMessage
  pub play_buffer : List PreparedChunk
  pub text_accumulator : List String
  pub conversation : List Stored
  pub currently_speaking : Bool
  pub buffer_ready : Bool
  pub interrupt_flag : Bool
  pub streaming : Bool
  pub waiting : Bool
  pub playing : Option PreparedChunk
  pub tts_sample_rate : ℕ
  pub buffer_seconds : ℕ

unfoldable pub init : ℕ → ℕ → BufferedSpeechPlayer
init tts_sample_rate buffer_seconds = record {
  audio_output_queue = [];
  play_buffer = [];
  text_accumulator = [];
  conversation = [];
  currently_speaking = false;
  buffer_ready = false;
  interrupt_flag = false;
  streaming = false;
  waiting = false;
  playing = none;
  tts_sample_rate = tts_sample_rate;
  buffer_seconds = buffer_seconds;
}

-- The synthesizer puts a message into the queue.
abbrev pub put_message : AudioMessage → BufferedSpeechPlayer → BufferedSpeechPlayer
put_message m p = record p { audio_output_queue = p.audio_output_queue ++ m ∷ [] }

abbrev pub eos_chunk : Lane → PreparedChunk
eos_chunk lane = record { audio_data = 0; text = ""; is_eos = true; lane = lane }

abbrev pub push_chunk : PreparedChunk → BufferedSpeechPlayer → BufferedSpeechPlayer
push_chunk c p = record p { play_buffer = p.play_buffer ++ c ∷ []; buffer_ready = true }

abbrev pub say_muted : String → BufferedSpeechPlayer → BufferedSpeechPlayer
say_muted text p = record p {
  text_accumulator = if str_eq text "" then p.text_accumulator else p.text_accumulator ++ text ∷ [];
  currently_speaking = false;
}

abbrev pub has_sound : AudioMessage → Bool
has_sound m = ltb 0 m.audio && not (str_eq m.text "")

abbrev pub chunk_of : AudioMessage → PreparedChunk
chunk_of m = record { audio_data = m.audio; text = m.text; is_eos = false; lane = m.lane }

-- What `_accumulator_loop` does with a message.
unfoldable pub accept_message : Bool → AudioMessage → BufferedSpeechPlayer → BufferedSpeechPlayer
accept_message tts_muted m p =
    if m.is_eos
    then push_chunk (eos_chunk m.lane) p
    else if tts_muted
    then say_muted m.text p
    else if has_sound m
    then push_chunk (chunk_of m) p
    else p

abbrev pub take_message : Bool → List AudioMessage → BufferedSpeechPlayer → BufferedSpeechPlayer
take_message tts_muted [] p = p
take_message tts_muted (m ∷ ms) p =
    accept_message tts_muted m (record p { audio_output_queue = ms })

-- One turn of `_accumulator_loop`.
unfoldable pub accumulate : Bool → BufferedSpeechPlayer → BufferedSpeechPlayer
unfolding accept_message
accumulate tts_muted p = take_message tts_muted p.audio_output_queue p

unfoldable pub buffered_samples : List PreparedChunk → ℕ
buffered_samples [] = 0
buffered_samples (c ∷ cs) =
    let rest = buffered_samples cs in if c.is_eos then rest else c.audio_data + rest

-- `_buffered_duration() >= buffer_seconds`
abbrev pub long_enough : BufferedSpeechPlayer → Bool
long_enough p =
    if p.tts_sample_rate == 0
    then leb p.buffer_seconds 0
    else leb (p.buffer_seconds * p.tts_sample_rate) (buffered_samples p.play_buffer)

-- `_should_start_playback`
unfoldable pub should_start_playback : BufferedSpeechPlayer → Bool × BufferedSpeechPlayer
unfolding buffered_samples
should_start_playback p =
    if length p.play_buffer == 0
    then (false, record p { buffer_ready = false })
    else if any_of (λ c. c.is_eos) p.play_buffer
    then (true, p)
    else (long_enough p, p)

abbrev pub source_of : Lane → Option String
source_of priority = none
source_of autonomy = some "autonomy"

abbrev pub assistant : List String → Lane → Stored
assistant texts lane = record {
  role = "assistant";
  content = join_texts " " texts;
  source = source_of lane;
}

-- The reply that a response ends with, if there is one.
abbrev pub reply : List String → Lane → List Stored
reply [] lane = []
reply (t ∷ texts) lane = assistant (t ∷ texts) lane ∷ []

abbrev pub flush : Lane → BufferedSpeechPlayer → BufferedSpeechPlayer
flush lane p = record p {
  conversation = p.conversation ++ reply p.text_accumulator lane;
  text_accumulator = [];
  currently_speaking = false;
  streaming = false;
}

abbrev pub play_chunk : PreparedChunk → BufferedSpeechPlayer → BufferedSpeechPlayer
play_chunk c p =
    if c.is_eos then flush c.lane p else record p { playing = some c; currently_speaking = true }

-- The start of a turn of `_play_buffered_stream`: the next chunk, or a short sleep.
abbrev pub next_chunk : List PreparedChunk → BufferedSpeechPlayer → BufferedSpeechPlayer
next_chunk [] p = record p { buffer_ready = false; waiting = true }
next_chunk (c ∷ cs) p = play_chunk c (record p { play_buffer = cs })
