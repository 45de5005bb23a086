-- ===== src/Core/Player/Heard.antt =====
-- What a listener hears of the messages and of the chunks, and the runs of the threads.
use glados_docker.Common.{
  List, Option, String, [], false, if◌then◌else◌, none, refl, some, ◌++◌, ◌∷◌, ◌≡◌,
}
use glados_docker.Core.Player.{
  AudioMessage, BufferedSpeechPlayer, PreparedChunk, Stored, accumulate, has_sound, put_message,
  reply,
}
use glados_docker.Core.Player.Turns.{finished, player_step}

-- The messages of the synthesizer as a listener hears them: the replies that have ended, and the
-- texts since then.
abbrev pub Heard : Type 0
Heard = List Stored × List String

abbrev pub hear : Heard → AudioMessage → Heard
hear (out, texts) m =
    if m.is_eos
    then (out ++ reply texts m.lane, [])
    else if has_sound m
    then (out, texts ++ m.text ∷ [])
    else (out, texts)

abbrev pub hear_all : Heard → List AudioMessage → Heard
hear_all h [] = h
hear_all h (m ∷ ms) = hear_all (hear h m) ms

abbrev pub hear_chunk : Heard → PreparedChunk → Heard
hear_chunk (out, texts) c =
    if c.is_eos then (out ++ reply texts c.lane, []) else (out, texts ++ c.text ∷ [])

abbrev pub hear_chunks : Heard → List PreparedChunk → Heard
hear_chunks h [] = h
hear_chunks h (c ∷ cs) = hear_chunks (hear_chunk h c) cs

-- The threads and the synthesizer, without mute and without interruption.
pub data Op : Type 0 where
  put_op : AudioMessage → Op
  accumulate_op : Op
  player_op : Op

unfoldable pub step : BufferedSpeechPlayer → Op → BufferedSpeechPlayer
unfolding accumulate player_step
step p (put_op m) = put_message m p
step p accumulate_op = accumulate false p
step p player_op = player_step finished p

unfoldable pub run : BufferedSpeechPlayer → List Op → BufferedSpeechPlayer
unfolding step
run p [] = p
run p (op ∷ ops) = run (step p op) ops

-- The messages that the synthesizer puts into the queue.
abbrev pub sent : List AudioMessage → List Op → List AudioMessage
sent ms [] = ms
sent ms (put_op m ∷ ops) = sent (ms ++ m ∷ []) ops
sent ms (accumulate_op ∷ ops) = sent ms ops
sent ms (player_op ∷ ops) = sent ms ops

abbrev pub playing_first : Option PreparedChunk → List PreparedChunk → List PreparedChunk
playing_first none cs = cs
playing_first (some c) cs = c ∷ cs

-- What will have been heard when all that is on its way is played.
abbrev pub will_hear : BufferedSpeechPlayer → Heard
will_hear p =
    hear_all
      (hear_chunks (p.conversation, p.text_accumulator) (playing_first p.playing p.play_buffer))
      p.audio_output_queue

pub hear_all-append :
    (h : Heard) (ms : List AudioMessage) (m : AudioMessage)
    → hear_all h (ms ++ m ∷ []) ≡ hear (hear_all h ms) m
hear_all-append h [] m = refl
hear_all-append h (x ∷ ms) m = hear_all-append (hear h x) ms m

pub hear_chunks-append :
    (h : Heard) (cs : List PreparedChunk) (c : PreparedChunk)
    → hear_chunks h (cs ++ c ∷ []) ≡ hear_chunk (hear_chunks h cs) c
hear_chunks-append h [] c = refl
hear_chunks-append h (x ∷ cs) c = hear_chunks-append (hear_chunk h x) cs c
