-- ===== src/Core/Player/Transcript.antt =====
-- What the conversation store gets, whatever the order in which the threads run.
use glados_docker.Common.{
  Bool, Bool-cases, List, Option, [], any_of, ap, arith, false, if◌then◌else◌, inl, inr, length,
  none, refl, some, subst, sym, true, ℕ, ◌++◌, ◌==◌, ◌∙◌, ◌∷◌, ◌≡◌,
}
use glados_docker.Core.Player.{
  AudioMessage, BufferedSpeechPlayer, PreparedChunk, accumulate, init, long_enough, next_chunk,
  play_chunk, put_message, should_start_playback, take_message,
}
use glados_docker.Core.Player.Turns.{
  begin_stream, end_chunk, finished, idle_or_stream, player_step, stream_turn, wake_up,
}
use glados_docker.Core.Player.Heard.{
  Heard, Op, accumulate_op, hear, hear_all, hear_all-append, hear_chunk, hear_chunks, player_op,
  playing_first, put_op, run, sent, step, will_hear,
}
use glados_docker.Core.Player.Accepts.{Agrees, accept-playing, accept-will_hear, is_sound}

take-Agrees :
    (ms : List AudioMessage) (p : BufferedSpeechPlayer) (h : Heard)
    → p.audio_output_queue ≡ ms
    → Agrees p h
    → Agrees (take_message false ms p) h
take-Agrees [] p h e a = a
take-Agrees (m ∷ ms) p h e a =
    let p' : BufferedSpeechPlayer = record p { audio_output_queue = ms } in
    let before =
      hear_chunks (p.conversation, p.text_accumulator) (playing_first p.playing p.play_buffer) in
    record {
      sound = ap is_sound (accept-playing m p') ∙ a.sound;
      on_its_way = accept-will_hear m p' ∙ ap (hear_all before) (sym e) ∙ a.on_its_way;
    }

play-Agrees :
    (c : PreparedChunk) (cs : List PreparedChunk) (p : BufferedSpeechPlayer) (h : Heard)
    → p.playing ≡ none
    → p.play_buffer ≡ c ∷ cs
    → Agrees p h
    → Agrees (play_chunk c (record p { play_buffer = cs })) h
play-Agrees c cs p h n e a =
    let way : hear_all (hear_chunks (hear_chunk (p.conversation, p.text_accumulator) c) cs)
          p.audio_output_queue
        ≡ h =
      subst
        (λ o.
          hear_all (hear_chunks (p.conversation, p.text_accumulator) (playing_first o (c ∷ cs)))
            p.audio_output_queue
          ≡ h)
        n
        (subst
          (λ bs.
            hear_all (hear_chunks (p.conversation, p.text_accumulator) (playing_first p.playing bs))
              p.audio_output_queue
            ≡ h)
          e a.on_its_way) in
    elim (Bool-cases c.is_eos) [
      | inl eos ↦ rw eos (record { sound = rw n refl; on_its_way = rw n (rw eos at way) })
      | inr more ↦ rw more (record { sound = refl; on_its_way = rw more at way })
    ]

next-Agrees :
    (cs : List PreparedChunk) (p : BufferedSpeechPlayer) (h : Heard)
    → p.playing ≡ none
    → p.play_buffer ≡ cs
    → Agrees p h
    → Agrees (next_chunk cs p) h
next-Agrees [] p h n e a = record { sound = a.sound; on_its_way = a.on_its_way }
next-Agrees (c ∷ cs) p h n e a = play-Agrees c cs p h n e a

wake-Agrees :
    (cs : List PreparedChunk) (p : BufferedSpeechPlayer) (h : Heard)
    → Agrees p h
    → Agrees (wake_up cs p) h
wake-Agrees [] p h a = record { sound = a.sound; on_its_way = a.on_its_way }
wake-Agrees (c ∷ cs) p h a = record { sound = a.sound; on_its_way = a.on_its_way }

stream-Agrees :
    (waiting interrupt : Bool) (p : BufferedSpeechPlayer) (h : Heard)
    → p.playing ≡ none
    → Agrees p h
    → Agrees
        (if waiting
          then wake_up p.play_buffer p
          else if interrupt
          then record p { streaming = false }
          else next_chunk p.play_buffer p)
        h
stream-Agrees true interrupt p h n a = wake-Agrees p.play_buffer p h a
stream-Agrees false true p h n a = record { sound = a.sound; on_its_way = a.on_its_way }
stream-Agrees false false p h n a = next-Agrees p.play_buffer p h n refl a

begin-Agrees :
    (b : Bool) (p : BufferedSpeechPlayer) (h : Heard) → Agrees p h → Agrees (begin_stream (b, p)) h
begin-Agrees true p h a = record { sound = a.sound; on_its_way = a.on_its_way }
begin-Agrees false p h a = a

start-Agrees :
    (empty eos : Bool) (p : BufferedSpeechPlayer) (h : Heard)
    → Agrees p h
    → Agrees
        (begin_stream (
          if empty
          then (false, record p { buffer_ready = false })
          else if eos
          then (true, p)
          else (long_enough p, p)))
        h
start-Agrees true eos p h a = record { sound = a.sound; on_its_way = a.on_its_way }
start-Agrees false true p h a = begin-Agrees true p h a
start-Agrees false false p h a = begin-Agrees (long_enough p) p h a

idle-Agrees :
    (streaming : Bool) (p : BufferedSpeechPlayer) (h : Heard)
    → p.playing ≡ none
    → Agrees p h
    → Agrees (if streaming then stream_turn p else begin_stream (should_start_playback p)) h
unfolding should_start_playback
idle-Agrees true p h n a = stream-Agrees p.waiting p.interrupt_flag p h n a
idle-Agrees false p h n a =
    start-Agrees (length p.play_buffer == 0) (any_of (λ c. c.is_eos) p.play_buffer) p h a

player-Agrees :
    (o : Option PreparedChunk) (p : BufferedSpeechPlayer) (h : Heard)
    → p.playing ≡ o
    → Agrees p h
    → Agrees (idle_or_stream finished o p) h
unfolding end_chunk
player-Agrees none p h n a = idle-Agrees p.streaming p h n a
player-Agrees (some c) p h e a =
    let more : c.is_eos ≡ false = ground (arith, ap is_sound e, a.sound) in
    let way : hear_all
          (hear_chunks (hear_chunk (p.conversation, p.text_accumulator) c) p.play_buffer)
          p.audio_output_queue
        ≡ h =
      subst
        (λ o.
          hear_all
            (hear_chunks (p.conversation, p.text_accumulator) (playing_first o p.play_buffer))
            p.audio_output_queue
          ≡ h)
        e a.on_its_way in
    record { sound = refl; on_its_way = rw more at way }

put-Agrees :
    (m : AudioMessage) (p : BufferedSpeechPlayer) (h : Heard)
    → Agrees p h
    → Agrees (put_message m p) (hear h m)
put-Agrees m p h a = record {
  sound = a.sound;
  on_its_way =
      hear_all-append
        (hear_chunks (p.conversation, p.text_accumulator) (playing_first p.playing p.play_buffer))
        p.audio_output_queue m
      ∙ ap (λ g. hear g m) a.on_its_way;
}

run-Agrees :
    (p : BufferedSpeechPlayer) (ms : List AudioMessage) (ops : List Op)
    → Agrees p (hear_all ([], []) ms)
    → Agrees (run p ops) (hear_all ([], []) (sent ms ops))
unfolding run step accumulate player_step
run-Agrees p ms [] a = a
run-Agrees p ms (put_op m ∷ ops) a = run-Agrees (put_message m p) (ms ++ m ∷ []) ops (
    subst (Agrees (put_message m p)) (sym (hear_all-append ([], []) ms m))
      (put-Agrees m p (hear_all ([], []) ms) a))
run-Agrees p ms (accumulate_op ∷ ops) a =
    run-Agrees (accumulate false p) ms ops
      (take-Agrees p.audio_output_queue p (hear_all ([], []) ms) refl a)
run-Agrees p ms (player_op ∷ ops) a =
    run-Agrees (player_step finished p) ms ops
      (player-Agrees p.playing p (hear_all ([], []) ms) refl a)

init-Agrees : (rate seconds : ℕ) → Agrees (init rate seconds) ([], [])
unfolding init
init-Agrees rate seconds = record { sound = refl; on_its_way = refl }

-- However the synthesizer and the two threads take turns, without mute and interruption: what is in
-- the conversation store, followed by what is on its way through the accumulated texts, the chunk
-- that is played, the buffer and the queue, is what the messages of the synthesizer say, in their
-- order: one message of the assistant for each response with sound, with its texts joined and the
-- lane of its end as the source.
pub run-hear_all :
    (rate seconds : ℕ) (ops : List Op)
    → will_hear (run (init rate seconds) ops) ≡ hear_all ([], []) (sent [] ops)
run-hear_all rate seconds ops =
    (run-Agrees (init rate seconds) [] ops (init-Agrees rate seconds)).on_its_way
