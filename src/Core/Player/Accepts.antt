-- ===== src/Core/Player/Accepts.antt =====
-- What accepting a message does to the texts that are still to be heard.
use glados_docker.Common.{
  Bool, Bool-cases, List, Option, [], ap, false, inl, inr, none, not, refl, some, true, ◌++◌, ◌∷◌,
  ◌≡◌,
}
use glados_docker.Core.Player.{
  AudioMessage, BufferedSpeechPlayer, PreparedChunk, accept_message, chunk_of, eos_chunk, has_sound,
}
use glados_docker.Core.Player.Heard.{
  Heard, hear, hear_all, hear_chunk, hear_chunks, hear_chunks-append, playing_first, will_hear,
}

-- The chunk that is played is no end of a stream.
abbrev pub is_sound : Option PreparedChunk → Bool
is_sound none = true
is_sound (some c) = not c.is_eos

pub record Agrees (p : BufferedSpeechPlayer) (h : Heard) : Type 0 where
  pub sound : is_sound p.playing ≡ true
  pub on_its_way : will_hear p ≡ h

pushed :
    (h : Heard) (o : Option PreparedChunk) (cs : List PreparedChunk) (c : PreparedChunk)
    → hear_chunks h (playing_first o (cs ++ c ∷ []))
      ≡ hear_chunk (hear_chunks h (playing_first o cs)) c
pushed h none cs c = hear_chunks-append h cs c
pushed h (some d) cs c = hear_chunks-append h (d ∷ cs) c

pub accept-will_hear :
    (m : AudioMessage) (p : BufferedSpeechPlayer)
    → will_hear (accept_message false m p)
      ≡ hear_all
          (hear
            (hear_chunks
              (p.conversation, p.text_accumulator)
              (playing_first p.playing p.play_buffer))
            m)
          p.audio_output_queue
unfolding accept_message
accept-will_hear m p =
    let h =
      hear_chunks (p.conversation, p.text_accumulator) (playing_first p.playing p.play_buffer) in
    elim (Bool-cases m.is_eos) [
      | inl e ↦ rw e (
          ap (λ g. hear_all g p.audio_output_queue)
            (pushed (p.conversation, p.text_accumulator) p.playing p.play_buffer
              (eos_chunk m.lane)))
      | inr e ↦ elim (Bool-cases (has_sound m)) [
        | inl s ↦
            rw (e, s)
              (ap (λ g. hear_all g p.audio_output_queue)
                (pushed (p.conversation, p.text_accumulator) p.playing p.play_buffer (chunk_of m)))
        | inr s ↦ rw (e, s) refl
      ]
    ]

pub accept-playing :
    (m : AudioMessage) (p : BufferedSpeechPlayer) → (accept_message false m p).playing ≡ p.playing
unfolding accept_message
accept-playing m p = elim (Bool-cases m.is_eos) [
  | inl e ↦ rw e refl
  | inr e ↦ elim (Bool-cases (has_sound m)) [ inl s ↦ rw (e, s) refl | inr s ↦ rw (e, s) refl ]
]
