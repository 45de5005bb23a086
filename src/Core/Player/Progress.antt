-- ===== src/Core/Player/Progress.antt =====
-- The player's thread comes to the end of a response that is in its buffer.
use glados_docker.Common.{
  Bool, Bool-cases, List, String, [], any_of, ap, arith, false, if◌then◌else◌, inl, inr, length,
  none, refl, some, subst, sym, true, ◌++◌, ◌==◌, ◌∷◌, ◌≡◌,
}
use glados_docker.Core.Player.{
  BufferedSpeechPlayer, PreparedChunk, Stored, flush, reply, should_start_playback,
}
use glados_docker.Core.Player.Turns.{end_chunk, finished, player_step}

-- Steps of the player's thread, each chunk of which is played to its end.
pub data Reaches : BufferedSpeechPlayer → BufferedSpeechPlayer → Type 0 where
  at_once : {p : BufferedSpeechPlayer} → Reaches p p
  after_step : {p q : BufferedSpeechPlayer} → Reaches (player_step finished p) q → Reaches p q

-- The store after the first end of a stream among the chunks.
abbrev pub first_reply : List Stored → List String → List PreparedChunk → List Stored
first_reply out texts [] = out
first_reply out texts (c ∷ cs) =
    if c.is_eos then out ++ reply texts c.lane else first_reply out (texts ++ c.text ∷ []) cs

abbrev pub has_end : List PreparedChunk → Bool
has_end cs = any_of (λ c. c.is_eos) cs

-- The player in its stream, between two chunks.
abbrev in_stream : BufferedSpeechPlayer → BufferedSpeechPlayer
in_stream p = record p { streaming = true; waiting = false; interrupt_flag = false; playing = none }

abbrev Replies : BufferedSpeechPlayer → List Stored → Type 0
Replies p out =
    (q : BufferedSpeechPlayer) × (r : Reaches p q) × (q.conversation ≡ out)
    × (q.text_accumulator ≡ [])
    × (q.streaming ≡ false)

one_more :
    (p q : BufferedSpeechPlayer) (out : List Stored)
    → player_step finished p ≡ q
    → Replies q out
    → Replies p out
one_more p q out e (r, way, a, b, c) =
    (r, after_step (subst (λ s. Reaches s r) (sym e) way), a, b, c)

eos_step :
    (c : PreparedChunk) (cs : List PreparedChunk) (p : BufferedSpeechPlayer)
    → c.is_eos ≡ true
    → player_step finished (in_stream (record p { play_buffer = c ∷ cs }))
      ≡ flush c.lane (in_stream (record p { play_buffer = cs }))
unfolding player_step
eos_step c cs p e = rw e refl

play_step :
    (c : PreparedChunk) (cs : List PreparedChunk) (p : BufferedSpeechPlayer)
    → c.is_eos ≡ false
    → player_step finished (in_stream (record p { play_buffer = c ∷ cs }))
      ≡ record (in_stream (record p { play_buffer = cs })) {
        playing = some c;
        currently_speaking = true;
      }
unfolding player_step
play_step c cs p e =
    ap
      (λ b.
        if b
        then flush c.lane (in_stream (record p { play_buffer = cs }))
        else record (in_stream (record p { play_buffer = cs })) {
          playing = some c;
          currently_speaking = true;
        })
      e

end_step :
    (c : PreparedChunk) (cs : List PreparedChunk) (p : BufferedSpeechPlayer)
    → player_step finished (record (in_stream (record p { play_buffer = cs })) {
      playing = some c;
      currently_speaking = true;
    })
      ≡ in_stream (record p {
        play_buffer = cs;
        text_accumulator = p.text_accumulator ++ c.text ∷ [];
        currently_speaking = false;
      })
unfolding player_step end_chunk
end_step c cs p = refl

stream-Replies :
    (cs : List PreparedChunk) (p : BufferedSpeechPlayer)
    → has_end cs ≡ true
    → Replies
        (in_stream (record p { play_buffer = cs }))
        (first_reply p.conversation p.text_accumulator cs)
stream-Replies [] p h = cc
stream-Replies (c ∷ cs) p h = elim (Bool-cases c.is_eos) [
  | inl e ↦
      one_more (in_stream (record p { play_buffer = c ∷ cs }))
        (flush c.lane (in_stream (record p { play_buffer = cs })))
        (first_reply p.conversation p.text_accumulator (c ∷ cs)) (eos_step c cs p e)
        (
          flush c.lane (in_stream (record p { play_buffer = cs })),
          at_once,
          ground (arith, e),
          refl,
          refl,
        )
  | inr e ↦
      let heard : BufferedSpeechPlayer = record p {
        text_accumulator = p.text_accumulator ++ c.text ∷ [];
        currently_speaking = false;
      } in
      let out = first_reply p.conversation p.text_accumulator (c ∷ cs) in
      one_more (in_stream (record p { play_buffer = c ∷ cs })) _ out (play_step c cs p e) (
        one_more _ (in_stream (record heard { play_buffer = cs })) out (end_step c cs p) (
          subst (Replies (in_stream (record heard { play_buffer = cs }))) (ground (arith, e))
            (stream-Replies cs heard (ground (arith, e)))))
]

-- The player outside its stream.
abbrev pub idle : BufferedSpeechPlayer → BufferedSpeechPlayer
idle p = record p { streaming = false; waiting = false; playing = none }

started :
    (p : BufferedSpeechPlayer)
    → (length p.play_buffer == 0) ≡ false
    → has_end p.play_buffer ≡ true
    → player_step finished (idle p) ≡ in_stream p
unfolding player_step should_start_playback
started p n h = rw (n, h) refl

filled : (cs : List PreparedChunk) → has_end cs ≡ true → (length cs == 0) ≡ false
filled [] h = cc
filled (c ∷ cs) h = ground arith

-- A player that is idle, with the end of a response in its buffer, comes by its own steps to the
-- end of a stream: the texts of the response, after those accumulated before, are in the store, and
-- the accumulator is empty.
pub idle_replies :
    (p : BufferedSpeechPlayer)
    → has_end p.play_buffer ≡ true
    → (q : BufferedSpeechPlayer) × (r : Reaches (idle p) q) × (q.conversation
        ≡ first_reply p.conversation p.text_accumulator p.play_buffer)
      × (q.text_accumulator ≡ [])
      × (q.streaming ≡ false)
idle_replies p h =
    one_more (idle p) (in_stream p) (first_reply p.conversation p.text_accumulator p.play_buffer)
      (started p (filled p.play_buffer h) h) (stream-Replies p.play_buffer p h)
