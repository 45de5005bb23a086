-- ===== src/Conversation/Compaction/Keeps.antt =====
-- What a compaction keeps: the preprompt before and everything after the compacted block.
use mathlib.Core.List.{map-append, append_assoc}
use glados_docker.Conversation.Store.Restart.{restart, restart-replace_all}
use glados_docker.Common.{
  List, Option, String, ap, append_assoc, arith, drop, false, leb, length, ltb, map, map-append,
  max, none, refl, some, sym, take, take_last, true, ℕ, ◌++◌, ◌+◌, ◌-◌, ◌/◌, ◌∙◌, ◌∷◌, ◌≡◌, ◌≤◌,
}
use glados_docker.Conversation.Compaction.Rebuild.{
  compactable-upto, length-upto, rebuild_start, take-upto, upto, upto_eq,
}
use glados_docker.Conversation.Db.{Db}
use glados_docker.Conversation.Message.{Message}
use glados_docker.Conversation.Store.Chat.{as_chat, map-default}
use glados_docker.Conversation.Store.{
  ConversationStore, Fault, defaulted, fails_after, fails_first, replace_all, replace_in, works,
}
use glados_docker.Conversation.Compaction.{
  chosen, compactable, compacted, enough, rebuild, summary_message, tick,
}

-- How many messages a compaction of so many takes away.
abbrev pub block : ℕ → ℕ
block candidates = max 3 (candidates / 2)

abbrev pub candidates : ℕ → ℕ → List Message → ℕ
candidates preprompt_count preserve_recent ms = length ms - preserve_recent - preprompt_count

module _ (lo keep' : ℕ) (ms : List Message) where
  compactable-candidates :
      compactable lo (length ms - keep') 0 ms ≡ upto lo (candidates lo keep' ms)
  compactable-candidates =
      compactable-upto lo (length ms - keep') 0 ms (omega arith)
      ∙ upto_eq (max 0 lo) lo (length ms - keep' - max 0 lo) (candidates lo keep' ms) (omega arith)
          (omega arith)

  enough-candidates : enough lo keep' ms ≡ leb 3 (candidates lo keep' ms)
  unfolding enough
  enough-candidates =
      ap (λ is. leb 3 (length is)) compactable-candidates
      ∙ ap (leb 3) (length-upto lo (candidates lo keep' ms))

  chosen-upto :
      3 ≤ candidates lo keep' ms → chosen lo keep' ms ≡ upto lo (block (candidates lo keep' ms))
  unfolding chosen
  chosen-upto h =
      let n = candidates lo keep' ms in
      rw (compactable-candidates, length-upto) (take-upto (block n) lo n (omega arith))

messages-replace_all :
    (fault : Fault) (ts : ℕ) (source : Option String) (ms : List Message) (s : ConversationStore)
    → map as_chat (replace_all fault ts source ms s).messages ≡ map as_chat ms
unfolding replace_all
messages-replace_all fault ts source ms s = shown s.db
  where
    defaults : (f : Fault) → map as_chat (defaulted f source ms) ≡ map as_chat ms
    defaults works = map-default source ms
    defaults fails_first = refl
    defaults (fails_after n) = map-default source ms

    shown :
        (o : Option Db) → map as_chat (replace_in fault ts source ms s o).messages ≡ map as_chat ms
    shown none = refl
    shown (some d) = defaults fault

-- A compaction that takes place, with `ms` the first snapshot and `current` the second, which has no
-- fewer messages, replaces a block of `n` messages right after the preprompt by the summary, where
-- `n` is at least 3 and at most half of the candidates, or 3. The store has then what the second
-- snapshot had before and after the block: the preprompt, the `preserve_recent` newest messages of
-- the first snapshot and what was written up to the second, whatever was written after it.
pub tick_keeps :
    (tokens threshold keep' : ℕ) (text : String) (fault : Fault) (ts : ℕ)
    (ms current : List Message) (s : ConversationStore)
    → threshold ≤ tokens
    → 3 ≤ candidates s.preprompt_count keep' ms
    → length ms ≤ length current
    → (let n = block (candidates s.preprompt_count keep' ms) in
        let (status, s') = tick tokens threshold keep' (some text) fault ts ms current s in
        (status ≡ compacted n)
        × (s.preprompt_count + n + keep' ≤ length ms)
        × (map as_chat s'.messages
            ≡ map as_chat (
                take s.preprompt_count current
                ++ summary_message text ∷ drop (s.preprompt_count + n) current)))
unfolding tick
tick_keeps tokens threshold keep' text fault ts ms current s busy many grown =
    let lo = s.preprompt_count in
    let n = block (candidates lo keep' ms) in
    let quiet : ltb tokens threshold ≡ false = ground arith in
    let go : enough lo keep' ms ≡ true = enough-candidates lo keep' ms ∙ ground arith in
    rw (quiet, go, chosen-upto lo keep' ms many)
      (
        ap compacted (length-upto lo n),
        ground arith,
        messages-replace_all fault ts (some "compaction")
              (rebuild (upto lo n) (summary_message text) false 0 current) s
            ∙ ap (map as_chat)
                (rebuild_start lo n (summary_message text) current (omega arith) (ground arith)),
      )

take_last_all {ℓ} : {A : Type ℓ} (n : ℕ) (xs : List A) → length xs ≤ n → take_last n xs ≡ xs
take_last_all n xs h =
    let none_dropped : length xs - n ≡ 0 = omega (arith, h) in ap (λ k. drop k xs) none_dropped

-- A restart after a compaction that takes place, where the second snapshot begins with the preprompt,
-- the compacted history is no longer than the 200 messages that a restart loads, and no other write
-- comes between the parts of the replacement or after it, shows the language model the preprompt
-- twice.
pub preprompt_twice :
    (pre : List Message) (tokens threshold keep' : ℕ) (text : String) (ts : ℕ)
    (ms current : List Message) (s : ConversationStore) (d : Db)
    → threshold ≤ tokens
    → 3 ≤ candidates s.preprompt_count keep' ms
    → length ms ≤ length current
    → s.db ≡ some d
    → take s.preprompt_count current ≡ pre
    → (let rest =
          drop (s.preprompt_count + block (candidates s.preprompt_count keep' ms)) current in
        length (map as_chat (pre ++ summary_message text ∷ rest)) ≤ 200)
    → (rest : List Message) × (map as_chat
          (restart pre (tick tokens threshold keep' (some text) works ts ms current s).1).messages
        ≡ map as_chat pre ++ map as_chat pre ++ map as_chat (summary_message text ∷ rest))
unfolding tick
preprompt_twice pre tokens threshold keep' text ts ms current s d busy many grown e first short =
    let lo = s.preprompt_count in
    let n = block (candidates lo keep' ms) in
    let quiet : ltb tokens threshold ≡ false = ground arith in
    let go : enough lo keep' ms ≡ true = enough-candidates lo keep' ms ∙ ground arith in
    let rest = drop (lo + n) current in
    (
      rest,
      rw (quiet, go, chosen-upto lo keep' ms many)
          (restart-replace_all pre ts (some "compaction")
              (rebuild (upto lo n) (summary_message text) false 0 current) s d e
            ∙ ap (λ xs. map as_chat pre ++ take_last 200 (map as_chat xs))
                (rebuild_start lo n (summary_message text) current (omega arith) (ground arith)
                  ∙ ap (λ xs. xs ++ summary_message text ∷ rest) first)
            ∙ ap (◌++◌ (map as_chat pre)) (
                take_last_all 200 (map as_chat (pre ++ summary_message text ∷ rest)) short
                ∙ map-append as_chat pre (summary_message text ∷ rest))
            ∙ sym (
                append_assoc (map as_chat pre) (map as_chat pre)
                  (map as_chat (summary_message text ∷ rest)))),
    )
