-- ===== src/Conversation/Tests.antt =====
-- Runs of the conversation history at concrete inputs.
use glados_docker.Common.{
  List, String, [], arith, drop, length, map, none, refl, some, take, take_last, true, ◌++◌, ◌+◌,
  ◌∷◌, ◌≡◌, ◌≤◌,
}
use glados_docker.Conversation.Message.{Message, no_meta, stamp_row_meta}
use glados_docker.Conversation.Db.{
  Db, append_many, delete_conversation, prune_before, replace_conversation, snapshot,
  to_chat_message,
}
use glados_docker.Conversation.Store.{
  ConversationStore, append, append_multiple, fails_after, init, load_from_db, replace_all, works,
}
use glados_docker.Conversation.Store.Chat.{as_chat}
use glados_docker.Conversation.Store.Restart.{
  opened, restart, restart-interleave, restart-replace_all_fails,
}
use glados_docker.Conversation.Store.Appends.{Step, begins, begun, interleave, landed, lands, step}
use glados_docker.Conversation.Compaction.{compacted, summary_message, tick}
use glados_docker.Conversation.Compaction.Keeps.{block, candidates, preprompt_twice, tick_keeps}

program : Unit {0}
unfolding init load_from_db append append_multiple replace_all append_many delete_conversation
    snapshot replace_conversation restart tick interleave step to_chat_message prune_before
program = tt

abbrev said : String → String → Message
said role text = record {
  role = role;
  content = some text;
  tool_calls = none;
  extra = [];
  tier = none;
  source = none;
  ha_conversation_id = none;
  principal = none;
}

abbrev preprompt : List Message
preprompt = said "system" "You are GLaDOS." ∷ []

abbrev empty_db : Db
empty_db = record { rows = []; next_id = 1 }

-- The second append reaches the database first, and the first fails there after one of its rows.
abbrev steps : List Step
steps =
    begins no_meta (said "user" "lights on" ∷ said "user" "now" ∷ [])
    ∷ begins (record no_meta { tier = some 1 }) (said "assistant" "Fine." ∷ [])
    ∷ lands 1 works 11
    ∷ lands 0 (fails_after 1) 12
    ∷ begins no_meta (said "user" "thanks" ∷ [])
    ∷ []

restart-interleave_example :
    (let s = interleave steps (opened preprompt "default" empty_db) in
      (map as_chat s.store.messages ≡ map as_chat preprompt ++ map as_chat (begun steps))
      × (map as_chat (restart preprompt s.store).messages
          ≡ map as_chat preprompt ++ take_last 200 (map as_chat (landed [] steps))))
restart-interleave_example = restart-interleave preprompt "default" empty_db steps refl

two_rows : map as_chat (landed [] steps) ≡ said "assistant" "Fine." ∷ said "user" "lights on" ∷ []
unfolding program stamp_row_meta
two_rows = refl

abbrev stored : ConversationStore
stored = record {
  messages =
      preprompt
      ++ said "user" "a" ∷ said "assistant" "b" ∷ said "user" "c" ∷ said "assistant" "d" ∷ [];
  version = 4;
  preprompt_count = 1;
  db = some empty_db;
  conversation_id = "default";
}

restart-replace_all_fails_example :
    (map as_chat
        (restart preprompt (replace_all (fails_after 2) 20 none stored.messages stored)).messages
      ≡ map as_chat preprompt ++ take_last 200 (map as_chat (take 2 stored.messages)))
    × (map as_chat (replace_all (fails_after 2) 20 none stored.messages stored).messages
        ≡ map as_chat stored.messages)
restart-replace_all_fails_example =
    restart-replace_all_fails preprompt 2 20 none stored.messages stored empty_db refl

-- The second snapshot, and the store with a message that was appended after it.
abbrev current : List Message
current = stored.messages ++ said "user" "e" ∷ []

abbrev appended : ConversationStore
appended = record stored { messages = current ++ said "user" "f" ∷ [] }

tick_keeps_example :
    (let n = block (candidates 1 1 stored.messages) in
      let (status, s') = tick 9000 8000 1 (some "talk") works 20 stored.messages current appended in
      (status ≡ compacted n)
      × (1 + n + 1 ≤ length stored.messages)
      × (map as_chat s'.messages
          ≡ map as_chat (take 1 current ++ summary_message "talk" ∷ drop (1 + n) current)))
tick_keeps_example =
    tick_keeps 9000 8000 1 "talk" works 20 stored.messages current appended (omega arith)
      (omega arith) (omega arith)

preprompt_twice_example :
    (rest : List Message) × (map as_chat
        (restart preprompt
          (tick 9000 8000 1 (some "talk") works 20 stored.messages current appended).1).messages
      ≡ map as_chat preprompt
        ++ map as_chat preprompt
        ++ map as_chat (summary_message "talk" ∷ rest))
preprompt_twice_example =
    preprompt_twice preprompt 9000 8000 1 "talk" 20 stored.messages current appended empty_db
      (omega arith) (omega arith) (omega arith) refl refl (omega arith)

abbrev old_db : Db
old_db = append_many "other" 2 no_meta (said "user" "late" ∷ []) (
    append_many "default" 1 (record no_meta { tier = some 2 }) (said "assistant" "Done." ∷ [])
      (append_many "default" 1 no_meta (said "user" "lights on" ∷ []) empty_db))

one_deleted : (prune_before 2 none true old_db).0 ≡ 1
unfolding program
one_deleted = refl
