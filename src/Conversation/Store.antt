-- ===== src/Conversation/Store.antt =====
-- glados/core/conversation_store.py: `ConversationStore`. A method returns its result and the store
-- after it. The messages are values: a message that a caller keeps and changes later is not
-- modelled, but the stamp that a write puts on the caller's message is in what the store holds. A
-- write changes the list under the store's lock and then, without it, the database: `remember` and
-- `persist` are these parts of an append. `append`, `append_multiple` and `replace_all` are their
-- parts with no other call between them. The connection commits each statement.
pub mod Chat
pub mod Appends
pub mod Restart
use glados_docker.Common.{
  Bool, List, Option, String, [], false, get_elem?, length, map, none, set, some, take, true, ℕ,
  ◌++◌, ◌+◌, ◌∷◌,
}
use glados_docker.Conversation.Message.{Message, Meta, stamp_row_meta}
use glados_docker.Conversation.Db.{
  Db, append_many, default_source, latest_assistant_tier_exchange, replace_conversation, snapshot,
  to_chat_message,
}

pub record ConversationStore : Type 0 where
  pub messages : List Message
  pub version : ℕ
  pub preprompt_count : ℕ
  pub db : Option Db
  pub conversation_id : String

unfoldable pub init : List Message → Option Db → String → ConversationStore
init initial db cid = record {
  messages = initial;
  version = 0;
  preprompt_count = length initial;
  db = db;
  conversation_id = cid;
}

abbrev load_rows : Option ℕ → ConversationStore → Option Db → ℕ × ConversationStore
load_rows limit s none = (0, s)
load_rows limit s (some d) =
    let stored = snapshot s.conversation_id limit d in
    (
      length stored,
      record s { messages = s.messages ++ map to_chat_message stored; version = s.version + 1 },
    )

unfoldable pub load_from_db : Option ℕ → ConversationStore → ℕ × ConversationStore
load_from_db limit s = load_rows limit s s.db

-- How a call of the database ends: it returns, or it raises before its first statement, or, after
-- the deletion of a replacement, when it has inserted some rows.
pub data Fault : Type 0 where
  works fails_first : Fault
  fails_after : ℕ → Fault

-- The messages whose rows are inserted, which stay, since each `INSERT` commits.
abbrev pub inserted : Fault → List Message → List Message
inserted works ms = ms
inserted fails_first ms = []
inserted (fails_after n) ms = take n ms

abbrev pub persist_in : Fault → ℕ → Meta → List Message → String → Option Db → Option Db
persist_in fault ts meta ms cid none = none
persist_in fault ts meta ms cid (some d) = some (append_many cid ts meta (inserted fault ms) d)

-- The part of an append under the lock, on stamped messages.
abbrev pub remember : List Message → ConversationStore → ConversationStore
remember ms s = record s { messages = s.messages ++ ms; version = s.version + 1 }

-- `_persist_one`, and the same of `append_multiple`: a failure is logged and ignored.
abbrev pub persist : Fault → ℕ → Meta → List Message → ConversationStore → ConversationStore
persist fault ts meta ms s = record s { db = persist_in fault ts meta ms s.conversation_id s.db }

unfoldable pub append_multiple :
    Fault → ℕ → Meta → List Message → ConversationStore → ℕ × ConversationStore
unfolding stamp_row_meta
append_multiple fault ts meta ms s =
    let stamped = map (stamp_row_meta meta) ms in
    let s' = remember stamped s in (length s'.messages, persist fault ts meta stamped s')

unfoldable pub append : Fault → ℕ → Meta → Message → ConversationStore → ℕ × ConversationStore
unfolding stamp_row_meta
append fault ts meta m s =
    let stamped = stamp_row_meta meta m ∷ [] in
    let s' = remember stamped s in (length s'.messages, persist fault ts meta stamped s')

-- What `replace_conversation` does to the database.
abbrev pub replaced_db : Fault → ℕ → Option String → List Message → String → Db → Db
replaced_db works ts source ms cid d = replace_conversation cid ts source ms d
replaced_db fails_first ts source ms cid d = d
replaced_db (fails_after n) ts source ms cid d = replace_conversation cid ts source (take n ms) d

-- The messages that `replace_conversation` has by then given a default source are those in memory.
abbrev pub defaulted : Fault → Option String → List Message → List Message
defaulted fails_first source ms = ms
defaulted works source ms = map (default_source source) ms
defaulted (fails_after n) source ms = map (default_source source) ms

abbrev pub replace_in :
    Fault → ℕ → Option String → List Message → ConversationStore → Option Db → ConversationStore
replace_in fault ts source ms s none = record s { messages = ms; version = s.version + 1 }
replace_in fault ts source ms s (some d) = record s {
  messages = defaulted fault source ms;
  version = s.version + 1;
  db = some (replaced_db fault ts source ms s.conversation_id d);
}

unfoldable pub replace_all :
    Fault → ℕ → Option String → List Message → ConversationStore → ConversationStore
replace_all fault ts source ms s = replace_in fault ts source ms s s.db

-- `modifier` is the callable, or the update by the dictionary; an index is not negative.
unfoldable pub modify_message :
    ℕ → (Message → Message) → ConversationStore → Bool × ConversationStore
modify_message index modifier s = elim (get_elem? s.messages index) [
  | none ↦ (false, s)
  | some m ↦
      (true, record s { messages = set s.messages index (modifier m); version = s.version + 1 })
]

unfoldable pub latest_exchange : ConversationStore → Option (ℕ × ℕ × Option String)
latest_exchange s = elim s.db [
  | none ↦ none
  | some d ↦ latest_assistant_tier_exchange s.conversation_id d
]
