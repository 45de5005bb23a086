-- ===== src/Conversation/Db.antt =====
-- glados/core/conversation_db.py: the table of messages. Its rows are listed in the order of
-- insertion. SQLite and the coding of a row's JSON columns are taken to work.
pub mod Order
pub mod Retention
use text.Mathlib.Text.{starts_with}
use glados_docker.Common.{
  Bool, Dict, Items, Json, List, Option, String, [], cons, false, first_some, if◌then◌else◌,
  is_some, keep, last?, leb, length, ltb, map, max, nil, none, not, or_else, some, str_eq,
  take_last, true, ℕ, ◌&&◌, ◌++◌, ◌+◌, ◌==◌, ◌||◌, ◌∷◌,
}
use glados_docker.Conversation.Message.{Message, Meta, no_meta, row_meta}

pub record StoredMessage : Type 0 where
  pub id : ℕ
  pub conversation_id : String
  pub idx : ℕ
  pub role : String
  pub content : Option String
  pub tool_calls : Option Items
  pub extra : Dict Json
  pub source : Option String
  pub principal : Option String
  pub ts : ℕ
  pub tier : Option ℕ
  pub ha_conversation_id : Option String

-- The table, and SQLite's next row id.
pub record Db : Type 0 where
  pub rows : List StoredMessage
  pub next_id : ℕ

-- `x or None` for a list that may be absent.
abbrev pub or_none : Option Items → Option Items
or_none none = none
or_none (some nil) = none
or_none (some (cons x xs)) = some (cons x xs)

-- The keys that `extra` keeps: those that no underscore marks as internal.
abbrev pub public_keys : Dict Json → Dict Json
public_keys d = keep (λ e. not (starts_with e.0 "_")) d

-- The row that `append_many` inserts for a message.
unfoldable pub row_of : ℕ → String → ℕ → ℕ → Meta → Message → StoredMessage
unfolding row_meta
row_of id cid idx ts meta m =
    let r = row_meta meta m in
    record {
      id = id;
      conversation_id = cid;
      idx = idx;
      role = m.role;
      content = m.content;
      tool_calls = or_none m.tool_calls;
      extra = public_keys m.extra;
      source = r.source;
      principal = r.principal;
      ts = ts;
      tier = r.tier;
      ha_conversation_id = r.ha_conversation_id;
    }

-- `StoredMessage.to_chat_message`
unfoldable pub to_chat_message : StoredMessage → Message
to_chat_message r = record {
  role = r.role;
  content = r.content;
  tool_calls = or_none r.tool_calls;
  extra = r.extra;
  tier = none;
  source = none;
  ha_conversation_id = none;
  principal = none;
}

abbrev pub in_conv : String → StoredMessage → Bool
in_conv cid r = str_eq r.conversation_id cid

abbrev pub conv : String → Db → List StoredMessage
conv cid db = keep (in_conv cid) db.rows

-- `COALESCE(MAX(idx) + 1, 0)`
unfoldable pub next_idx : List StoredMessage → ℕ
next_idx [] = 0
next_idx (r ∷ rows) = max (r.idx + 1) (next_idx rows)

-- The loop of `append_many`.
unfoldable pub new_rows : ℕ → String → ℕ → ℕ → Meta → List Message → List StoredMessage
unfolding row_of
new_rows id cid idx ts meta [] = []
new_rows id cid idx ts meta (m ∷ ms) =
    row_of id cid idx ts meta m ∷ new_rows (id + 1) cid (idx + 1) ts meta ms

unfoldable pub append_many : String → ℕ → Meta → List Message → Db → Db
unfolding next_idx new_rows
append_many cid ts meta ms db = record {
  rows = db.rows ++ new_rows db.next_id cid (next_idx (conv cid db)) ts meta ms;
  next_id = db.next_id + length ms;
}

-- `msg.setdefault("_source", source)`, where a default is given.
abbrev pub default_source : Option String → Message → Message
default_source source m = record m { source = first_some m.source source }

unfoldable pub delete_conversation : String → Db → Db
delete_conversation cid db = record db { rows = keep (λ r. not (in_conv cid r)) db.rows }

unfoldable pub replace_conversation : String → ℕ → Option String → List Message → Db → Db
replace_conversation cid ts source ms db =
    append_many cid ts no_meta (map (default_source source) ms) (delete_conversation cid db)

-- `ORDER BY idx ASC`
unfoldable pub insert_idx : StoredMessage → List StoredMessage → List StoredMessage
insert_idx r [] = r ∷ []
insert_idx r (s ∷ rows) = if leb r.idx s.idx then r ∷ s ∷ rows else s ∷ insert_idx r rows

unfoldable pub sort_idx : List StoredMessage → List StoredMessage
unfolding insert_idx
sort_idx [] = []
sort_idx (r ∷ rows) = insert_idx r (sort_idx rows)

abbrev latest : Option ℕ → List StoredMessage → List StoredMessage
latest none rows = rows
latest (some limit) rows = take_last limit rows

unfoldable pub snapshot : String → Option ℕ → Db → List StoredMessage
unfolding sort_idx
snapshot cid limit db = latest limit (sort_idx (conv cid db))

unfoldable pub messages_since : String → ℕ → Db → List StoredMessage
unfolding sort_idx
messages_since cid since db = sort_idx (keep (λ r. in_conv cid r && leb since r.ts) db.rows)

unfoldable pub latest_ha_conversation_id : String → Db → Option String
unfolding sort_idx
latest_ha_conversation_id cid db =
    elim (last? (sort_idx (keep (λ r. in_conv cid r && is_some r.ha_conversation_id) db.rows))) [
      | none ↦ none
      | some r ↦ r.ha_conversation_id
    ]

abbrev pub control_tier : Option ℕ → Bool
control_tier none = false
control_tier (some t) = t == 1 || t == 2

-- The tier, the time and the conversation id of the last assistant row, if its tier is 1 or 2.
unfoldable pub latest_assistant_tier_exchange : String → Db → Option (ℕ × ℕ × Option String)
unfolding sort_idx
latest_assistant_tier_exchange cid db =
    elim (last? (sort_idx (keep (λ r. in_conv cid r && str_eq r.role "assistant") db.rows))) [
      | none ↦ none
      | some r ↦
          if control_tier r.tier then some (or_else r.tier 0, r.ts, r.ha_conversation_id) else none
    ]

unfoldable pub count : String → Db → ℕ
count cid db = length (conv cid db)

abbrev pub in_scope : Option String → StoredMessage → Bool
in_scope none r = true
in_scope (some cid) r = in_conv cid r

-- The condition of the `DELETE` of `prune_before`.
abbrev pub is_pruned : ℕ → Option String → Bool → StoredMessage → Bool
is_pruned cutoff cid protect r =
    ltb r.ts cutoff && in_scope cid r && (not protect || not (control_tier r.tier))

unfoldable pub prune_before : ℕ → Option String → Bool → Db → ℕ × Db
prune_before cutoff cid protect db = (
  length (keep (is_pruned cutoff cid protect) db.rows),
  record db { rows = keep (λ r. not (is_pruned cutoff cid protect r)) db.rows },
)
