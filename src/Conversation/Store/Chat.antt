-- ===== src/Conversation/Store/Chat.antt =====
-- What the language model is shown of the rows of a conversation.
use mathlib.Core.Path.{ap₂}
use mathlib.Core.List.{map-append}
use text.Mathlib.Text.{starts_with}
use glados_docker.Common.{
  Bool, Dict, Items, Json, List, Option, String, [], ap, arith, cons, keep, map, nil, none, not,
  refl, some, ℕ, ◌++◌, ◌+◌, ◌∙◌, ◌∷◌, ◌≡◌,
}
use glados_docker.Conversation.Message.{Message, Meta, no_meta, stamp_row_meta}
use glados_docker.Conversation.Db.{
  Db, append_many, conv, default_source, delete_conversation, new_rows, next_idx, or_none,
  public_keys, replace_conversation, row_of, to_chat_message,
}
use glados_docker.Conversation.Db.Order.{
  IsOrdered, append_many-IsOrdered, conv-append_many, conv-delete_self,
}

-- A message as the language model is shown it: without the keys that an underscore marks.
abbrev pub as_chat : Message → Message
as_chat m = record {
  role = m.role;
  content = m.content;
  tool_calls = or_none m.tool_calls;
  extra = public_keys m.extra;
  tier = none;
  source = none;
  ha_conversation_id = none;
  principal = none;
}

or_none_idem : (o : Option Items) → or_none (or_none o) ≡ or_none o
or_none_idem none = refl
or_none_idem (some nil) = refl
or_none_idem (some (cons x xs)) = refl

-- A row reads back as its message, without the metadata.
to_chat-row_of :
    (id : ℕ) (cid : String) (idx ts : ℕ) (meta : Meta) (m : Message)
    → to_chat_message (row_of id cid idx ts meta m) ≡ as_chat m
unfolding to_chat_message row_of
to_chat-row_of id cid idx ts meta m = rw (or_none_idem m.tool_calls)

map-new_rows :
    (id : ℕ) (cid : String) (idx ts : ℕ) (meta : Meta) (ms : List Message)
    → map to_chat_message (new_rows id cid idx ts meta ms) ≡ map as_chat ms
unfolding new_rows
map-new_rows id cid idx ts meta [] = refl
map-new_rows id cid idx ts meta (m ∷ ms) =
    cc (to_chat-row_of id cid idx ts meta m, map-new_rows (id + 1) cid (idx + 1) ts meta ms)

pub map-stamp :
    (meta : Meta) (ms : List Message) → map as_chat (map (stamp_row_meta meta) ms) ≡ map as_chat ms
unfolding stamp_row_meta
map-stamp meta [] = refl
map-stamp meta (m ∷ ms) = ap (◌∷◌ (as_chat m)) (map-stamp meta ms)

pub map-default :
    (source : Option String) (ms : List Message)
    → map as_chat (map (default_source source) ms) ≡ map as_chat ms
map-default source [] = refl
map-default source (m ∷ ms) = ap (◌∷◌ (as_chat m)) (map-default source ms)

keep-keep : (p : String × Json → Bool) (d : Dict Json) → keep p (keep p d) ≡ keep p d
keep-keep p [] = refl
keep-keep p (e ∷ d) = ground (arith, keep-keep p d)

pub map-as_chat_idem : (ms : List Message) → map as_chat (map as_chat ms) ≡ map as_chat ms
map-as_chat_idem [] = refl
map-as_chat_idem (m ∷ ms) = cc (
  or_none_idem m.tool_calls,
  keep-keep (λ (e : String × Json). not (starts_with e.0 "_")) m.extra,
  map-as_chat_idem ms,
)

-- The conversation in the database is `ms`, in order, as the language model is shown it.
pub record Holds (cid : String) (d : Db) (ms : List Message) : Type 0 where
  pub ordered : IsOrdered cid d
  pub same : map to_chat_message (conv cid d) ≡ map as_chat ms

pub append_many-Holds :
    (cid : String) (ts : ℕ) (meta : Meta) (ms news : List Message) (d : Db)
    → Holds cid d ms
    → Holds cid (append_many cid ts meta news d) (ms ++ news)
append_many-Holds cid ts meta ms news d h = record {
  ordered = append_many-IsOrdered cid ts meta news d h.ordered;
  same = rw conv-append_many (
      rw (map-append, map-append)
        (ap₂ ◌++◌ h.same (map-new_rows d.next_id cid (next_idx (conv cid d)) ts meta news)));
}

pub replace-Holds :
    (cid : String) (ts : ℕ) (source : Option String) (ms : List Message) (d : Db)
    → Holds cid (replace_conversation cid ts source ms d) ms
unfolding replace_conversation
replace-Holds cid ts source ms d =
    let d' : Db = delete_conversation cid d in
    let start : Holds cid d' [] = record {
      ordered = rw (conv-delete_self cid d) (unfold next_idx in omega arith);
      same = ap (map to_chat_message) (conv-delete_self cid d);
    } in
    let stamped = map (default_source source) ms in
    let h = append_many-Holds cid ts no_meta [] stamped d' start in
    record { ordered = h.ordered; same = h.same ∙ map-default source ms }
