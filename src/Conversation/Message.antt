-- ===== src/Conversation/Message.antt =====
-- The message dictionaries of glados/core/conversation_store.py: the keys that the code reads are
-- fields, absent or `None` is `none`, and the other keys are in `extra`. The content of a message is
-- a text.
use glados_docker.Common.{Dict, Items, Json, Option, String, first_some, none, ℕ}

pub record Message : Type 0 where
  pub role : String
  pub content : Option String
  pub tool_calls : Option Items
  pub extra : Dict Json
  pub tier : Option ℕ
  pub source : Option String
  pub ha_conversation_id : Option String
  pub principal : Option String

-- The keyword arguments that the writers share.
pub record Meta : Type 0 where
  pub source : Option String
  pub principal : Option String
  pub tier : Option ℕ
  pub ha_conversation_id : Option String

-- `_stamp_row_meta`: a key that is set already stays.
unfoldable pub stamp_row_meta : Meta → Message → Message
stamp_row_meta meta m = record m {
  tier = first_some m.tier meta.tier;
  source = first_some m.source meta.source;
  ha_conversation_id = first_some m.ha_conversation_id meta.ha_conversation_id;
  principal = first_some m.principal meta.principal;
}

-- The metadata that a row stores: the keyword wins over the message's stamp.
unfoldable pub row_meta : Meta → Message → Meta
row_meta meta m = record {
  source = first_some meta.source m.source;
  principal = first_some meta.principal m.principal;
  tier = first_some meta.tier m.tier;
  ha_conversation_id = first_some meta.ha_conversation_id m.ha_conversation_id;
}

abbrev pub no_meta : Meta
no_meta = record { source = none; principal = none; tier = none; ha_conversation_id = none }
