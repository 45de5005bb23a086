-- ===== src/Core/Knowledge.antt =====
-- glados/core/knowledge_store.py. The file is missing, unreadable, or a list of items, of which
-- those that are no entry are skipped (`none`). Times are whole. The file can be written.
pub mod Ids
pub mod Lookup
use glados_docker.Common.{
  Bool, List, Option, String, [], false, if◌then◌else◌, keep, length, map, max, none, not, some,
  true, ℕ, ◌++◌, ◌+◌, ◌==◌, ◌∷◌,
}

pub record KnowledgeEntry : Type 0 where
  pub entry_id : ℕ
  pub text : String
  pub created_at : ℕ
  pub updated_at : ℕ

pub data File : Type 0 where
  missing : File
  unreadable : File
  items : List (Option KnowledgeEntry) → File

abbrev pub valid_items : List (Option KnowledgeEntry) → List KnowledgeEntry
valid_items [] = []
valid_items (none ∷ is) = valid_items is
valid_items (some e ∷ is) = e ∷ valid_items is

-- `_load_entries`
unfoldable pub load_entries : File → List KnowledgeEntry
load_entries missing = []
load_entries unreadable = []
load_entries (items is) = valid_items is

-- `_write_entries`
unfoldable pub write_entries : List KnowledgeEntry → File
write_entries es = items (map some es)

-- `max((entry.entry_id for entry in entries), default=0)`
unfoldable pub max_id : List KnowledgeEntry → ℕ
max_id [] = 0
max_id (e ∷ es) = max e.entry_id (max_id es)

abbrev pub new_entry : ℕ → String → List KnowledgeEntry → KnowledgeEntry
new_entry now text es = record {
  entry_id = max_id es + 1;
  text = text;
  created_at = now;
  updated_at = now;
}

unfoldable pub add_entry : ℕ → String → File → KnowledgeEntry × File
unfolding load_entries write_entries max_id
add_entry now text f =
    let es = load_entries f in
    (new_entry now text es, write_entries (es ++ new_entry now text es ∷ []))

abbrev pub changed : ℕ → String → KnowledgeEntry → KnowledgeEntry
changed now text e = record e { text = text; updated_at = now }

-- The loop of `update`: the last entry with the id, as it is then, and the new list.
unfoldable pub update_entries :
    ℕ
    → ℕ
    → String
    → List KnowledgeEntry
    → Option KnowledgeEntry
    → Option KnowledgeEntry × List KnowledgeEntry
update_entries now i text [] updated = (updated, [])
update_entries now i text (e ∷ es) updated =
    let here = update_entries now i text es (some (changed now text e)) in
    let there = update_entries now i text es updated in
    if e.entry_id == i then (here.0, changed now text e ∷ here.1) else (there.0, e ∷ there.1)

abbrev pub write_updated :
    File → Option KnowledgeEntry × List KnowledgeEntry → Option KnowledgeEntry × File
write_updated f (none, es) = (none, f)
write_updated f (some e, es) = (some e, write_entries es)

unfoldable pub update_entry : ℕ → ℕ → String → File → Option KnowledgeEntry × File
unfolding load_entries write_entries update_entries
update_entry now i text f = write_updated f (update_entries now i text (load_entries f) none)

unfoldable pub delete_entry : ℕ → File → Bool × File
unfolding load_entries write_entries
delete_entry i f =
    let es = load_entries f in
    let new_entries = keep (λ e. not (e.entry_id == i)) es in
    if length new_entries == length es then (false, f) else (true, write_entries new_entries)

unfoldable pub clear_entries : File → ℕ × File
unfolding load_entries write_entries
clear_entries f =
    let es = load_entries f in if length es == 0 then (0, f) else (length es, write_entries [])
