-- ===== src/Autonomy/Memory.antt =====
-- glados/autonomy/subagent_memory.py: `SubagentMemory`. A time is a number of ticks. The file is
-- the list of its lines, each the entry that it holds or, where it is no such JSON object, `none`;
-- blank lines are left out. The file's lock is not modelled.
pub mod Keys
pub mod Bounds
pub mod Evict
pub mod Runs
pub mod Reload
use glados_docker.Common.{
  Bool, Dict, List, Option, String, [], false, get, has, if◌then◌else◌, is_some, keep, leb, length,
  map, none, not, put, remove, remove_all, some, take, true, values, ℕ, ◌-◌, ◌∷◌,
}

pub record MemoryEntry : Type 0 where
  pub key : String
  pub value : String
  pub created_at : ℕ
  pub shown_at : Option ℕ

pub record SubagentMemory : Type 0 where
  pub max_entries : ℕ
  pub entries : Dict MemoryEntry
  pub file : List (Option MemoryEntry)

-- How a write of the file ends: as it should, or with an exception, where the file is left with
-- the given number of its first lines, or as it was if it could not be opened.
pub data Write : Type 0 where
  writes not_opened : Write
  breaks_off : ℕ → Write

abbrev pub written :
    Write → List (Option MemoryEntry) → List (Option MemoryEntry) → List (Option MemoryEntry)
written writes lines old = lines
written not_opened lines old = old
written (breaks_off n) lines old = take n lines

-- `_save`: an exception is logged and ignored.
unfoldable pub save : Write → SubagentMemory → SubagentMemory
save w m = record m { file = written w (map some (values m.entries)) m.file }

-- The loop of `_load`, which an exception leaves.
unfoldable pub load_lines : List (Option MemoryEntry) → Dict MemoryEntry → Dict MemoryEntry
load_lines [] entries = entries
load_lines (none ∷ lines) entries = entries
load_lines (some e ∷ lines) entries = load_lines lines (put e.key e entries)

-- The constructor, where the file is there; one that is not is a file with no lines.
unfoldable pub load : ℕ → List (Option MemoryEntry) → SubagentMemory
unfolding load_lines
load max_entries file = record {
  max_entries = max_entries;
  entries = load_lines file [];
  file = file;
}

-- One step of the sort by age, which keeps the order of equal ages.
unfoldable pub insert_age : MemoryEntry → List MemoryEntry → List MemoryEntry
insert_age e [] = e ∷ []
insert_age e (f ∷ es) = if leb e.created_at f.created_at then e ∷ f ∷ es else f ∷ insert_age e es

unfoldable pub sort_age : List MemoryEntry → List MemoryEntry
unfolding insert_age
sort_age [] = []
sort_age (e ∷ es) = insert_age e (sort_age es)

abbrev pub entry_keys : List MemoryEntry → List String
entry_keys es = map (λ e. e.key) es

unfoldable pub prune_if_needed : SubagentMemory → SubagentMemory
unfolding sort_age
prune_if_needed m =
    if leb (length m.entries) m.max_entries
    then m
    else let by_age = sort_age (values m.entries) in
      let to_remove = length m.entries - m.max_entries in
      record m { entries = remove_all (entry_keys (take to_remove by_age)) m.entries }

-- The entry that `set` makes, or changes in its place.
abbrev pub set_entry : ℕ → String → String → Option MemoryEntry → MemoryEntry
set_entry now key value none = record {
  key = key;
  value = value;
  created_at = now;
  shown_at = none;
}
set_entry now key value (some e) = record e { value = value }

unfoldable pub set_value :
    Write → ℕ → String → String → SubagentMemory → MemoryEntry × SubagentMemory
unfolding prune_if_needed save
set_value w now key value m =
    let e = set_entry now key value (get key m.entries) in
    (e, save w (prune_if_needed (record m { entries = put key e m.entries })))

unfoldable pub mark_shown : Write → ℕ → String → SubagentMemory → Bool × SubagentMemory
unfolding save
mark_shown w now key m = elim (get key m.entries) [
  | none ↦ (false, m)
  | some e ↦
      (true, save w (record m { entries = put key (record e { shown_at = some now }) m.entries }))
]

unfoldable pub delete : Write → String → SubagentMemory → Bool × SubagentMemory
unfolding save
delete w key m =
    if has key m.entries
    then (true, save w (record m { entries = remove key m.entries }))
    else (false, m)

unfoldable pub clear_all : Write → SubagentMemory → SubagentMemory
unfolding save
clear_all w m = save w (record m { entries = [] })

unfoldable pub list_unshown : SubagentMemory → List MemoryEntry
unfolding sort_age
list_unshown m = sort_age (keep (λ e. not (is_some e.shown_at)) (values m.entries))

unfoldable pub list_all : SubagentMemory → List MemoryEntry
unfolding sort_age
list_all m = sort_age (values m.entries)
