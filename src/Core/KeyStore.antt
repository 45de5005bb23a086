-- ===== src/Core/KeyStore.antt =====
-- glados/core/store.py: `Store`. The type of the values is an argument, and so are what `asdict`
-- makes of one for the file, and the values after `update`, which is `none` for a value that is
-- neither a dataclass nor a dictionary. The calls of `on_change` are recorded in their order. A
-- write of the file succeeds, fails before the file is opened or after it is emptied, which are
-- logged, or raises: `json.dump` refuses a value when the file is already emptied, and that
-- `TypeError` leaves the method after it has changed the data. A result `none` is that exception.
pub mod Restart
pub mod Changes
use glados_docker.Common.{
  Bool, Dict, List, Option, String, [], false, get, get_elem?, has, if◌then◌else◌, join_texts,
  length, map, none, put, remove, remove_at, some, str_append, true, ℕ, ◌++◌, ◌∷◌,
}

pub data Write : Type 0 where
  saved : Write
  not_opened : Write
  cut_short : Write
  refused_value : Write

abbrev pub raises : Write → Bool
raises refused_value = true
raises _ = false

pub data File {ℓ} (V : Type ℓ) : Type ℓ where
  missing : File V
  unreadable : File V
  holds : Dict V → File V

pub record Store {ℓ} (V : Type ℓ) : Type ℓ where
  pub entries : Dict V
  pub has_path : Bool
  pub file : File V
  pub changes : List (String × Option V)
  -- The calls of `set` that have left the lock and not yet called `on_change`.
  pub untold : List (String × V)

module _ {ℓ} {V : Type ℓ} where
  -- The constructor with `_load`: a file that cannot be read leaves the store empty.
  abbrev pub loaded_entries : File V → Dict V
  loaded_entries missing = []
  loaded_entries unreadable = []
  loaded_entries (holds d) = d

  unfoldable pub open_store : Bool → File V → Store V
  open_store has_path file = record {
    entries = if has_path then loaded_entries file else [];
    has_path = has_path;
    file = file;
    changes = [];
    untold = [];
  }

  abbrev pub tell_change : String → Option V → Store V → Store V
  tell_change key v s = record s { changes = s.changes ++ (key, v) ∷ [] }

  -- `fields` is the update of the fields, as a function of the value.
  abbrev pub updated_value : (V → Option V) → Option V → Option V
  updated_value fields none = none
  updated_value fields (some v) = fields v

module _ {ℓ} {V : Type ℓ} where
  -- What follows a save, unless it raises.
  abbrev pub after_save {κ} :
      {R : Type κ} → R → (Store V → Store V) → Bool × Store V → Option R × Store V
  after_save r next (true, s) = (none, s)
  after_save r next (false, s) = (some r, next s)

  abbrev pub begin_telling : String → V → Store V → Store V
  begin_telling key v s = record s { untold = s.untold ++ (key, v) ∷ [] }

  -- The call of `on_change` by a `set`, after it has left the lock; `n` is its place among those
  -- that are to be made.
  abbrev pub tell_of : ℕ → Store V → Option (String × V) → Store V
  tell_of n s none = s
  tell_of n s (some (key, v)) =
      tell_change key (some v) (record s { untold = remove_at n s.untold })

  unfoldable pub tell_set : ℕ → Store V → Store V
  tell_set n s = tell_of n s (get_elem? s.untold n)

module _ {ℓ} {V : Type ℓ} (asdict : V → V) where
  abbrev pub serializable : Dict V → Dict V
  serializable [] = []
  serializable ((k, v) ∷ d) = (k, asdict v) ∷ serializable d

  abbrev pub written_file : Write → File V → Dict V → File V
  written_file saved file d = holds (serializable d)
  written_file not_opened file d = file
  written_file cut_short file d = unreadable
  written_file refused_value file d = unreadable

  abbrev pub write_store : Bool → Write → Store V → Bool × Store V
  write_store false w s = (false, s)
  write_store true w s = (raises w, record s { file = written_file w s.file s.entries })

  -- `_save`: whether it raises, and the store.
  unfoldable pub save_store : Write → Store V → Bool × Store V
  save_store w s = write_store s.has_path w s

  -- The locked part of `set`.
  unfoldable pub set_locked : String → V → Write → Store V → Option (Unit {0}) × Store V
  unfolding save_store
  set_locked key v w s =
      after_save tt (begin_telling key v)
        (save_store w (record s { entries = put key v s.entries }))

  unfoldable pub delete_key : String → Write → Store V → Option Bool × Store V
  unfolding save_store
  delete_key key w s =
      if has key s.entries
      then after_save true (tell_change key none)
          (save_store w (record s { entries = remove key s.entries }))
      else (some false, s)

  abbrev pub store_updated : String → Write → Store V → Option V → Option (Option V) × Store V
  store_updated key w s none = (some none, s)
  store_updated key w s (some v) =
      after_save (some v) (tell_change key (some v))
        (save_store w (record s { entries = put key v s.entries }))

  unfoldable pub update_key :
      String → (V → Option V) → Write → Store V → Option (Option V) × Store V
  unfolding save_store
  update_key key fields w s = store_updated key w s (updated_value fields (get key s.entries))

  unfoldable pub clear_store : Write → Store V → Option ℕ × Store V
  unfolding save_store
  clear_store w s =
      after_save (length s.entries) (λ t. t) (save_store w (record s { entries = [] }))

-- `format_preferences` and `format_knowledge`: the header, and a line for each entry.
unfoldable pub format_entries {ℓ} :
    {V : Type ℓ} → String → (String × V → String) → Dict V → Option String
unfolding join_texts
format_entries header line [] = none
format_entries header line (e ∷ d) = some (join_texts "\n" (header ∷ map line (e ∷ d)))

abbrev pub preference_line : String × List String → String
preference_line e = str_append "- " (str_append e.0 (str_append ": " (join_texts ", " e.1)))

abbrev pub knowledge_line : String × String → String
knowledge_line e = str_append "- #" (str_append e.0 (str_append ": " e.1))
