-- ===== src/Ha/Cache.antt =====
-- glados/ha/entity_cache.py: `EntityState` and `EntityCache`, without the search for candidates,
-- which is in Ha/Cache/Candidates.antt. Of the attributes that Home Assistant sends, those that the
-- code reads. A text that is empty counts as one that is not there, as in the code. `age` gives
-- `none` for infinity. Times are whole, and the first sync is not at time 0.
pub mod Words
pub mod Scores
pub mod Candidates
pub mod Groups
pub mod Twins
pub mod Cutoffs
pub mod Admission
pub mod Keys
pub mod Devices
use glados_docker.Common.{
  Dict, List, Option, String, [], get, if◌then◌else◌, leb, length, none, opt_eq, put, remove, some,
  split_once, str_eq, values, ℕ, ◌+◌, ◌-◌, ◌∷◌,
}

pub record Attributes : Type 0 where
  pub friendly_name : Option String
  pub device_class : Option String
  pub area_id : Option String
  pub aliases : List String
  pub supported_color_modes : List String

-- A state as Home Assistant sends it.
pub record StateObj : Type 0 where
  pub entity_id : Option String
  pub state : Option String
  pub attributes : Attributes

pub record EntityState : Type 0 where
  pub entity_id : String
  pub friendly_name : String
  pub domain : String
  pub state : String
  pub state_as_of : ℕ
  pub device_class : Option String
  pub area_id : Option String
  pub aliases : List String
  pub attributes : Attributes
  pub device_id : Option String

pub record EntityCache : Type 0 where
  pub entities : Dict EntityState
  pub last_full_sync_at : ℕ

abbrev pub empty_cache : EntityCache
empty_cache = record { entities = []; last_full_sync_at = 0 }

-- `x or None`
abbrev pub nonempty : Option String → Option String
nonempty none = none
nonempty (some s) = if str_eq s "" then none else some s

abbrev pub as_text : Option String → String
as_text none = ""
as_text (some s) = s

abbrev pub dot : ℕ
dot = 46

abbrev pub extract_parts : ℕ → StateObj → String → Option (String × String) → Option EntityState
extract_parts as_of o entity_id none = none
extract_parts as_of o entity_id (some parts) = some record {
  entity_id = entity_id;
  friendly_name = as_text o.attributes.friendly_name;
  domain = parts.0;
  state = as_text o.state;
  state_as_of = as_of;
  device_class = nonempty o.attributes.device_class;
  area_id = nonempty o.attributes.area_id;
  aliases = o.attributes.aliases;
  attributes = o.attributes;
  device_id = none;
}

-- `_extract_entity_state`: an id without a dot has no parts.
unfoldable pub extract_entity_state : ℕ → StateObj → Option EntityState
unfolding split_once
extract_entity_state as_of o = elim o.entity_id [
  | none ↦ none
  | some entity_id ↦ extract_parts as_of o entity_id (split_once dot entity_id)
]

-- The device ids that the two states have, of the new one first.
abbrev pub keep_device : EntityState → EntityState → Option String → Option String → EntityState
keep_device prior e none (some did) = record e { device_id = prior.device_id }
keep_device prior e _ _ = e

-- The device id of an earlier state goes on where the new one has none.
unfoldable pub carry_over : Option EntityState → EntityState → EntityState
carry_over none e = e
carry_over (some prior) e = keep_device prior e (nonempty e.device_id) (nonempty prior.device_id)

-- The first loop of `apply_get_states`.
unfoldable pub rebuild_entities : ℕ → List StateObj → Dict EntityState → Dict EntityState
unfolding extract_entity_state
rebuild_entities ts [] rebuilt = rebuilt
rebuild_entities ts (s ∷ states) rebuilt = elim (extract_entity_state ts s) [
  | none ↦ rebuild_entities ts states rebuilt
  | some e ↦ rebuild_entities ts states (put e.entity_id e rebuilt)
]

-- The second loop, over the entities that were there.
unfoldable pub carry_devices : Dict EntityState → Dict EntityState → Dict EntityState
unfolding carry_over
carry_devices [] rebuilt = rebuilt
carry_devices ((eid, prior) ∷ entities) rebuilt = elim (get eid rebuilt) [
  | none ↦ carry_devices entities rebuilt
  | some e ↦ carry_devices entities (put eid (carry_over (some prior) e) rebuilt)
]

unfoldable pub apply_get_states : ℕ → List StateObj → EntityCache → ℕ × EntityCache
unfolding rebuild_entities carry_devices
apply_get_states ts states c =
    let rebuilt = carry_devices c.entities (rebuild_entities ts states []) in
    (length rebuilt, record { entities = rebuilt; last_full_sync_at = ts })

-- One entry of the registry: its entity and its device.
pub record RegistryEntry : Type 0 where
  pub entity_id : Option String
  pub device_id : Option String

abbrev pub set_device : Option String → String → EntityState → EntityCache → ℕ × EntityCache
set_device did eid e c =
    if opt_eq e.device_id did
    then (0, c)
    else (1, record c { entities = put eid (record e { device_id = did }) c.entities })

abbrev pub set_found : Option String → String → EntityCache → Option EntityState → ℕ × EntityCache
set_found did eid c none = (0, c)
set_found did eid c (some e) = set_device did eid e c

abbrev pub set_named : Option String → EntityCache → Option String → ℕ × EntityCache
set_named did c none = (0, c)
set_named did c (some eid) = set_found did eid c (get eid c.entities)

-- The body of the loop: what it adds to the count, and the cache.
unfoldable pub annotate : RegistryEntry → EntityCache → ℕ × EntityCache
annotate entry c = set_named (nonempty entry.device_id) c (nonempty entry.entity_id)

unfoldable pub apply_entity_registry : List RegistryEntry → EntityCache → ℕ × EntityCache
unfolding annotate
apply_entity_registry [] c = (0, c)
apply_entity_registry (entry ∷ entries) c =
    let (n, c1) = annotate entry c in let (m, c2) = apply_entity_registry entries c1 in (n + m, c2)

-- The data of a `state_changed` event.
pub record EventData : Type 0 where
  pub entity_id : Option String
  pub new_state : Option StateObj

abbrev pub store_entity : EntityCache → Option EntityState → EntityCache
store_entity c none = c
store_entity c (some e) = record c {
  entities = put e.entity_id (carry_over (get e.entity_id c.entities) e) c.entities;
}

abbrev pub remove_entity : EntityCache → Option String → EntityCache
remove_entity c none = c
remove_entity c (some eid) = record c { entities = remove eid c.entities }

abbrev pub apply_new_state : ℕ → Option String → EntityCache → Option StateObj → EntityCache
apply_new_state now entity_id c none = remove_entity c (nonempty entity_id)
apply_new_state now entity_id c (some s) = store_entity c (extract_entity_state now s)

unfoldable pub apply_state_changed : ℕ → EventData → EntityCache → EntityCache
unfolding extract_entity_state carry_over
apply_state_changed now d c = apply_new_state now d.entity_id c d.new_state

abbrev pub get_entity : String → EntityCache → Option EntityState
get_entity eid c = get eid c.entities

unfoldable pub age : ℕ → String → EntityCache → Option ℕ
age now eid c = elim (get eid c.entities) [ none ↦ none | some e ↦ some (now - e.state_as_of) ]

unfoldable pub last_full_sync_age : ℕ → EntityCache → Option ℕ
last_full_sync_age now c =
    if leb c.last_full_sync_at 0 then none else some (now - c.last_full_sync_at)

abbrev pub all_entities : EntityCache → List EntityState
all_entities c = values c.entities

abbrev pub size : EntityCache → ℕ
size c = length c.entities
