-- ===== src/Events/Config.antt =====
-- glados/events/config.py: the schema of events.yaml and its validators. A number of seconds is a
-- number of clock ticks. What pydantic does before the validators (the types of the fields) and
-- the YAML reader are not modelled: a file is read as missing, as broken, or as typed values.
use text.Mathlib.Text.{starts_with}
use glados_docker.Common.{
  Bool, Dict, Json, List, Option, String, [], all_of, codes, false, first_some, has_code,
  if◌then◌else◌, is_blank, leb, map, mem_text, none, not, some, str_eq, true, ℕ, ◌&&◌, ◌==◌, ◌||◌,
  ◌∷◌,
}

pub record EventTrigger : Type 0 where
  pub entity_id : String
  pub to_state : String
  pub from_state : Option String

pub data Kind : Type 0 where
  ha_automation ha_script ha_scene ha_service : Kind

abbrev pub kind_prefix : Kind → Option String
kind_prefix ha_automation = some "automation."
kind_prefix ha_script = some "script."
kind_prefix ha_scene = some "scene."
kind_prefix ha_service = none

abbrev pub is_service : Kind → Bool
is_service ha_service = true
is_service _ = false

pub record EventActionSpec : Type 0 where
  pub kind : Kind
  pub target : String
  pub entity_id : Option String
  pub service_data : Dict Json

pub data Mode : Type 0 where
  always llm : Mode

abbrev pub is_llm : Mode → Bool
is_llm always = false
is_llm llm = true

pub record EventRule : Type 0 where
  pub id : String
  pub enabled : Bool
  pub trigger : EventTrigger
  pub mode : Mode
  pub context_entities : List String
  pub decision_prompt : Option String
  pub action : EventActionSpec
  pub cooldown_s : ℕ
  pub min_clear_s : ℕ
  pub announce : Bool
  pub announce_speaker : Option String
  pub announce_text : Option String

pub record EventsConfig : Type 0 where
  pub enabled : Bool
  pub rules : List EventRule

-- The ways in which a validator raises `ValueError`.
pub data ConfigError : Type 0 where
  bad_id bad_prefix bad_service no_prompt no_speaker no_text duplicate_ids : ConfigError
  unreadable : String → ConfigError

-- A text that may be `None`, as a condition.
abbrev pub truthy : Option String → Bool
truthy none = false
truthy (some s) = not (str_eq s "")

-- `(s or "").strip()` as a condition.
abbrev pub has_words : Option String → Bool
has_words none = false
has_words (some s) = not (is_blank s)

abbrev has_prefix : Option String → String → Bool
has_prefix none target = true
has_prefix (some p) target = starts_with target p

unfoldable pub check_target : EventActionSpec → Option ConfigError
check_target spec =
    if not (has_prefix (kind_prefix spec.kind) spec.target)
    then some bad_prefix
    else if is_service spec.kind && not (has_code b'.' spec.target)
    then some bad_service
    else none

-- The pattern `^[A-Za-z0-9_.-]+$` of a rule's id.
id_char : ℕ → Bool
id_char c =
    leb b'A' c && leb c b'Z'
    || leb b'a' c && leb c b'z'
    || leb b'0' c && leb c b'9'
    || c == b'_'
    || c == b'.'
    || c == b'-'

unfoldable pub check_id : String → Option ConfigError
unfolding id_char
check_id id = if not (str_eq id "") && all_of id_char (codes id) then none else some bad_id

unfoldable pub check_conditionals : EventRule → Option ConfigError
check_conditionals rule =
    if is_llm rule.mode && not (has_words rule.decision_prompt)
    then some no_prompt
    else if rule.announce && not (truthy rule.announce_speaker)
    then some no_speaker
    else if rule.announce && not (is_llm rule.mode) && not (has_words rule.announce_text)
    then some no_text
    else none

-- The checks of one rule, the field's and the action's before the rule's own.
unfoldable pub check_rule : EventRule → Option ConfigError
unfolding check_id check_target check_conditionals
check_rule rule =
    first_some (check_id rule.id) (first_some (check_target rule.action) (check_conditionals rule))

unfoldable pub check_rules : List EventRule → Option ConfigError
unfolding check_rule
check_rules [] = none
check_rules (rule ∷ rules) = first_some (check_rule rule) (check_rules rules)

-- `len(ids) == len(set(ids))`
unfoldable pub distinct : List String → Bool
distinct [] = true
distinct (x ∷ xs) = not (mem_text x xs) && distinct xs

unfoldable pub check_unique_ids : EventsConfig → Option ConfigError
unfolding distinct
check_unique_ids c = if distinct (map (λ r. r.id) c.rules) then none else some duplicate_ids

-- `EventsConfig.model_validate` of typed values: the first failure, if any.
unfoldable pub validate : EventsConfig → Option ConfigError
unfolding check_rules check_unique_ids
validate c = first_some (check_rules c.rules) (check_unique_ids c)

-- What `load_events_config` finds at its path.
pub data FileRead : Type 0 where
  missing : FileRead
  broken : String → FileRead
  parsed : EventsConfig → FileRead

pub data LoadResult : Type 0 where
  loaded : EventsConfig → LoadResult
  config_error : ConfigError → LoadResult

abbrev accept : EventsConfig → Option ConfigError → LoadResult
accept c none = loaded c
accept c (some e) = config_error e

-- A missing file gives the defaults: the engine on, with no rules.
unfoldable pub load_events_config : FileRead → LoadResult
unfolding validate
load_events_config missing = loaded (record { enabled = true; rules = [] })
load_events_config (broken why) = config_error (unreadable why)
load_events_config (parsed c) = accept c (validate c)
