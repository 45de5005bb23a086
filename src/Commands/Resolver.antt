-- ===== src/Commands/Resolver.antt =====
-- glados/core/command_resolver.py: `CommandResolver` over the session memory, the learned context
-- and the entity cache. What the collaborators do that are not modelled (the bridge to Home
-- Assistant, the disambiguator, the persona rewriter), and the case mapping, the word characters
-- and the normalization of utterances, are the fields of `Collaborators`. A call of `resolve` reads the
-- clock once. Latencies and the details of an audit entry are left out.
pub mod Queries
pub mod Records
pub mod Steps
pub mod Resolve
pub mod Recorded
pub mod Followups
pub mod FallThrough
use glados_docker.Common.{Bool, Json, List, Option, String, false, none, some, true, ℕ}
use glados_docker.SessionMemory.{SessionMemory}
use glados_docker.Ha.Cache.{EntityCache}
use glados_docker.Commands.Learned.{LearnedContextStore}

-- The fields of `SourceContext` that the resolver reads.
pub record SourceContext : Type 0 where
  pub origin : String
  pub channel : String
  pub session_id : String
  pub area_id : Option String

pub record ResolvedAction : Type 0 where
  pub service : Option String
  pub entity_ids : List String
  pub service_data : Json
  pub resolved_area_id : Option String

pub record ResolverResult : Type 0 where
  pub handled : Bool
  pub should_fall_through : Bool
  pub spoken_response : Option String
  pub needs_clarification : Bool
  pub tier : Option String
  pub action : Option ResolvedAction
  pub rationale : Option String
  pub learned_row_id : Option ℕ
  pub ha_conversation_id : Option String
  pub response_mode : Option String

pub record Carryover : Type 0 where
  pub entity_ids : List String
  pub service : Option String
  pub source : String
  pub learned_row_id : Option ℕ

pub record BridgeResult : Type 0 where
  pub handled : Bool
  pub speech : String
  pub conversation_id : Option String
  pub entity_ids : List String
  pub response_type : String

-- `none` is an exception.
abbrev pub Bridge : Type 0
Bridge = String → Option String → Option BridgeResult

pub record Request : Type 0 where
  pub utterance : String
  pub source : String
  pub source_area : Option String
  pub assume_home_command : Bool
  pub prior_entity_ids : List String
  pub prior_service : Option String

pub record Disambiguation : Type 0 where
  pub handled : Bool
  pub decision : String
  pub entity_ids : List String
  pub service : String
  pub service_data : Json
  pub speech : String
  pub rationale : String
  pub response_mode : Option String

-- A result, or an exception with the name of its type.
pub data Answer : Type 0 where
  answers : Disambiguation → Answer
  fails : String → Answer

pub record Collaborators : Type 0 where
  pub bridge : Bridge
  pub disambiguator : Request → Answer
  pub rewriter : Option (String → String → Option String)
  pub lower : String → String
  pub is_word : ℕ → Bool
  pub normalize : String → String
  pub cache : EntityCache
  pub carryover_window : ℕ

pub record Audit : Type 0 where
  pub tier : ℕ
  pub action : Option ResolvedAction
  pub result : String

pub record State : Type 0 where
  pub session : SessionMemory
  pub learned : LearnedContextStore
  pub audits : List Audit

abbrev pub nothing_done : ResolverResult
nothing_done = record {
  handled = false;
  should_fall_through = false;
  spoken_response = none;
  needs_clarification = false;
  tier = none;
  action = none;
  rationale = none;
  learned_row_id = none;
  ha_conversation_id = none;
  response_mode = none;
}

abbrev pub fall_through : String → Option ℕ → ResolverResult
fall_through rationale row = record nothing_done {
  should_fall_through = true;
  rationale = some rationale;
  learned_row_id = row;
}
