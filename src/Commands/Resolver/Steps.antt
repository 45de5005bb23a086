-- ===== src/Commands/Resolver/Steps.antt =====
-- glados/core/command_resolver.py: the steps of `CommandResolver.resolve`.
use glados_docker.Common.{
  Bool, List, Option, String, [], end, false, first_some, if◌then◌else◌, leb, mem_text, none, obj,
  or_else, some, str_append, str_eq, true, ℕ, ◌+◌, ◌∷◌,
}
use glados_docker.SessionMemory.{Turn, last_turn}
use glados_docker.Ha.Cache.{EntityCache, get_entity, nonempty}
use glados_docker.Commands.Anaphora.{is_anaphoric_followup}
use glados_docker.Commands.Learned.{LearnedContextStore, LearnedRow, lookup}
use glados_docker.Commands.Resolver.{
  Answer, BridgeResult, Carryover, Collaborators, Disambiguation, Request, ResolvedAction,
  ResolverResult, SourceContext, State, answers, fails, fall_through, nothing_done,
}
use glados_docker.Commands.Resolver.Queries.{validates}

abbrev pub within_window : Collaborators → ℕ → Turn → Bool
within_window w now turn = leb now (turn.timestamp + w.carryover_window)

-- The learned rows, the first that the validator accepts.
unfoldable pub learned_carryover : Collaborators → List LearnedRow → Option Carryover
unfolding validates
learned_carryover w [] = none
learned_carryover w (row ∷ rows) =
    let rest = learned_carryover w rows in
    if validates w.lower w.cache row.resolved_verb row.resolved_area_id none
    then some (record {
      entity_ids = [];
      service = some row.resolved_verb;
      source = "learned";
      learned_row_id = some row.id;
    })
    else rest

abbrev pub from_learned :
    Collaborators → String → SourceContext → LearnedContextStore → Option Carryover
from_learned w utterance ctx learned = elim (nonempty ctx.area_id) [
  | some area ↦ none
  | none ↦ learned_carryover w (lookup (w.normalize utterance) ctx.channel none 3 learned)
]

abbrev pub session_carryover : Turn → Carryover
session_carryover last = record {
  entity_ids = last.entities_affected;
  service = last.service;
  source = "session";
  learned_row_id = none;
}

-- By the last turn of the session.
abbrev pub carryover_after :
    Collaborators
    → ℕ
    → String
    → SourceContext
    → LearnedContextStore
    → Option Turn
    → Option Carryover
carryover_after w now utterance ctx learned none = from_learned w utterance ctx learned
carryover_after w now utterance ctx learned (some last) =
    if within_window w now last
    then (if is_anaphoric_followup w.lower utterance then some (session_carryover last) else none)
    else from_learned w utterance ctx learned

unfoldable pub build_carryover :
    Collaborators → ℕ → String → SourceContext → State → Option Carryover × State
unfolding last_turn is_anaphoric_followup learned_carryover lookup
build_carryover w now utterance ctx st =
    let (last, session) = last_turn now ctx.session_id st.session in
    (carryover_after w now utterance ctx st.learned last, record st { session = session })

-- `_persona_rewrite`; the rewriter gives `none` where it has no text or raises.
abbrev pub persona_rewrite : Collaborators → String → String → String
persona_rewrite w plain hint = elim w.rewriter [
  | none ↦ plain
  | some rewrite ↦ if str_eq plain "" then plain else or_else (nonempty (rewrite plain hint)) plain
]

abbrev pub text_or_none : String → Option String
text_or_none s = nonempty (some s)

abbrev pub tier1_result : Collaborators → String → SourceContext → BridgeResult → ResolverResult
tier1_result w utterance ctx r = record nothing_done {
  handled = true;
  spoken_response = text_or_none (persona_rewrite w r.speech utterance);
  tier = some "1";
  action = some (record {
    service = none;
    entity_ids = r.entity_ids;
    service_data = obj end;
    resolved_area_id = ctx.area_id;
  });
  rationale = some (str_append "tier1_" r.response_type);
  ha_conversation_id = r.conversation_id;
}

abbrev pub tier1_answer :
    Collaborators → String → SourceContext → Option BridgeResult → Option ResolverResult
tier1_answer w utterance ctx none = none
tier1_answer w utterance ctx (some r) =
    if r.handled then some (tier1_result w utterance ctx r) else none

abbrev pub conversation_of : Option Turn → Option String
conversation_of none = none
conversation_of (some last) = last.ha_conversation_id

unfoldable pub try_tier1 :
    Collaborators → ℕ → String → SourceContext → State → Option ResolverResult × State
unfolding last_turn
try_tier1 w now utterance ctx st =
    let (last, session) = last_turn now ctx.session_id st.session in
    (
      tier1_answer w utterance ctx (w.bridge utterance (conversation_of last)),
      record st { session = session },
    )

-- The areas of the entities, each once.
unfoldable pub areas_of : EntityCache → List String → List String
areas_of c [] = []
areas_of c (eid ∷ eids) =
    let rest = areas_of c eids in
    elim (get_entity eid c) [
      | none ↦ rest
      | some e ↦ elim (nonempty e.area_id) [
        | none ↦ rest
        | some area ↦ if mem_text area rest then rest else area ∷ rest
      ]
    ]

abbrev pub only_one : List String → Option String
only_one (area ∷ []) = some area
only_one _ = none

unfoldable pub infer_resolved_area : Collaborators → SourceContext → List String → Option String
unfolding areas_of
infer_resolved_area w ctx eids = elim (nonempty ctx.area_id) [
  | some area ↦ some area
  | none ↦ only_one (areas_of w.cache eids)
]

abbrev pub request_of : String → SourceContext → Option Carryover → Request
request_of utterance ctx none = record {
  utterance = utterance;
  source = ctx.origin;
  source_area = ctx.area_id;
  assume_home_command = false;
  prior_entity_ids = [];
  prior_service = none;
}
request_of utterance ctx (some c) = record {
  utterance = utterance;
  source = ctx.origin;
  source_area = ctx.area_id;
  assume_home_command = true;
  prior_entity_ids = c.entity_ids;
  prior_service = c.service;
}

abbrev pub row_of_carryover : Option Carryover → Option ℕ
row_of_carryover none = none
row_of_carryover (some c) = c.learned_row_id

abbrev pub acts : List String → Option String → Bool
acts [] none = false
acts _ _ = true

abbrev pub tier2_action : Collaborators → SourceContext → Disambiguation → Option ResolvedAction
tier2_action w ctx r =
    let service = text_or_none r.service in
    if acts r.entity_ids service
    then some (record {
      service = service;
      entity_ids = r.entity_ids;
      service_data = r.service_data;
      resolved_area_id = infer_resolved_area w ctx r.entity_ids;
    })
    else none

abbrev pub tier2_result :
    Collaborators → SourceContext → Option Carryover → Disambiguation → ResolverResult
tier2_result w ctx c r = record nothing_done {
  handled = true;
  needs_clarification = str_eq r.decision "clarify";
  spoken_response = text_or_none r.speech;
  tier = some "2";
  action = tier2_action w ctx r;
  rationale = first_some (text_or_none r.rationale) (text_or_none r.decision);
  learned_row_id = row_of_carryover c;
  response_mode = r.response_mode;
}

abbrev pub tier2_answer : Collaborators → SourceContext → Option Carryover → Answer → ResolverResult
tier2_answer w ctx c (fails kind) = fall_through (str_append "tier2_error:" kind) none
tier2_answer w ctx c (answers r) =
    if r.handled
    then tier2_result w ctx c r
    else fall_through
        (str_append "tier2_" (if str_eq r.decision "" then "fall_through" else r.decision)) none

unfoldable pub try_tier2 :
    Collaborators → String → SourceContext → Option Carryover → ResolverResult
unfolding infer_resolved_area
try_tier2 w utterance ctx c = tier2_answer w ctx c (w.disambiguator (request_of utterance ctx c))
