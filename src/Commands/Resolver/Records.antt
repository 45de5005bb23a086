-- ===== src/Commands/Resolver/Records.antt =====
-- What `CommandResolver` records of a turn that it has resolved.
use glados_docker.Common.{
  Bool, Option, String, [], if◌then◌else◌, none, or_else, some, ℕ, ◌++◌, ◌∷◌,
}
use glados_docker.SessionMemory.{SessionMemory, Turn, record_turn}
use glados_docker.Ha.Cache.{nonempty}
use glados_docker.Commands.Learned.{Resolution, record_success}
use glados_docker.Commands.Resolver.{
  Collaborators, ResolvedAction, ResolverResult, SourceContext, State,
}
use glados_docker.Commands.Resolver.Steps.{acts}

abbrev pub turn_of : ℕ → String → ResolvedAction → Option String → Turn
turn_of now utterance a conversation = record {
  timestamp = now;
  utterance = utterance;
  resolved_area_id = a.resolved_area_id;
  entities_affected = a.entity_ids;
  action_verb = a.service;
  service = a.service;
  service_data = a.service_data;
  ha_conversation_id = conversation;
}

abbrev pub with_session : State → Option SessionMemory → Option State
with_session st none = none
with_session st (some m) = some (record st { session = m })

-- `_record_turn`; `none` is the `ValueError` of the session memory.
unfoldable pub record_action :
    ℕ → SourceContext → String → Option ResolvedAction → Option String → State → Option State
unfolding record_turn
record_action now ctx utterance none conversation st = some st
record_action now ctx utterance (some a) conversation st =
    if acts a.entity_ids a.service
    then with_session st
        (record_turn now ctx.session_id (turn_of now utterance a conversation) st.session)
    else some st

abbrev pub resolution_for : Collaborators → String → SourceContext → String → String → Resolution
resolution_for w utterance ctx area verb = record {
  key = w.normalize utterance;
  channel = ctx.channel;
  source_area = ctx.area_id;
  area = area;
  verb = verb;
  tier = none;
}

abbrev pub learn :
    Collaborators → ℕ → String → SourceContext → Option String → Option String → State → State
learn w now utterance ctx (some verb) (some area) st = record st {
  learned =
      or_else (record_success now (resolution_for w utterance ctx area verb) st.learned) st.learned;
}
learn w now utterance ctx _ _ st = st

abbrev pub learn_action :
    Collaborators → ℕ → String → SourceContext → Bool → Option ResolvedAction → State → State
learn_action w now utterance ctx needs_clarification none st = st
learn_action w now utterance ctx needs_clarification (some a) st =
    if needs_clarification
    then st
    else learn w now utterance ctx (nonempty a.service) (nonempty a.resolved_area_id) st

-- `_reinforce_learned`, where there is an action and no question.
unfoldable pub reinforce_learned :
    Collaborators → ℕ → String → SourceContext → ResolverResult → State → State
unfolding record_success
reinforce_learned w now utterance ctx r st =
    learn_action w now utterance ctx r.needs_clarification r.action st

abbrev pub audited : ℕ → ResolverResult → State → State
audited tier r st = record st {
  audits =
      st.audits
      ++ record {
        tier = tier;
        action = r.action;
        result = if r.needs_clarification then "clarify" else "ok";
      }
        ∷ [];
}
