-- ===== src/Commands/Resolver/Resolve.antt =====
-- glados/core/command_resolver.py: `CommandResolver.resolve`.
use glados_docker.Common.{
  Option, String, if◌then◌else◌, none, or_else, some, str_eq, strip, true, ℕ,
}
use glados_docker.Commands.Learned.{bump_failure}
use glados_docker.Commands.Resolver.{
  Carryover, Collaborators, ResolverResult, SourceContext, State, fall_through, nothing_done,
}
use glados_docker.Commands.Resolver.Queries.{is_state_query}
use glados_docker.Commands.Resolver.Steps.{build_carryover, row_of_carryover, try_tier1, try_tier2}
use glados_docker.Commands.Resolver.Records.{audited, record_action, reinforce_learned}

-- How a call ends: with a result, or with the `ValueError` of the session memory.
pub data Resolved : Type 0 where
  replied : ResolverResult → Resolved
  value_error : Resolved

abbrev pub finish_turn : (State → State) → ResolverResult → State → Option State → Resolved × State
finish_turn after r st none = (value_error, st)
finish_turn after r st (some st') = (replied r, after st')

-- A learned guess that was of no use.
abbrev pub penalize : Option ℕ → State → State
penalize none st = st
penalize (some row) st = record st { learned = bump_failure row st.learned }

abbrev pub after_tier2 :
    Collaborators
    → ℕ
    → String
    → SourceContext
    → Option Carryover
    → State
    → ResolverResult
    → Resolved × State
after_tier2 w now utterance ctx c st r =
    if r.handled
    then finish_turn (λ s. audited 2 r (reinforce_learned w now utterance ctx r s)) r st
        (record_action now ctx utterance r.action r.ha_conversation_id st)
    else (
      replied (record nothing_done {
        should_fall_through = true;
        rationale = some (or_else r.rationale "tier2_fall_through");
        learned_row_id = row_of_carryover c;
      }),
      penalize (row_of_carryover c) st,
    )

abbrev pub after_tier1 :
    Collaborators
    → ℕ
    → String
    → SourceContext
    → Option Carryover
    → State
    → Option ResolverResult
    → Resolved × State
after_tier1 w now utterance ctx c st (some r) =
    finish_turn (audited 1 r) r st
      (record_action now ctx utterance r.action r.ha_conversation_id st)
after_tier1 w now utterance ctx c st none =
    after_tier2 w now utterance ctx c st (try_tier2 w utterance ctx c)

abbrev pub resolve_command : Collaborators → ℕ → String → SourceContext → State → Resolved × State
resolve_command w now utterance ctx st =
    let (c, st1) = build_carryover w now utterance ctx st in
    let (t1, st2) = try_tier1 w now utterance ctx st1 in after_tier1 w now utterance ctx c st2 t1

abbrev pub empty_utterance : ResolverResult
empty_utterance = record nothing_done { handled = true; rationale = some "empty_utterance" }

-- On an utterance without space around it.
abbrev pub resolve_stripped : Collaborators → ℕ → String → SourceContext → State → Resolved × State
resolve_stripped w now utterance ctx st =
    if str_eq utterance ""
    then (replied empty_utterance, st)
    else if is_state_query w.is_word w.lower utterance
    then (replied (fall_through "state_query" none), st)
    else resolve_command w now utterance ctx st

unfoldable pub resolve : Collaborators → ℕ → String → SourceContext → State → Resolved × State
unfolding strip is_state_query build_carryover try_tier1 try_tier2 record_action reinforce_learned
    bump_failure
resolve w now utterance ctx st = resolve_stripped w now (strip utterance) ctx st
