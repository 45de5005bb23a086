-- ===== src/Commands/Tests.antt =====
-- The resolver at concrete calls.
use glados_docker.Common.{
  List, String, [], arith, false, if◌then◌else◌, is_blank, is_space, lstrip, ltb, map, none, null,
  refl, rstrip, some, split_once, str_eq, strip, true, ℕ, ◌∷◌, ◌≡◌,
}
use glados_docker.SessionMemory.{SessionMemory, last_turn, recent_turns, touch}
use glados_docker.Ha.Cache.{empty_cache}
use glados_docker.Commands.Anaphora.{find_tokens, followup_tokens, is_anaphoric_followup}
use glados_docker.Commands.Learned.{
  LearnedContextStore, LearnedRow, Resolution, bump_failure, insert_strongest, lookup, open_learned,
  record_success, strongest_first, sweep,
}
use glados_docker.Commands.Learned.Rows.{
  StoreOp, failure_op, run_store, run_store-Sound, step_store, success_op, sweep_op,
}
use glados_docker.Commands.Learned.Distinct.{Sound}
use glados_docker.Commands.Resolver.{Collaborators, ResolvedAction, SourceContext, State, answers}
use glados_docker.Commands.Resolver.Queries.{after_prefix, ends_with, is_state_query, validates}
use glados_docker.Commands.Resolver.Steps.{
  areas_of, build_carryover, infer_resolved_area, learned_carryover, try_tier1, try_tier2,
}
use glados_docker.Commands.Resolver.Records.{record_action, reinforce_learned}
use glados_docker.Commands.Resolver.Resolve.{resolve}
use glados_docker.Commands.Resolver.Recorded.{action_of}
use glados_docker.Commands.Resolver.Followups.{carried, followup_inherits}
use glados_docker.Commands.Resolver.FallThrough.{
  fall_through-rest, falls_through, guess_of, without_guess,
}

abbrev off : Resolution
off = record {
  key = "lights off";
  channel = "chat";
  source_area = none;
  area = "office";
  verb = "light.turn_off";
  tier = none;
}

abbrev learned_store : LearnedContextStore
learned_store = record { ttl = 100; rows = []; next_id = 1 }

abbrev learning : List StoreOp
learning = success_op 1 off ∷ success_op 2 off ∷ failure_op 1 ∷ sweep_op 50 ∷ []

run_store-Sound_example : Sound (run_store learned_store learning)
run_store-Sound_example = run_store-Sound 100 learned_store learning (unfold open_learned in refl)

kept_row : map (λ row. row.reinforcement) (run_store learned_store learning).rows ≡ 1 ∷ []
unfolding run_store step_store record_success bump_failure sweep
kept_row = refl

-- The bridge handles nothing, and the disambiguator turns the desk lamp on.
abbrev world : Collaborators
world = record {
  bridge = λ u conversation. none;
  disambiguator = λ r. answers (record {
    handled = str_eq r.utterance "desk lamp";
    decision = "execute";
    entity_ids = "light.desk" ∷ [];
    service = "light.turn_on";
    service_data = null;
    speech = "Fine.";
    rationale = "";
    response_mode = none;
  });
  rewriter = none;
  lower = λ s. s;
  is_word = λ c. ltb 64 c;
  normalize = λ s. s;
  cache = empty_cache;
  carryover_window = 120;
}

abbrev ctx : SourceContext
ctx = record { origin = "webui_chat"; channel = "chat"; session_id = "s1"; area_id = none }

abbrev memory : SessionMemory
memory = record { buffer_size = 5; ttl = 600; sessions = [] }

abbrev at_first : State
at_first = record { session = memory; learned = learned_store; audits = [] }

abbrev lamp_on : ResolvedAction
lamp_on = record {
  service = some "light.turn_on";
  entity_ids = "light.desk" ∷ [];
  service_data = null;
  resolved_area_id = none;
}

resolved : action_of (resolve world 10 " desk lamp" ctx at_first).0 ≡ some lamp_on
unfolding resolve strip lstrip rstrip is_blank is_space is_state_query after_prefix build_carryover
    try_tier1 try_tier2 infer_resolved_area areas_of record_action reinforce_learned record_success
resolved = refl

followup_inherits_example :
    (build_carryover world 100 "brighter" ctx (resolve world 10 " desk lamp" ctx at_first).1).0
    ≡ (if is_anaphoric_followup (λ s. s) "brighter" then some (carried lamp_on) else none)
followup_inherits_example =
    followup_inherits world 10 100 " desk lamp" "brighter" ctx ctx at_first lamp_on (omega arith)
      refl resolved refl (omega arith) (omega arith)

abbrev learned_row : ℕ → String → ℕ → LearnedRow
learned_row i key reinforcement = record {
  id = i;
  utterance_key = key;
  source_channel = "chat";
  source_area_id = none;
  resolved_area_id = "office";
  resolved_verb = "light.turn_on";
  resolved_tier = none;
  reinforcement = reinforcement;
  first_seen_at = 1;
  last_used_at = 1;
}

-- A state with a learned row for the utterance, and one for another.
abbrev with_guess : State
with_guess = record at_first {
  learned = record {
    ttl = 100;
    rows = learned_row 1 "hello" 2 ∷ learned_row 2 "bye" 3 ∷ [];
    next_id = 3;
  };
}

falls :
    (falls_through (resolve world 10 "hello" ctx with_guess).0 ≡ true)
    × (guess_of (resolve world 10 "hello" ctx with_guess).0 ≡ some 1)
unfolding resolve strip lstrip rstrip is_blank is_space is_state_query after_prefix build_carryover
    try_tier1 try_tier2 infer_resolved_area areas_of record_action last_turn recent_turns touch
    learned_carryover lookup strongest_first insert_strongest validates split_once ends_with
    bump_failure
falls = (refl, refl)

fall_through-rest_example :
    ((resolve world 10 "hello" ctx with_guess).1.audits ≡ [])
    × ((resolve world 10 "hello" ctx with_guess).1.learned.rows
        ≡ without_guess
            (guess_of (resolve world 10 "hello" ctx with_guess).0)
            with_guess.learned.rows)
fall_through-rest_example = fall_through-rest world 10 "hello" ctx with_guess falls.0

guess_weakened :
    without_guess (some 1) with_guess.learned.rows
    ≡ learned_row 1 "hello" 1 ∷ learned_row 2 "bye" 3 ∷ []
guess_weakened = refl

follow_up : is_anaphoric_followup (λ s. s) "turn it up more" ≡ true
unfolding is_anaphoric_followup find_tokens followup_tokens
follow_up = refl

own_target : is_anaphoric_followup (λ s. s) "turn on the kitchen lights" ≡ false
unfolding is_anaphoric_followup find_tokens followup_tokens
own_target = refl

-- The contraction of a question word is not one of the words that the guard tests.
contraction : is_anaphoric_followup (λ s. s) "what's that" ≡ true
unfolding is_anaphoric_followup find_tokens followup_tokens
contraction = refl
