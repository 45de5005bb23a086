-- ===== src/Events/Router.antt =====
-- glados/events/router.py: `EventRouter`. The callables that the constructor takes are functions of
-- the calls made so far, so that their answers may change from one call to the next; each call that
-- the router makes is put on the list `calls`, the newest first. `decision_fn`, `announce_fn` and
-- `quiet_check` are taken to return, and `action_fn` to return or to raise `HAActionError`.
pub mod Gates
pub mod Runs
pub mod Steps
use glados_docker.Common.{
  Bool, List, Option, String, [], false, find_first, get, if◌then◌else◌, is_some, ltb, map, none,
  not, opt_eq, or_else, put, some, str_eq, take_text, true, ℕ, ◌&&◌, ◌+◌, ◌==◌, ◌||◌, ◌∷◌,
}
use glados_docker.Events.Config.{
  ConfigError, EventRule, EventsConfig, FileRead, LoadResult, config_error, is_llm,
  load_events_config, loaded, truthy,
}
use glados_docker.Events.State.{
  Env, Router, RuleStatus, RunResult, Verdict, ask_decision, ask_state, audit, check_quiet,
  declined, engine_off, errored, fired, log, read_clock, run_action, say,
}

-- The state that `load` sees of an entity: `None` where `get_state` raises.
abbrev current_state : Option (Option String) → Option String
current_state none = none
current_state (some s) = s

-- The body of the loop of `load` that seeds `_clear_since`.
unfoldable pub seed_rule : Env → ℕ → EventRule → Router → Router
seed_rule env now rule r =
    if ltb 0 rule.min_clear_s
    then (let current = current_state (env.get_state r.calls rule.trigger.entity_id) in
        let r' = log (ask_state rule.trigger.entity_id) r in
        if not (opt_eq current (some rule.trigger.to_state)) && is_some current
        then record r' { clear_since = put rule.id now r'.clear_since }
        else r')
    else r

unfoldable pub seed_clear : Env → ℕ → List EventRule → Router → Router
unfolding seed_rule
seed_clear env now [] r = r
seed_clear env now (rule ∷ rules) r = seed_clear env now rules (seed_rule env now rule r)

unfoldable pub adopt : Env → LoadResult → Router → Bool × Router
unfolding seed_clear
adopt env (loaded c) r =
    let now = env.clock r.calls in
    (true, record (seed_clear env now c.rules (log read_clock r)) { config = c; load_error = none })
adopt env (config_error e) r = (false, record r { config = engine_off; load_error = some e })

unfoldable pub load : Env → FileRead → Router → Bool × Router
unfolding adopt load_events_config
load env file r = adopt env (load_events_config file) r

-- `last and now - last < cooldown_s`
abbrev pub cooling : EventRule → ℕ → Option ℕ → Bool
cooling rule now last = not (or_else last 0 == 0) && ltb now (or_else last 0 + rule.cooldown_s)

-- The tests on `_clear_since`: an entry that is absent blocks.
abbrev pub not_clear : EventRule → ℕ → Option ℕ → Bool
not_clear rule now none = ltb 0 rule.min_clear_s
not_clear rule now (some cleared) = ltb 0 rule.min_clear_s && ltb now (cleared + rule.min_clear_s)

-- The block of `_gate_and_run` under the lock: may the rule run, and the stamp if so.
unfoldable pub gate : Env → EventRule → Router → Bool × Router
gate env rule r =
    let now = env.clock r.calls in
    let r' = log read_clock r in
    if cooling rule now (get rule.id r.last_attempt)
    then (false, r')
    else if not_clear rule now (get rule.id r.clear_since)
    then (false, r')
    else (true, record r' { last_attempt = put rule.id now r.last_attempt })

unfoldable pub record_result : Env → EventRule → RunResult → String → Router → Router
record_result env rule result reason r =
    let now = env.clock r.calls in
    let r' = log read_clock r in
    log (audit now result rule.id (take_text 200 reason)) (record r' {
      status =
          put rule.id (record { last_result = result; last_reason = reason; last_ts = now })
            r.status;
    })

unfoldable pub decide_rule : Env → EventRule → Router → Verdict × Router
decide_rule env rule r =
    if is_llm rule.mode
    then (env.decision_fn r.calls rule, log (ask_decision rule.id) r)
    else (record { act = true; reason = "mode: always"; quip = "" }, r)

abbrev pub announce_line : EventRule → Verdict → String
announce_line rule verdict =
    if is_llm rule.mode then verdict.quip else or_else rule.announce_text ""

unfoldable pub announce_after : EventRule → Verdict → Router → Router
announce_after rule verdict r =
    let text = announce_line rule verdict in
    if rule.announce && truthy rule.announce_speaker && not (str_eq text "")
    then log (say text (or_else rule.announce_speaker "")) r
    else r

unfoldable pub count_fire : EventRule → Router → Router
count_fire rule r = record r {
  fire_count = put rule.id (or_else (get rule.id r.fire_count) 0 + 1) r.fire_count;
}

-- `_execute` after the call of the action, which raised or returned.
unfoldable pub acted :
    Env → EventRule → Verdict → Option String → Router → (RunResult × String) × Router
unfolding record_result announce_after count_fire
acted env rule verdict (some why) r = ((errored, why), record_result env rule errored why r)
acted env rule verdict none r = (
  (fired, verdict.reason),
  announce_after rule verdict (record_result env rule fired verdict.reason (count_fire rule r)),
)

-- `_execute` from the call of the action on.
unfoldable pub act_on : Env → EventRule → Verdict → Router → (RunResult × String) × Router
unfolding acted
act_on env rule verdict r =
    acted env rule verdict (env.action_fn r.calls rule.action) (log (run_action rule.action) r)

-- The returned pair is the dictionary of `_execute`.
unfoldable pub execute : Env → EventRule → Router → (RunResult × String) × Router
unfolding act_on decide_rule
execute env rule r =
    let (verdict, r') = decide_rule env rule r in
    if verdict.act
    then act_on env rule verdict r'
    else ((declined, verdict.reason), record_result env rule declined verdict.reason r')

-- `_gate_and_run`, without what `_execute` returns.
unfoldable pub gate_and_run : Env → EventRule → EventsConfig → Router → Router
unfolding gate
gate_and_run env rule c r =
    if not c.enabled
    then r
    else let r₁ = log check_quiet r in
      if env.quiet_check r.calls || not rule.enabled
      then r₁
      else let (passed, r₂) = gate env rule r₁ in if passed then (execute env rule r₂).1 else r₂

pub record StateChanged : Type 0 where
  pub entity_id : String
  pub old : Option String
  pub new : Option String

unfoldable pub stamp_clear : Env → EventRule → Router → Router
stamp_clear env rule r =
    let now = env.clock r.calls in
    record (log read_clock r) { clear_since = put rule.id now r.clear_since }

abbrev pub from_matches : EventRule → StateChanged → Bool
from_matches rule e = elim rule.trigger.from_state [ none ↦ true | some s ↦ opt_eq e.old (some s) ]

-- The body of the loop of `handle_state_changed`.
unfoldable pub handle_rule : Env → EventsConfig → StateChanged → EventRule → Router → Router
unfolding stamp_clear
handle_rule env c e rule r =
    let to_state = some rule.trigger.to_state in
    if not (str_eq rule.trigger.entity_id e.entity_id)
    then r
    else if opt_eq e.old to_state && not (opt_eq e.new to_state)
    then stamp_clear env rule r
    else if not (opt_eq e.new to_state)
    then r
    else if not (from_matches rule e)
    then r
    else gate_and_run env rule c r

unfoldable pub handle_rules : Env → EventsConfig → StateChanged → List EventRule → Router → Router
unfolding handle_rule
handle_rules env c e [] r = r
handle_rules env c e (rule ∷ rules) r = handle_rules env c e rules (handle_rule env c e rule r)

unfoldable pub handle_state_changed : Env → StateChanged → Router → Router
unfolding handle_rules
handle_state_changed env e r = handle_rules env r.config e r.config.rules r

pub data RunReply : Type 0 where
  no_rule : String → RunReply
  dry : Verdict → RunReply
  ran : RunResult → String → RunReply

-- `run_rule` once the rule is found.
unfoldable pub run_found : Env → EventRule → Bool → Router → RunReply × Router
unfolding execute decide_rule
run_found env rule true r = let (verdict, r') = decide_rule env rule r in (dry verdict, r')
run_found env rule false r =
    let ((result, reason), r') = execute env rule r in (ran result reason, r')

unfoldable pub run_rule : Env → String → Bool → Router → RunReply × Router
unfolding run_found
run_rule env rule_id dry_run r = elim (find_first (λ x. str_eq x.id rule_id) r.config.rules) [
  | none ↦ (no_rule rule_id, r)
  | some rule ↦ run_found env rule dry_run r
]

-- One row of `status()`: the rule, its last result (`None` for "never") and its fire count.
abbrev status_row : Router → EventRule → EventRule × Option RuleStatus × ℕ
status_row r rule = (rule, get rule.id r.status, or_else (get rule.id r.fire_count) 0)

unfoldable pub status_report :
    Router → Bool × Option ConfigError × List (EventRule × Option RuleStatus × ℕ)
status_report r = (r.config.enabled, r.load_error, map (status_row r) r.config.rules)
