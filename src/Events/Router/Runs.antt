-- ===== src/Events/Router/Runs.antt =====
-- What `_execute`, the events and the operator's calls do: which actions run, and what is recorded.
use glados_docker.Common.{
  Bool, Bool-cases, List, Option, Option-cases, String, [], any_of, arith, false, find_first, get,
  get-put_self, if◌then◌else◌, inl, inr, none, not, opt_eq, or_else, refl, some, str_eq, true, ℕ,
  ◌&&◌, ◌+◌, ◌∙◌, ◌∷◌, ◌≡◌,
}
use glados_docker.Events.Config.{
  EventActionSpec, EventRule, EventsConfig, FileRead, LoadResult, config_error, load_events_config,
  loaded,
}
use glados_docker.Events.Router.{
  StateChanged, adopt, decide_rule, execute, from_matches, gate_and_run, handle_rule, handle_rules,
  handle_state_changed, load, run_rule,
}
use glados_docker.Events.State.{
  Call, Env, Router, RuleStatus, RunResult, Verdict, declined, engine_off, errored, fired, log,
  run_action,
}

-- The actions that were run, the newest first.
abbrev pub actions : List Call → List EventActionSpec
actions [] = []
actions (run_action spec ∷ calls) = spec ∷ actions calls
actions (_ ∷ calls) = actions calls

abbrev pub is_fired : RunResult → Bool
is_fired fired = true
is_fired _ = false

abbrev pub action_error : Env → EventRule → Router → Option String
action_error env rule r = env.action_fn (decide_rule env rule r).1.calls rule.action

-- What `_execute` is to return: declined by the verdict, an error of the action, or fired.
abbrev pub outcome : Verdict → Option String → RunResult × String
outcome verdict failure =
    if not verdict.act
    then (declined, verdict.reason)
    else (elim failure [ none ↦ (fired, verdict.reason) | some why ↦ (errored, why) ])

abbrev status_entry : RunResult → String → ℕ → RuleStatus
status_entry result reason ts = record { last_result = result; last_reason = reason; last_ts = ts }

module _ (env : Env) (rule : EventRule) (r : Router) where
  -- `_execute` returns "declined" with the verdict's reason if the verdict is not to act, "error"
  -- with the message if the action raises, and "fired" otherwise.
  pub execute-outcome :
      (execute env rule r).0 ≡ outcome (decide_rule env rule r).0 (action_error env rule r)
  unfolding execute
  execute-outcome = ground arith

  -- `_execute` runs the rule's action once if the verdict is to act, and no action otherwise.
  pub actions-execute :
      actions (execute env rule r).1.calls
      ≡ (if (decide_rule env rule r).0.act then rule.action ∷ actions r.calls else actions r.calls)
  unfolding execute
  actions-execute = ground arith

  -- `_execute` leaves a status with the result and the reason that it returns.
  pub status-execute :
      (ts : ℕ) × (get rule.id (execute env rule r).1.status
        ≡ some (record {
          last_result = (execute env rule r).0.0;
          last_reason = (execute env rule r).0.1;
          last_ts = ts;
        }))
  unfolding execute
  status-execute =
      let r₁ : Router = (decide_rule env rule r).1 in
      let r₂ : Router = log (run_action rule.action) r₁ in
      let row = λ (result : RunResult) (reason : String) (ts : ℕ).
        get-put_self rule.id (status_entry result reason ts) r.status in
      elim (Bool-cases (decide_rule env rule r).0.act) [
        | inr no' ↦ (
          env.clock r₁.calls,
          ground (arith, row declined (decide_rule env rule r).0.reason (env.clock r₁.calls)),
        )
        | inl yes' ↦ elim (Option-cases (action_error env rule r)) [
          | inl clean ↦ (
            env.clock r₂.calls,
            ground (arith, row fired (decide_rule env rule r).0.reason (env.clock r₂.calls)),
          )
          | inr (why, failed) ↦
              (env.clock r₂.calls, ground (arith, row errored why (env.clock r₂.calls)))
        ]
      ]

  -- The fire count of a rule goes up by one exactly when its action ran without an error.
  pub fire_count-execute : or_else (get rule.id (execute env rule r).1.fire_count) 0 ≡ (
      if is_fired (execute env rule r).0.0
      then or_else (get rule.id r.fire_count) 0 + 1
      else or_else (get rule.id r.fire_count) 0)
  unfolding execute
  fire_count-execute =
      ground (arith, get-put_self rule.id (or_else (get rule.id r.fire_count) 0 + 1) r.fire_count)

-- The tests that an event has to pass for a rule before its gates are asked.
abbrev pub eligible : EventsConfig → StateChanged → EventRule → Bool
eligible c e rule =
    c.enabled
    && rule.enabled
    && str_eq rule.trigger.entity_id e.entity_id
    && opt_eq e.new (some rule.trigger.to_state)
    && from_matches rule e

actions-gate_and_run :
    (env : Env) (rule : EventRule) (c : EventsConfig) (r : Router)
    → c.enabled && rule.enabled ≡ false
    → actions (gate_and_run env rule c r).calls ≡ actions r.calls
unfolding gate_and_run
actions-gate_and_run env rule c r h = ground arith

actions-handle_rule :
    (env : Env) (c : EventsConfig) (e : StateChanged) (rule : EventRule) (r : Router)
    → eligible c e rule ≡ false
    → actions (handle_rule env c e rule r).calls ≡ actions r.calls
unfolding handle_rule
actions-handle_rule env c e rule r h = ground (arith, actions-gate_and_run env rule c r)

actions-handle_rules :
    (env : Env) (c : EventsConfig) (e : StateChanged) (rules : List EventRule) (r : Router)
    → any_of (eligible c e) rules ≡ false
    → actions (handle_rules env c e rules r).calls ≡ actions r.calls
unfolding handle_rules
actions-handle_rules env c e [] r h = refl
actions-handle_rules env c e (rule ∷ rules) r h =
    actions-handle_rules env c e rules (handle_rule env c e rule r) (ground arith)
    ∙ actions-handle_rule env c e rule r (ground arith)

-- An event runs no action unless the engine and some rule are enabled, and that rule's trigger has
-- the event's entity, its new state and, where the rule asks for one, its old state.
pub actions-handle_state_changed :
    (env : Env) (e : StateChanged) (r : Router)
    → any_of (eligible r.config e) r.config.rules ≡ false
    → actions (handle_state_changed env e r).calls ≡ actions r.calls
unfolding handle_state_changed
actions-handle_state_changed env e r h = actions-handle_rules env r.config e r.config.rules r h

-- After a reload that fails, no event runs an action, whatever it is.
pub broken_config_stops :
    (env : Env) (file : FileRead) (e : StateChanged) (r : Router)
    → (load env file r).0 ≡ false
    → actions (handle_state_changed env e (load env file r).1).calls ≡ actions r.calls
unfolding load
broken_config_stops env file e r h = stopped (load_events_config file) h
  where
    stopped :
        (l : LoadResult)
        → (adopt env l r).0 ≡ false
        → actions (handle_state_changed env e (adopt env l r).1).calls ≡ actions r.calls
    stopped (loaded c) h = absurd (unfold adopt in cc)
    stopped (config_error why) h =
        unfold adopt in
        actions-handle_state_changed env e (record r { config = engine_off; load_error = some why })
          refl

-- A dry run runs no action and speaks no line, and changes nothing but the list of calls.
pub run_rule_dry :
    (env : Env) (id : String) (r : Router)
    → (actions (run_rule env id true r).1.calls ≡ actions r.calls)
      × (record (run_rule env id true r).1 { calls = r.calls } ≡ r)
unfolding run_rule
run_rule_dry env id r = elim (Option-cases (find_first (λ x. str_eq x.id id) r.config.rules)) [
  | inl absent ↦ (ground arith, ground arith)
  | inr (rule, found) ↦ (ground arith, ground arith)
]

-- A manual run of a rule that is configured is `_execute` of it, past every gate; an id that is not
-- configured changes nothing.
pub run_rule_manual :
    (env : Env) (id : String) (r : Router)
    → (run_rule env id false r).1 ≡ (elim (find_first (λ x. str_eq x.id id) r.config.rules) [
      | none ↦ r
      | some rule ↦ (execute env rule r).1
    ])
unfolding run_rule
run_rule_manual env id r = ground arith
