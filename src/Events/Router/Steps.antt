-- ===== src/Events/Router/Steps.antt =====
-- Events, operator calls and reloads are made of the steps of `Gates`, so that what holds of every
-- step holds of them, whichever threads they run on.
use glados_docker.Common.{
  Bool, Bool-cases, List, Option, Option-cases, String, [], arith, false, find_first, if◌then◌else◌,
  inl, inr, none, not, opt_eq, some, str_eq, true, ◌&&◌, ◌+◌, ◌<◌, ◌||◌, ◌∷◌, ◌≡◌,
}
use glados_docker.Events.Config.{EventRule, EventsConfig, FileRead, is_llm, truthy}
use glados_docker.Events.Router.{
  StateChanged, acted, announce_after, announce_line, count_fire, decide_rule, execute,
  from_matches, gate, gate_and_run, handle_rule, handle_rules, handle_state_changed, load,
  record_result, run_found, run_rule,
}
use glados_docker.Events.State.{
  Env, Router, Verdict, ask_decision, check_quiet, declined, errored, fired, log, run_action,
}
use glados_docker.Events.Router.Gates.{
  Reach, call_step, clear_step, cooldown_spacing, count_step, gate_step, here, load_step, next,
  record_step,
}

Reach-trans : {env : Env} {r s t : Router} → Reach env r s → Reach env s t → Reach env r t
Reach-trans p here = p
Reach-trans p (next q st) = next (Reach-trans p q) st

module _ (env : Env) (rule : EventRule) where
  decide_rule-Reach : (r : Router) → Reach env r (decide_rule env rule r).1
  unfolding decide_rule
  decide_rule-Reach r = elim (Bool-cases (is_llm rule.mode)) [
    | inl e ↦ rw e (next here (call_step (ask_decision rule.id) r))
    | inr e ↦ rw e here
  ]

  announce_after-Reach : (v : Verdict) (r : Router) → Reach env r (announce_after rule v r)
  unfolding announce_after
  announce_after-Reach v r =
      elim (Bool-cases
        (rule.announce && truthy rule.announce_speaker && not (str_eq (announce_line rule v) ""))) [
          | inl e ↦ rw e (next here (call_step _ r))
          | inr e ↦ rw e here
        ]

  acted-Reach :
      (v : Verdict) (failure : Option String) (r : Router)
      → Reach env r (acted env rule v failure r).1
  unfolding acted
  acted-Reach v (some why) r = next here (record_step rule errored why r)
  acted-Reach v none r =
      let counted : Router = count_fire rule r in
      let recorded : Router = record_result env rule fired v.reason counted in
      Reach-trans (next (next here (count_step rule r)) (record_step rule fired v.reason counted))
        (announce_after-Reach v recorded)

  execute-Reach : (r : Router) → Reach env r (execute env rule r).1
  unfolding execute
  execute-Reach r =
      let (v, r₁) = decide_rule env rule r in
      let failure : Option String = env.action_fn r₁.calls rule.action in
      let asked : Router = log (run_action rule.action) r₁ in
      elim (Bool-cases v.act) [
        | inl e ↦ rw e (
            Reach-trans (next (decide_rule-Reach r) (call_step (run_action rule.action) r₁))
              (acted-Reach v failure asked))
        | inr e ↦ rw e (next (decide_rule-Reach r) (record_step rule declined v.reason r₁))
      ]

  gate_and_run-Reach : (c : EventsConfig) (r : Router) → Reach env r (gate_and_run env rule c r)
  unfolding gate_and_run
  gate_and_run-Reach c r =
      let r₁ : Router = log check_quiet r in
      let asked : Reach env r r₁ = next here (call_step check_quiet r) in
      elim (Bool-cases c.enabled) [
        | inr off ↦ rw off here
        | inl on ↦ elim (Bool-cases (env.quiet_check r.calls || not rule.enabled)) [
          | inl quiet ↦ rw (on, quiet) asked
          | inr loud ↦ elim (Bool-cases (gate env rule r₁).0) [
            | inl passed ↦
                rw (on, loud, passed)
                  (Reach-trans (next asked (gate_step rule r₁))
                    (execute-Reach (gate env rule r₁).1))
            | inr held ↦ rw (on, loud, held) (next asked (gate_step rule r₁))
          ]
        ]
      ]

  handle_rule-Reach :
      (c : EventsConfig) (e : StateChanged) (r : Router) → Reach env r (handle_rule env c e rule r)
  unfolding handle_rule
  handle_rule-Reach c e r = elim (Bool-cases (str_eq rule.trigger.entity_id e.entity_id)) [
    | inr other ↦ rw other here
    | inl same ↦ elim (Bool-cases (opt_eq e.new (some rule.trigger.to_state))) [
      | inr out ↦ elim (Bool-cases (opt_eq e.old (some rule.trigger.to_state))) [
        | inl left ↦ rw (same, left, out) (next here (clear_step rule r))
        | inr away ↦ rw (same, away, out) here
      ]
      | inl enter ↦ elim (Bool-cases (opt_eq e.old (some rule.trigger.to_state))) [
        | inl old ↦ rw (same, old, enter) (asked c e r)
        | inr old ↦ rw (same, old, enter) (asked c e r)
      ]
    ]
  ]
    where
      asked :
          (c : EventsConfig) (e : StateChanged) (r : Router)
          → Reach env r (if not (from_matches rule e) then r else gate_and_run env rule c r)
      asked c e r = elim (Bool-cases (from_matches rule e)) [
        | inl m ↦ rw m (gate_and_run-Reach c r)
        | inr m ↦ rw m here
      ]

handle_rules-Reach :
    (env : Env) (c : EventsConfig) (e : StateChanged) (rules : List EventRule) (r : Router)
    → Reach env r (handle_rules env c e rules r)
unfolding handle_rules
handle_rules-Reach env c e [] r = here
handle_rules-Reach env c e (rule ∷ rules) r =
    Reach-trans (handle_rule-Reach env rule c e r)
      (handle_rules-Reach env c e rules (handle_rule env c e rule r))

run_rule-Reach :
    (env : Env) (id : String) (dry_run : Bool) (r : Router)
    → Reach env r (run_rule env id dry_run r).1
unfolding run_rule
run_rule-Reach env id dry_run r =
    elim (Option-cases (find_first (λ x. str_eq x.id id) r.config.rules)) [
      | inl absent ↦ rw (absent, run_rule) here
      | inr (rule, found) ↦ rw (found, run_rule) (chosen dry_run rule)
    ]
  where
    chosen : (b : Bool) (rule : EventRule) → Reach env r (run_found env rule b r).1
    chosen true rule = decide_rule-Reach env rule r
    chosen false rule = execute-Reach env rule r

-- What one call of the router does, given the file, the event or the request that it has.
pub data Operation : Type 0 where
  reload : FileRead → Operation
  event : StateChanged → Operation
  request : String → Bool → Operation

unfoldable pub operate : Env → Operation → Router → Router
unfolding load handle_state_changed run_rule
operate env (reload file) r = (load env file r).1
operate env (event e) r = handle_state_changed env e r
operate env (request id dry_run) r = (run_rule env id dry_run r).1

unfoldable pub operate_all : Env → List Operation → Router → Router
operate_all env [] r = r
operate_all env (op ∷ ops) r = operate_all env ops (operate env op r)

operate-Reach : (env : Env) (op : Operation) (r : Router) → Reach env r (operate env op r)
unfolding operate
operate-Reach env (reload file) r = next here (load_step file r)
operate-Reach env (event e) r = handle_rules-Reach env r.config e r.config.rules r
operate-Reach env (request id dry_run) r = run_rule-Reach env id dry_run r

-- Any sequence of reloads, events and operator requests is a sequence of the router's steps.
pub operate_all-Reach :
    (env : Env) (ops : List Operation) (r : Router) → Reach env r (operate_all env ops r)
unfolding operate_all
operate_all-Reach env [] r = here
operate_all-Reach env (op ∷ ops) r =
    Reach-trans (operate-Reach env op r) (operate_all-Reach env ops (operate env op r))

-- After a pass of a rule's gate, whatever reloads, events and requests follow, the gate holds a rule
-- of the same id back until its `cooldown_s` has passed, if the clock was not 0 at the first pass.
pub cooldown_holds :
    (env : Env) (rule later : EventRule) (r : Router) (ops : List Operation)
    → rule.id ≡ later.id
    → 0 < env.clock r.calls
    → (gate env rule r).0 ≡ true
    → env.clock (operate_all env ops (gate env rule r).1).calls
      < env.clock r.calls + later.cooldown_s
    → (gate env later (operate_all env ops (gate env rule r).1)).0 ≡ false
cooldown_holds env rule later r ops same pos passed early =
    let s : Router = operate_all env ops (gate env rule r).1 in
    elim (Bool-cases (gate env later s).0) [
      | inr held ↦ held
      | inl again ↦ absurd (
          omega (
            arith,
            cooldown_spacing {env = env} rule later r s same pos passed
                (operate_all-Reach env ops (gate env rule r).1) again,
          ))
    ]
