-- ===== src/Events/Tests.antt =====
-- Runs of the event engine at concrete inputs.
use glados_docker.Common.{
  List, [], any_of, arith, false, get, has_code, length, none, put, refl, remove, some, split_once,
  subst, sym, true, ◌*◌, ◌+◌, ◌<◌, ◌∷◌, ◌≡◌, ◌≤◌,
}
use glados_docker.Events.Config.{
  EventActionSpec, EventRule, always, broken, check_target, ha_script, ha_service,
  load_events_config, parsed,
}
use glados_docker.Events.Action.{
  CallService, ServiceCall, called, execute_ha_action, execute_ha_action-two_tries, map_call,
  returned, slept,
}
use glados_docker.Events.Router.{
  StateChanged, execute, gate, gate_and_run, handle_state_changed, load, run_rule,
}
use glados_docker.Events.State.{Call, Env, Router, check_quiet, init, log, read_clock}
use glados_docker.Events.Router.Gates.{Reach, call_step, cooldown_spacing, here, next}
use glados_docker.Events.Router.Steps.{
  cooldown_holds, event, operate, operate_all, operate_all-Reach, reload, request,
}
use glados_docker.Events.Router.Runs.{actions, actions-handle_state_changed, eligible}

program : Unit {0}
unfolding load_events_config load gate execute gate_and_run handle_state_changed run_rule
    operate_all operate get put remove map_call execute_ha_action split_once has_code
program = tt

abbrev lamp_on : EventActionSpec
lamp_on = record { kind = ha_script; target = "script.lamp"; entity_id = none; service_data = [] }

abbrev motion : EventRule
motion = record {
  id = "motion";
  enabled = true;
  trigger = record { entity_id = "binary.motion"; to_state = "on"; from_state = none };
  mode = always;
  context_entities = [];
  decision_prompt = none;
  action = lamp_on;
  cooldown_s = 60;
  min_clear_s = 5;
  announce = false;
  announce_speaker = none;
  announce_text = none;
}

-- Each call takes ten ticks, the action succeeds, and nothing is suppressed.
abbrev house : Env
house = record {
  clock = λ calls. 100 + 10 * length calls;
  quiet_check = λ calls. false;
  get_state = λ calls entity. some (some "off");
  decision_fn = λ calls rule. record { act = true; reason = "late"; quip = "" };
  action_fn = λ calls spec. none;
  announce_fn = λ calls text speaker. true;
}

abbrev configured : Router
configured = record init { config = record { enabled = true; rules = motion ∷ [] } }

abbrev cleared : Router
cleared = record configured { clear_since = ("motion", 10) ∷ [] }

abbrev enter : StateChanged
enter = record { entity_id = "binary.motion"; old = some "off"; new = some "on" }

gate_opens : (gate house motion cleared).0 ≡ true
unfolding program
gate_opens = refl

-- An event that passes every gate runs the action.
fires : actions (handle_state_changed house enter cleared).calls ≡ lamp_on ∷ []
unfolding program
fires = refl

-- The same event right after it does not.
cools :
    actions (handle_state_changed house enter (handle_state_changed house enter cleared)).calls
    ≡ lamp_on ∷ []
unfolding program
cools = refl

-- A reload that finds the entity away from the trigger state starts the clear time.
seeded : (load house (parsed configured.config) init).1.clear_since ≡ ("motion", 100) ∷ []
unfolding program
seeded = refl

abbrev stamped : Router
stamped = record cleared { last_attempt = ("motion", 100) ∷ []; calls = read_clock ∷ [] }

abbrev later_calls : List Call
later_calls =
    read_clock ∷ check_quiet ∷ read_clock ∷ check_quiet ∷ read_clock ∷ check_quiet ∷ read_clock ∷ []

abbrev much_later : Router
much_later = record stamped { calls = later_calls }

stamped_lem : (gate house motion cleared).1 ≡ stamped
unfolding program
stamped_lem = refl

wait : Reach house stamped much_later
wait =
    next
      (next
        (next
          (next
            (next (next here (call_step check_quiet stamped))
              (call_step read_clock (log check_quiet stamped)))
            (call_step check_quiet (log read_clock (log check_quiet stamped))))
          (call_step read_clock (log check_quiet (log read_clock (log check_quiet stamped)))))
        (call_step check_quiet
          (log read_clock (log check_quiet (log read_clock (log check_quiet stamped))))))
      (call_step read_clock (
        log check_quiet
          (log read_clock (log check_quiet (log read_clock (log check_quiet stamped))))))

gate_opens_again : (gate house motion much_later).0 ≡ true
unfolding program
gate_opens_again = refl

cooldown_spacing_example : 100 + 60 ≤ house.clock later_calls
cooldown_spacing_example =
    cooldown_spacing {env = house} motion motion cleared much_later refl (omega arith) gate_opens
      (subst (λ (s : Router). Reach house s much_later) (sym stamped_lem) wait) gate_opens_again

early : house.clock (operate_all house (event enter ∷ []) (gate house motion cleared).1).calls < 160
unfolding program
early = omega arith

cooldown_holds_example :
    (gate house motion (operate_all house (event enter ∷ []) (gate house motion cleared).1)).0
    ≡ false
cooldown_holds_example =
    cooldown_holds house motion motion cleared (event enter ∷ []) refl (omega arith) gate_opens
      early

operate_all-Reach_example : Reach house init (
    operate_all house
      (reload (parsed configured.config) ∷ event enter ∷ request "motion" true ∷ [])
      init)
operate_all-Reach_example =
    operate_all-Reach house
      (reload (parsed configured.config) ∷ event enter ∷ request "motion" true ∷ []) init

abbrev leave : StateChanged
leave = record { entity_id = "binary.motion"; old = some "on"; new = some "off" }

ineligible : any_of (eligible cleared.config leave) cleared.config.rules ≡ false
ineligible = refl

actions-handle_state_changed_example :
    actions (handle_state_changed house leave cleared).calls ≡ actions cleared.calls
actions-handle_state_changed_example = actions-handle_state_changed house leave cleared ineligible

load_fails : (load house (broken "no such tag") cleared).0 ≡ false
unfolding program
load_fails = refl

-- The first call fails and the second succeeds.
abbrev flaky : CallService
flaky [] c = some "timeout"
flaky (x ∷ done) c = none

abbrev script_call : ServiceCall
script_call = record {
  domain = "script";
  service = "turn_on";
  service_data = [];
  target = some "script.lamp";
}

lamp_call : map_call lamp_on ≡ some script_call
unfolding program
lamp_call = refl

execute_ha_action-two_tries_example :
    execute_ha_action flaky lamp_on []
    ≡ (returned, called script_call ∷ slept ∷ called script_call ∷ [])
execute_ha_action-two_tries_example =
    execute_ha_action-two_tries flaky lamp_on script_call [] lamp_call

abbrev notify : EventActionSpec
notify = record { kind = ha_service; target = "light.toggle"; entity_id = none; service_data = [] }

notify_checked : check_target notify ≡ none
unfolding check_target has_code
notify_checked = refl
