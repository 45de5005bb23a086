-- ===== src/Events/Action.antt =====
-- glados/events/actions/ha_action.py: one service call for an action, with one retry. The answer of
-- `call_service` to a call may depend on what was done before, the newest first.
use glados_docker.Common.{
  Dict, Json, List, Option, String, [], arith, has_code, if◌then◌else◌, none, refl, some,
  split_once, split_once-has_code, str_eq, true, ℕ, ◌==◌, ◌∷◌, ◌≡◌,
}
use glados_docker.Events.Config.{
  EventActionSpec, Kind, check_target, ha_automation, ha_scene, ha_script, ha_service,
}

pub record ServiceCall : Type 0 where
  pub domain : String
  pub service : String
  pub service_data : Dict Json
  pub target : Option String

pub data Done : Type 0 where
  called : ServiceCall → Done
  slept : Done

-- The message of the exception that a call raises, or `none` if it returns.
abbrev pub CallService : Type 0
CallService = List Done → ServiceCall → Option String

pub data ActionResult : Type 0 where
  returned value_error : ActionResult
  ha_action_error : String → ActionResult

-- A target text that is `None` or empty gives no target.
abbrev service_target : Option String → Option String
service_target none = none
service_target (some s) = if str_eq s "" then none else some s

abbrev split_call : EventActionSpec → Option (String × String) → Option ServiceCall
split_call spec none = none
split_call spec (some (domain, service)) = some (record {
  domain = domain;
  service = service;
  service_data = spec.service_data;
  target = service_target spec.entity_id;
})

abbrev entity_call : String → String → String → ServiceCall
entity_call domain service entity = record {
  domain = domain;
  service = service;
  service_data = [];
  target = some entity;
}

-- `none` where the unpacking of `target.split(".", 1)` raises.
unfoldable pub map_kind : Kind → EventActionSpec → Option ServiceCall
map_kind ha_automation spec = some (entity_call "automation" "trigger" spec.target)
map_kind ha_script spec = some (entity_call "script" "turn_on" spec.target)
map_kind ha_scene spec = some (entity_call "scene" "turn_on" spec.target)
map_kind ha_service spec = split_call spec (split_once b'.' spec.target)

unfoldable pub map_call : EventActionSpec → Option ServiceCall
unfolding map_kind
map_call spec = map_kind spec.kind spec

-- The loop `for attempt in (1, 2)`, with `last_exc`.
unfoldable pub attempts :
    CallService → ServiceCall → List ℕ → String → List Done → ActionResult × List Done
attempts call_service c [] last_exc done = (ha_action_error last_exc, done)
attempts call_service c (attempt ∷ rest) last_exc done = elim (call_service done c) [
  | none ↦ (returned, called c ∷ done)
  | some exc ↦
      attempts call_service c rest exc
        (if attempt == 1 then slept ∷ called c ∷ done else called c ∷ done)
]

abbrev pub attempt_call : CallService → Option ServiceCall → List Done → ActionResult × List Done
attempt_call call_service none done = (value_error, done)
attempt_call call_service (some c) done = attempts call_service c (1 ∷ 2 ∷ []) "" done

unfoldable pub execute_ha_action :
    CallService → EventActionSpec → List Done → ActionResult × List Done
unfolding attempts map_call
execute_ha_action call_service spec done = attempt_call call_service (map_call spec) done

-- The answers to the first call and, after the pause, to the second decide everything.
abbrev pub two_tries :
    ServiceCall → Option String → Option String → List Done → ActionResult × List Done
two_tries c none second done = (returned, called c ∷ done)
two_tries c (some first) none done = (returned, called c ∷ slept ∷ called c ∷ done)
two_tries c (some first) (some exc) done = (ha_action_error exc, called c ∷ slept ∷ called c ∷ done)

-- The action is tried once, and once more after one pause if the first try raises; it returns if
-- a try returns, and else raises with the second message.
pub execute_ha_action-two_tries :
    (call_service : CallService) (spec : EventActionSpec) (c : ServiceCall) (done : List Done)
    → map_call spec ≡ some c
    → execute_ha_action call_service spec done
      ≡ two_tries c (call_service done c) (call_service (slept ∷ called c ∷ done) c) done
unfolding execute_ha_action
execute_ha_action-two_tries call_service spec c done e = ground (arith)

-- An action that the schema accepts always has a service call.
pub map_call_checked :
    (spec : EventActionSpec)
    → check_target spec ≡ none
    → (c : ServiceCall) × (map_call spec ≡ some c)
unfolding map_call check_target
map_call_checked spec h = checked spec.kind refl
  where
    service :
        has_code b'.' spec.target ≡ true → (c : ServiceCall) × (map_kind ha_service spec ≡ some c)
    service dot =
        let (p, e) = split_once-has_code b'.' spec.target dot in
        (
          record {
            domain = p.0;
            service = p.1;
            service_data = spec.service_data;
            target = service_target spec.entity_id;
          },
          rw e,
        )

    checked : (k : Kind) → spec.kind ≡ k → (c : ServiceCall) × (map_kind k spec ≡ some c)
    checked ha_automation e = (_, refl)
    checked ha_script e = (_, refl)
    checked ha_scene e = (_, refl)
    checked ha_service e = service (ground arith)
