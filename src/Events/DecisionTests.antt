-- ===== src/Events/DecisionTests.antt =====
-- Decisions at concrete inputs.
use glados_docker.Common.{
  Fields, [], bool, end, false, field, if◌then◌else◌, none, obj, refl, some, str, str_eq, strip,
  true, ◌≡◌,
}
use glados_docker.Events.Config.{EventRule, ha_scene, llm}
use glados_docker.Events.State.{Env, init}
use glados_docker.Events.Router.{decide_rule}
use glados_docker.Events.Decision.{
  Texts, decide, decoded, get_field, json_object, no_act, replied, undecodable,
}
use glados_docker.Events.Decision.Acts.{HasApproved, decide_rule-HasApproved}

abbrev approval : Fields
approval = field "act" (bool true) (field "reason" (str " dark ") end)

abbrev texts : Texts
texts = record {
  strip_thinking_response = λ s. s;
  loads = λ s. if str_eq s "{1}" then decoded (obj approval) else undecodable "at 1";
  text_of = λ v. "";
  repr_text = λ s. s;
  repr_json = λ v. "";
}

abbrev lamp_rule : EventRule
lamp_rule = record {
  id = "motion";
  enabled = true;
  trigger = record { entity_id = "binary.motion"; to_state = "on"; from_state = none };
  mode = llm;
  context_entities = [];
  decision_prompt = some "Is it dark?";
  action = record {
    kind = ha_scene;
    target = "scene.evening";
    entity_id = none;
    service_data = [];
  };
  cooldown_s = 60;
  min_clear_s = 5;
  announce = false;
  announce_speaker = none;
  announce_text = none;
}

abbrev asking : Env
asking = record {
  clock = λ calls. 100;
  quiet_check = λ calls. false;
  get_state = λ calls eid. none;
  decision_fn = λ calls rule. decide texts (replied (some "Yes: {1}."));
  action_fn = λ calls action. none;
  announce_fn = λ calls speaker text. true;
}

acts : decide texts (replied (some "Yes: {1}.")) ≡ record { act = true; reason = "dark"; quip = "" }
unfolding decide get_field json_object strip
acts = refl

goes : (decide_rule asking lamp_rule init).0.act ≡ true
unfolding decide_rule decide get_field json_object
goes = refl

decide_rule-HasApproved_example : HasApproved texts (replied (some "Yes: {1}."))
decide_rule-HasApproved_example =
    decide_rule-HasApproved texts asking lamp_rule init (λ calls rule. replied (some "Yes: {1}."))
      (λ calls rule. refl) refl goes

-- A text after the object hides it, if it has a brace.
not_parsed : (decide texts (replied (some "{1} or {2}"))).act ≡ false
unfolding decide get_field json_object no_act
not_parsed = refl
