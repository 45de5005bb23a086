-- ===== src/Events/Decision/Acts.antt =====
-- When the decision is to act.
use glados_docker.Common.{
  Bool-cases, Fields, Json, List, Option, String, ap, arith, arr, bool, false, inl, inr, none, null,
  num, obj, refl, some, str, str_eq, true, ◌∙◌, ◌≡◌,
}
use glados_docker.Events.Config.{EventRule, is_llm}
use glados_docker.Events.State.{Call, Env, Router}
use glados_docker.Events.Decision.{
  Loaded, Reply, Texts, act_verdict, decide, decoded, get_field, json_object, loaded_verdict,
  no_act, object_verdict, refused, replied, text_verdict, undecodable,
}
use glados_docker.Events.Router.{decide_rule}

-- The language model has answered with an object whose `act` is `true`.
pub record HasApproved (t : Texts) (reply : Reply) : Type 0 where
  pub raw : String
  pub text : String
  pub fields : Fields
  pub answered : reply ≡ replied (some raw)
  pub between_braces : json_object (t.strip_thinking_response raw) ≡ some text
  pub parsed : t.loads text ≡ decoded (obj fields)
  pub approved : get_field "act" fields ≡ some (bool true)

field_approves :
    (t : Texts) (v : Json) (fs : Fields) (a : Option Json)
    → (act_verdict t v fs a).act ≡ true
    → a ≡ some (bool true)
unfolding no_act
field_approves t v fs (some (bool true)) h = refl
field_approves t v fs (some (bool false)) h = cc h
field_approves t v fs (some null) h = cc h
field_approves t v fs (some (num n)) h = cc h
field_approves t v fs (some (str s)) h = cc h
field_approves t v fs (some (arr items)) h = cc h
field_approves t v fs (some (obj fields)) h = cc h
field_approves t v fs none h = cc h

object_approves :
    (t : Texts) (v : Json)
    → (object_verdict t v).act ≡ true
    → (fs : Fields) × (v ≡ obj fs) × (get_field "act" fs ≡ some (bool true))
unfolding no_act
object_approves t (obj fs) h = (fs, refl, field_approves t (obj fs) fs (get_field "act" fs) h)
object_approves t null h = cc h
object_approves t (bool b) h = cc h
object_approves t (num n) h = cc h
object_approves t (str s) h = cc h
object_approves t (arr items) h = cc h

text_approves :
    (t : Texts) (raw : String) (found : Option String)
    → json_object (t.strip_thinking_response raw) ≡ found
    → (text_verdict t (t.strip_thinking_response raw) found).act ≡ true
    → HasApproved t (replied (some raw))
unfolding no_act
text_approves t raw none e h = cc h
text_approves t raw (some s) e h = go (t.loads s) refl h
  where
    go :
        (l : Loaded)
        → t.loads s ≡ l
        → (loaded_verdict t l).act ≡ true
        → HasApproved t (replied (some raw))
    go (undecodable exc) p h = cc h
    go (decoded v) p h =
        let (fs, is_object, yes') = object_approves t v h in
        record {
          raw = raw;
          text = s;
          fields = fs;
          answered = refl;
          between_braces = e;
          parsed = p ∙ ap decoded is_object;
          approved = yes';
        }

decide_acts : (t : Texts) (reply : Reply) → (decide t reply).act ≡ true → HasApproved t reply
unfolding decide no_act
decide_acts t (refused exc) h = cc h
decide_acts t (replied none) h = cc h
decide_acts t (replied (some raw)) h = elim (Bool-cases (str_eq raw "")) [
  | inl empty ↦ absurd (grind (arith, empty, h))
  | inr full ↦
      text_approves t raw (json_object (t.strip_thinking_response raw)) refl
        (grind (arith, full, h))
]

-- Acting is never the failure default: where `decide` is the router's decision function, a rule of
-- the mode `llm` gets the verdict to act only if the language model did answer, and its answer,
-- less the thinking, has an object between its first and its last brace whose `act` is `true`.
pub decide_rule-HasApproved :
    (t : Texts) (env : Env) (rule : EventRule) (r : Router) (reply : List Call → EventRule → Reply)
    → ((calls : List Call) (asked : EventRule)
        → env.decision_fn calls asked ≡ decide t (reply calls asked))
    → is_llm rule.mode ≡ true
    → (decide_rule env rule r).0.act ≡ true
    → HasApproved t (reply r.calls rule)
unfolding decide_rule
decide_rule-HasApproved t env rule r reply agrees l h =
    decide_acts t (reply r.calls rule) (grind (arith, agrees r.calls rule, l, h))
