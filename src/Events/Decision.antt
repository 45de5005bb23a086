-- ===== src/Events/Decision.antt =====
-- glados/events/decision.py: `decide`. The texts that Python or a regular expression makes are
-- arguments (`Texts`); an answer of `get_state` that raises, which `decide` does not catch, is left
-- out.
pub mod Acts
use Prim.Native.Char.{Char, code}
use glados_docker.Common.{
  Fields, Json, List, Option, String, [], bool, end, false, field, if◌then◌else◌, join_texts, map,
  none, null, obj, or_else, some, str, str_append, str_eq, strip, take_text, ◌++◌, ◌==◌, ◌∷◌,
}
use glados_docker.Events.Config.{EventRule}
use glados_docker.Events.State.{Verdict}

-- `undecodable` is the text of a `JSONDecodeError`.
pub data Loaded : Type 0 where
  undecodable : String → Loaded
  decoded : Json → Loaded

-- `text_of` is `str(x or "")` of a number, a list or a dictionary.
pub record Texts : Type 0 where
  pub strip_thinking_response : String → String
  pub loads : String → Loaded
  pub text_of : Json → String
  pub repr_text : String → String
  pub repr_json : Json → String

-- What the call of the language model does: `refused` is the text of its exception.
pub data Reply : Type 0 where
  refused : String → Reply
  replied : Option String → Reply

-- `_no_act`
unfoldable pub no_act : String → Verdict
no_act why = record { act = false; reason = str_append "decision error: " why; quip = "" }

abbrev pub context_line : (String → Option String) → String → String
context_line get_state eid =
    join_texts "" ("  " ∷ eid ∷ ": " ∷ or_else (get_state eid) "unavailable" ∷ [])

-- The lines of the prompt; `local` is the local time as a text.
unfoldable pub prompt_lines : (String → Option String) → String → EventRule → List String
unfolding join_texts
prompt_lines get_state local rule =
    str_append "Question: " (or_else rule.decision_prompt "None")
    ∷ join_texts ""
        ("Trigger: " ∷ rule.trigger.entity_id ∷ " changed to '" ∷ rule.trigger.to_state ∷ "'." ∷ [])
    ∷ str_append "Local time: " local
    ∷ "Context:"
    ∷ (map (context_line get_state) rule.context_entities
        ++ join_texts ""
            ("Available action: " ∷ rule.action.target ∷ ". Should it run right now?" ∷ [])
          ∷ [])

-- The text from its first `{` on.
unfoldable pub from_brace : String → Option String
from_brace String.[] = none
from_brace (String.◌∷◌ c s) =
    let rest = from_brace s in if code c == 123 then some (String.◌∷◌ c s) else rest

abbrev close_brace : Char → Option String → Option String
close_brace c none = if code c == 125 then some (String.◌∷◌ c String.[]) else none
close_brace c (some s) = some (String.◌∷◌ c s)

-- The text up to its last `}`.
unfoldable pub upto_brace : String → Option String
upto_brace String.[] = none
upto_brace (String.◌∷◌ c s) = close_brace c (upto_brace s)

abbrev then_upto : Option String → Option String
then_upto none = none
then_upto (some s) = upto_brace s

-- `txt[start:end + 1]`; `none` where `start < 0 or end <= start`.
unfoldable pub json_object : String → Option String
unfolding from_brace upto_brace
json_object txt = then_upto (from_brace txt)

-- `obj.get(key)`
unfoldable pub get_field : String → Fields → Option Json
get_field key end = none
get_field key (field k v fs) = if str_eq k key then some v else get_field key fs

module _ (t : Texts) where
  -- `str(x or "")`
  abbrev pub text_or_empty : Option Json → String
  text_or_empty none = ""
  text_or_empty (some null) = ""
  text_or_empty (some (bool b)) = if b then "True" else ""
  text_or_empty (some (str s)) = s
  text_or_empty (some v) = t.text_of v

  abbrev pub or_no_reason : String → String
  or_no_reason s = if str_eq s "" then "(no reason given)" else s

  abbrev pub act_verdict : Json → Fields → Option Json → Verdict
  act_verdict v fs (some (bool act)) = record {
    act = act;
    reason = or_no_reason (strip (text_or_empty (get_field "reason" fs)));
    quip = strip (text_or_empty (get_field "quip" fs));
  }
  act_verdict v fs a = no_act (str_append "missing/invalid 'act' field: " (t.repr_json v))

  abbrev pub object_verdict : Json → Verdict
  object_verdict (obj fs) = act_verdict (obj fs) fs (get_field "act" fs)
  object_verdict v = no_act (str_append "missing/invalid 'act' field: " (t.repr_json v))

  abbrev pub loaded_verdict : Loaded → Verdict
  loaded_verdict (undecodable exc) = no_act (str_append "invalid JSON: " exc)
  loaded_verdict (decoded v) = object_verdict v

  abbrev pub text_verdict : String → Option String → Verdict
  text_verdict txt none =
      no_act (str_append "no JSON object in response: " (t.repr_text (take_text 80 txt)))
  text_verdict txt (some s) = loaded_verdict (t.loads s)

  abbrev pub raw_verdict : String → Verdict
  raw_verdict raw =
      if str_eq raw ""
      then no_act "LLM returned empty response"
      else let txt = t.strip_thinking_response raw in text_verdict txt (json_object txt)

  -- What `decide` makes of the reply to its prompt.
  unfoldable pub decide : Reply → Verdict
  unfolding no_act get_field json_object
  decide (refused exc) = no_act (str_append "LLM call raised: " exc)
  decide (replied none) = no_act "LLM returned empty response"
  decide (replied (some raw)) = raw_verdict raw
