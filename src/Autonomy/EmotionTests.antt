-- ===== src/Autonomy/EmotionTests.antt =====
-- Emotions and modifiers at concrete inputs.
use glados_docker.Common.{
  List, String, [], any_of, get, has, if◌then◌else◌, none, not, pos, put, refl, remove, some,
  str_eq, true, ◌∷◌, ◌≡◌,
}
use glados_docker.Autonomy.Emotion.{EmotionState, minus}
use glados_docker.Autonomy.Constitution.{
  Numerals, PromptModifier, Value, apply_modifier, default_constitution, get_modifiers_prompt,
  instruct, modifier_lines, number, remove_modifier, text, to_prompt_fragment,
  validate_modification,
}
use glados_docker.Autonomy.Constitution.State.{Op, apply_op, new_state, remove_op, run, step}
use glados_docker.Autonomy.Constitution.Limits.{IsWithin, modifiers-IsWithin}
use glados_docker.Autonomy.Constitution.Prompts.{prompt_raises, raises_type_error, takes_number}
use glados_docker.Autonomy.Constitution.Bridge.{
  apply_all, apply_emotion_modifiers, compute_modifiers, default_bridge, proactivity_modifiers,
  proposal, snark_modifiers, verbosity_modifiers,
}

-- `float("0.5")` is 50 hundredths.
abbrev numerals : Numerals
numerals = record {
  parse_float = λ s. if str_eq s "0.5" then some (pos 50) else none;
  print_value = λ v. "value";
  two_decimals = λ x. "-0.50";
}

abbrev change : String → Value → PromptModifier
change name value = record { field_name = name; value = value; reason = "r"; applied_at = 3 }

abbrev proposals : List Op
proposals =
    apply_op (change "verbosity" (text "0.5"))
    ∷ apply_op (change "snark_level" (number (pos 20)))
    ∷ apply_op (change "formality" (number (pos 40)))
    ∷ remove_op "formality"
    ∷ []

modifiers-IsWithin_example :
    IsWithin numerals default_constitution (run numerals (new_state default_constitution) proposals)
modifiers-IsWithin_example = modifiers-IsWithin numerals default_constitution proposals

prompt_raises_example :
    raises_type_error
      (get_modifiers_prompt numerals (run numerals (new_state default_constitution) proposals))
    ≡ any_of
        (λ e. not (takes_number e))
        (run numerals (new_state default_constitution) proposals).active_modifiers
prompt_raises_example = prompt_raises numerals proposals

-- The text "0.5" is accepted, and the prompt raises.
text_raises :
    raises_type_error
      (get_modifiers_prompt numerals (run numerals (new_state default_constitution) proposals))
    ≡ true
unfolding get_modifiers_prompt modifier_lines to_prompt_fragment instruct run step apply_modifier
    remove_modifier validate_modification get put remove has
text_raises = refl

abbrev low : EmotionState
low = record {
  pleasure = minus 50;
  arousal = pos 40;
  dominance = pos 0;
  mood_pleasure = pos 0;
  mood_arousal = pos 0;
  mood_dominance = pos 0;
  last_update = 0;
  state_locked_until = 0;
}

applied :
    (apply_emotion_modifiers numerals default_bridge 4 low (new_state default_constitution)).0
    ≡ "snark_level" ∷ "proactivity" ∷ []
unfolding apply_emotion_modifiers compute_modifiers snark_modifiers proactivity_modifiers
    verbosity_modifiers proposal apply_all apply_modifier validate_modification get put
applied = refl
