-- ===== src/Autonomy/Constitution/Prompts.antt =====
-- When the prompt of the modifiers cannot be made.
use glados_docker.Common.{
  Bool, Bool-cases, Dict, List, Option, String, [], all_of, any_of, ap, arith, eq_iff, false, get,
  has, inl, inr, is_some, none, not, refl, some, str_eq, subst, true, ◌&&◌, ◌∙◌, ◌∷◌, ◌≡◌,
}
use glados_docker.Autonomy.Constitution.{
  Bound, ConstitutionalState, Numerals, Prompt, PromptModifier, Value, cons_line, default_bounds,
  default_constitution, get_modifiers_prompt, in_bound, instruct, modifier_lines, modifiers_prompt,
  no_prompt, nothing, number, prompt, prompt_of, text, to_prompt_fragment, type_error,
  validate_modification,
}
use glados_docker.Autonomy.Constitution.State.{Op, entry_valid, modifiers-IsValid, new_state, run}

abbrev pub is_number : Value → Bool
is_number (number x) = true
is_number _ = false

abbrev pub raises_type_error : Prompt → Bool
raises_type_error no_prompt = false
raises_type_error (prompt s) = false
raises_type_error type_error = true

abbrev default_field : String → Bool
default_field f = has f default_bounds

-- The instruction of a field works on numbers only.
abbrev Compares : Numerals → String → Type 0
Compares n f = (v : Value) → is_some (instruct n f v) ≡ is_number v

verbosity-Compares : (n : Numerals) → Compares n "verbosity"
unfolding instruct
verbosity-Compares n (number x) = refl
verbosity-Compares n (text s) = refl
verbosity-Compares n nothing = refl

snark_level-Compares : (n : Numerals) → Compares n "snark_level"
unfolding instruct
snark_level-Compares n (number x) = refl
snark_level-Compares n (text s) = refl
snark_level-Compares n nothing = refl

formality-Compares : (n : Numerals) → Compares n "formality"
unfolding instruct
formality-Compares n (number x) = refl
formality-Compares n (text s) = refl
formality-Compares n nothing = refl

proactivity-Compares : (n : Numerals) → Compares n "proactivity"
unfolding instruct
proactivity-Compares n (number x) = refl
proactivity-Compares n (text s) = refl
proactivity-Compares n nothing = refl

technical_depth-Compares : (n : Numerals) → Compares n "technical_depth"
unfolding instruct
technical_depth-Compares n (number x) = refl
technical_depth-Compares n (text s) = refl
technical_depth-Compares n nothing = refl

in_first :
    (n : Numerals) (k f : String) (b : Bound) (d : Dict Bound)
    → Compares n k
    → (has f d ≡ true → Compares n f)
    → has f ((k, b) ∷ d) ≡ true
    → Compares n f
unfolding has get
in_first n k f b d c rest h = elim (Bool-cases (str_eq k f)) [
  | inl same ↦ subst (Compares n) ((eq_iff k f).0 same) c
  | inr other ↦ rest (rw other at h)
]

absent : (f : String) → has {V = Bound} f [] ≡ true → ⊥
unfolding has get
absent f h = cc

-- Each field of the default bounds has an instruction that compares the value.
default-Compares : (n : Numerals) (f : String) → default_field f ≡ true → Compares n f
default-Compares n f = in_first n "verbosity" f _ _ (verbosity-Compares n) (
    in_first n "snark_level" f _ _ (snark_level-Compares n) (
      in_first n "formality" f _ _ (formality-Compares n) (
        in_first n "proactivity" f _ _ (proactivity-Compares n) (
          in_first n "technical_depth" f _ _ (technical_depth-Compares n)
            (λ h. absurd (absent f h))))))

abbrev pub takes_number : String × PromptModifier → Bool
takes_number e = is_number e.1.value

-- Each entry names a field of the default bounds.
abbrev named_default : String × PromptModifier → Bool
named_default e = default_field e.1.field_name

all_some :
    (o : Option String) (rest : Option (List String))
    → is_some (cons_line o rest) ≡ (is_some o && is_some rest)
all_some none rest = refl
all_some (some a) none = refl
all_some (some a) (some b) = refl

lines-numbers :
    (n : Numerals) (ms : Dict PromptModifier)
    → all_of named_default ms ≡ true
    → is_some (modifier_lines n ms) ≡ all_of takes_number ms
unfolding modifier_lines to_prompt_fragment
lines-numbers n [] h = refl
lines-numbers n ((name, m) ∷ ms) h =
    all_some (to_prompt_fragment n m) (modifier_lines n ms)
    ∙ ground (arith, lines-numbers n ms, default-Compares n m.field_name (ground arith) m.value)

raises-prompt_of : (o : Option (List String)) → raises_type_error (prompt_of o) ≡ not (is_some o)
raises-prompt_of none = refl
raises-prompt_of (some lines) = refl

valid-default :
    (n : Numerals) (f : String) (v : Value) (b : Option Bound)
    → in_bound n v b ≡ true
    → is_some b ≡ true
valid-default n f v none h = h
valid-default n f v (some b) h = refl

valid-named :
    (n : Numerals) (ms : Dict PromptModifier)
    → all_of (entry_valid n default_constitution) ms ≡ true
    → all_of named_default ms ≡ true
unfolding validate_modification has
valid-named n [] h = refl
valid-named n ((name, m) ∷ ms) h = ground (
  arith,
  valid-named n ms,
  valid-default n m.field_name m.value (get m.field_name default_bounds),
)

not_all :
    (p : String × PromptModifier → Bool) (ms : Dict PromptModifier)
    → not (all_of p ms) ≡ any_of (λ e. not (p e)) ms
not_all p [] = refl
not_all p (m ∷ ms) = ground (arith, not_all p ms)

prompt_lem :
    (n : Numerals) (ms : Dict PromptModifier)
    → all_of named_default ms ≡ true
    → raises_type_error (modifiers_prompt n ms) ≡ not (all_of takes_number ms)
prompt_lem n [] h = refl
prompt_lem n (m ∷ ms) h =
    raises-prompt_of (modifier_lines n (m ∷ ms)) ∙ ap not (lines-numbers n (m ∷ ms) h)

prompt-numbers :
    (n : Numerals) (s : ConstitutionalState)
    → all_of named_default s.active_modifiers ≡ true
    → raises_type_error (get_modifiers_prompt n s) ≡ not (all_of takes_number s.active_modifiers)
unfolding get_modifiers_prompt
prompt-numbers n s h = prompt_lem n s.active_modifiers h

-- Whatever is proposed to the default constitution and removed: `get_modifiers_prompt` raises
-- exactly if some active modifier has a value that is no number, such as the text of a number,
-- which passes the validation.
pub prompt_raises :
    (n : Numerals) (ops : List Op)
    → raises_type_error (get_modifiers_prompt n (run n (new_state default_constitution) ops))
      ≡ any_of
          (λ e. not (takes_number e))
          (run n (new_state default_constitution) ops).active_modifiers
prompt_raises n ops =
    let s = run n (new_state default_constitution) ops in
    prompt-numbers n s
      (valid-named n s.active_modifiers (modifiers-IsValid n default_constitution ops).active)
    ∙ not_all takes_number s.active_modifiers
