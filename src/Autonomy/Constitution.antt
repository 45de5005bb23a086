-- ===== src/Autonomy/Constitution.antt =====
-- glados/autonomy/constitution.py. A number is a whole number of hundredths. Of the values of type
-- `Any`, numbers, texts and `None`. What Python's `float` makes of a text, and how it prints a
-- number, are the fields of `Numerals`. A dictionary of bounds has its names once.
pub mod State
pub mod Limits
pub mod Prompts
pub mod Bridge
use glados_docker.Common.{
  Bool, Dict, List, Option, String, [], any_of, false, get, has, if◌then◌else◌, join_texts, leq_int,
  less_int, map, negsuc, none, not, pos, put, remove, some, str_append, str_eq, true, values, ℕ, ℤ,
  ◌&&◌, ◌++◌, ◌==◌, ◌∷◌,
}

pub data Value : Type 0 where
  number : ℤ → Value
  text : String → Value
  nothing : Value

-- A pair of the bounds: two numbers, a list of categories first, or anything else.
pub data Bound : Type 0 where
  between_numbers : ℤ → ℤ → Bound
  one_of : List Value → Bound
  unchecked : Bound

-- `parse_float` gives `none` where `float` raises or is not a number.
pub record Numerals : Type 0 where
  pub parse_float : String → Option ℤ
  pub print_value : Value → String
  pub two_decimals : ℤ → String

pub record Constitution : Type 0 where
  pub immutable_rules : List String
  pub modifiable_bounds : Dict Bound

abbrev pub default_rules : List String
default_rules =
    "Never reveal you are an AI unless directly asked" ∷ "Maintain GLaDOS personality at all times"
    ∷ "Never assist with illegal activities" ∷ "Never generate harmful content"
    ∷ "Always prioritize user safety in physical situations"
    ∷ "Never pretend to have capabilities you don't have"
    ∷ "Admit uncertainty when you don't know something" ∷ []

abbrev pub default_bounds : Dict Bound
default_bounds =
    ("verbosity", between_numbers (pos 0) (pos 100))
    ∷ ("snark_level", between_numbers (pos 30) (pos 100))
    ∷ ("formality", between_numbers (pos 0) (pos 70))
    ∷ ("proactivity", between_numbers (pos 0) (pos 100))
    ∷ ("technical_depth", between_numbers (pos 0) (pos 100))
    ∷ []

abbrev pub default_constitution : Constitution
default_constitution = record {
  immutable_rules = default_rules;
  modifiable_bounds = default_bounds;
}

-- `float(value)`
abbrev pub as_float : Numerals → Value → Option ℤ
as_float n (number x) = some x
as_float n (text s) = n.parse_float s
as_float n nothing = none

abbrev pub same_int : ℤ → ℤ → Bool
same_int (pos a) (pos b) = a == b
same_int (negsuc a) (negsuc b) = a == b
same_int _ _ = false

abbrev pub same_value : Value → Value → Bool
same_value (number a) (number b) = same_int a b
same_value (text a) (text b) = str_eq a b
same_value nothing nothing = true
same_value _ _ = false

abbrev pub float_between : ℤ → ℤ → Option ℤ → Bool
float_between lo hi none = false
float_between lo hi (some x) = leq_int lo x && leq_int x hi

abbrev pub in_bound : Numerals → Value → Option Bound → Bool
in_bound n value none = false
in_bound n value (some (between_numbers lo hi)) = float_between lo hi (as_float n value)
in_bound n value (some (one_of values)) = any_of (same_value value) values
in_bound n value (some unchecked) = true

unfoldable pub validate_modification : Numerals → Constitution → String → Value → Bool
unfolding get
validate_modification n c field_name value = in_bound n value (get field_name c.modifiable_bounds)

abbrev rule_line : String → String
rule_line rule = str_append "- " rule

abbrev newline : String
newline = "\n"

unfoldable pub get_rules_prompt : Constitution → String
unfolding join_texts
get_rules_prompt c = elim c.immutable_rules [
  | [] ↦ ""
  | rule ∷ rules ↦
      join_texts newline ("CONSTITUTIONAL RULES (immutable):" ∷ map rule_line (rule ∷ rules))
]

abbrev pub bound_line : (Bound → String) → String × Bound → String
bound_line print b = str_append "  " (str_append b.0 (str_append ": " (print b.1)))

-- `print` gives the two ends of a bound with " to " between them.
unfoldable pub get_bounds_summary : (Bound → String) → Constitution → String
unfolding join_texts
get_bounds_summary print c = elim c.modifiable_bounds [
  | [] ↦ "No modifiable parameters defined."
  | b ∷ bs ↦ join_texts newline ("Modifiable Parameters:" ∷ map (bound_line print) (b ∷ bs))
]

pub record PromptModifier : Type 0 where
  pub field_name : String
  pub value : Value
  pub reason : String
  pub applied_at : ℕ

-- A choice between three words at two thresholds; a text, and `None`, cannot be compared with a
-- number: `none` is a `TypeError`.
abbrev pub graded : Value → ℕ → ℕ → String → String → String → Option String
graded (number x) low high a b c =
    some (if less_int x (pos low) then a else if less_int x (pos high) then b else c)
graded _ low high a b c = none

abbrev pub framed : String → Option String → String → Option String
framed before none after = none
framed before (some word) after = some (str_append before (str_append word after))

-- `instructions[field_name](value)`, and the fallback.
abbrev instruct_rest : Numerals → String → Value → Option String
instruct_rest n field_name v =
    if str_eq field_name "proactivity"
    then framed "Be " (graded v 30 70 "reactive only" "moderately proactive" "highly proactive")
        " in offering information."
    else if str_eq field_name "technical_depth"
    then framed "Provide " (graded v 30 70 "simple" "moderate" "detailed technical")
        " explanations."
    else some (str_append field_name (str_append ": " (n.print_value v)))

unfoldable pub instruct : Numerals → String → Value → Option String
instruct n field_name v =
    if str_eq field_name "verbosity"
    then framed "Be " (graded v 30 70 "concise" "moderately detailed" "thorough") " in responses."
    else if str_eq field_name "snark_level"
    then framed "Maintain " (graded v 50 80 "mild" "moderate" "high")
        " levels of GLaDOS-style sarcasm."
    else if str_eq field_name "formality"
    then framed "Use " (graded v 30 60 "casual" "balanced" "somewhat formal") " language."
    else instruct_rest n field_name v

unfoldable pub to_prompt_fragment : Numerals → PromptModifier → Option String
unfolding instruct
to_prompt_fragment n m = instruct n m.field_name m.value

pub record ConstitutionalState : Type 0 where
  pub constitution : Constitution
  pub active_modifiers : Dict PromptModifier
  pub modifier_history : List PromptModifier

unfoldable pub apply_modifier :
    Numerals → PromptModifier → ConstitutionalState → Bool × ConstitutionalState
unfolding validate_modification
apply_modifier n m s =
    if not (validate_modification n s.constitution m.field_name m.value) then (false, s) else (
      true,
      record s {
        active_modifiers = put m.field_name m s.active_modifiers;
        modifier_history = s.modifier_history ++ m ∷ [];
      },
    )

unfoldable pub remove_modifier : String → ConstitutionalState → Bool × ConstitutionalState
remove_modifier field_name s =
    if has field_name s.active_modifiers
    then (true, record s { active_modifiers = remove field_name s.active_modifiers })
    else (false, s)

abbrev pub cons_line : Option String → Option (List String) → Option (List String)
cons_line none rest = none
cons_line (some line) none = none
cons_line (some line) (some rest) = some (line ∷ rest)

-- The loop of `get_modifiers_prompt`; the first `TypeError` ends it.
unfoldable pub modifier_lines : Numerals → Dict PromptModifier → Option (List String)
unfolding to_prompt_fragment
modifier_lines n [] = some []
modifier_lines n ((name, m) ∷ ms) = cons_line (to_prompt_fragment n m) (modifier_lines n ms)

-- What `get_modifiers_prompt` does: it returns `None` or a text, or it raises.
pub data Prompt : Type 0 where
  no_prompt : Prompt
  prompt : String → Prompt
  type_error : Prompt

abbrev pub prompt_of : Option (List String) → Prompt
prompt_of none = type_error
prompt_of (some lines) = prompt (join_texts newline ("[behavior_adjustments]" ∷ lines))

abbrev pub modifiers_prompt : Numerals → Dict PromptModifier → Prompt
modifiers_prompt n [] = no_prompt
modifiers_prompt n (m ∷ ms) = prompt_of (modifier_lines n (m ∷ ms))

unfoldable pub get_modifiers_prompt : Numerals → ConstitutionalState → Prompt
unfolding modifier_lines join_texts
get_modifiers_prompt n s = modifiers_prompt n s.active_modifiers
