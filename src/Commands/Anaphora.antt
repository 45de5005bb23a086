-- ===== src/Commands/Anaphora.antt =====
-- glados/intent/anaphora.py. The case mapping is an argument. A set of tokens is a list.
use Prim.Native.Char.{code}
use glados_docker.Common.{
  Bool, List, String, [], all_of, any_of, false, if◌then◌else◌, last?, leb, length, mem_text, none,
  some, str_append, str_eq, ℕ, ◌&&◌, ◌==◌, ◌||◌, ◌∷◌,
}

abbrev pronoun_deictics : List String
pronoun_deictics =
    "it" ∷ "its" ∷ "that" ∷ "those" ∷ "these" ∷ "this" ∷ "them" ∷ "they" ∷ "their" ∷ "one" ∷ "ones"
    ∷ []

abbrev repetition_markers : List String
repetition_markers =
    "again" ∷ "more" ∷ "same" ∷ "additionally" ∷ "keep" ∷ "continue" ∷ "resume" ∷ []

abbrev additive_markers : List String
additive_markers = "also" ∷ "too" ∷ "as-well" ∷ []

abbrev intensity_adverbs : List String
intensity_adverbs =
    "brighter" ∷ "dimmer" ∷ "lighter" ∷ "darker" ∷ "louder" ∷ "softer" ∷ "quieter" ∷ "warmer"
    ∷ "cooler" ∷ "hotter" ∷ "colder" ∷ "higher" ∷ "lower" ∷ "faster" ∷ "slower" ∷ "up" ∷ "down"
    ∷ "on" ∷ "off" ∷ "more" ∷ "less" ∷ []

abbrev filler : List String
filler =
    "a" ∷ "an" ∷ "the" ∷ "and" ∷ "or" ∷ "but" ∷ "please" ∷ "just" ∷ "now" ∷ "bit" ∷ "little" ∷ "to"
    ∷ "by" ∷ "of" ∷ "in" ∷ "at" ∷ "make" ∷ "set" ∷ "put" ∷ "turn" ∷ "switch" ∷ "do" ∷ "go" ∷ "give"
    ∷ "keep" ∷ "let" ∷ "i" ∷ "me" ∷ "my" ∷ "we" ∷ "us" ∷ "be" ∷ "is" ∷ "are" ∷ "was" ∷ "if" ∷ "then"
    ∷ "so" ∷ "very" ∷ "really" ∷ "quite" ∷ "even" ∷ []

abbrev question_leads : List String
question_leads = "what" ∷ "when" ∷ "where" ∷ "which" ∷ "who" ∷ "whom" ∷ "whose" ∷ "why" ∷ "how" ∷ []

-- `[a-z']`
abbrev is_token_char : ℕ → Bool
is_token_char c = (leb 97 c && leb c 122) || c == 39

abbrev add_token : String → List String → List String
add_token String.[] ts = ts
add_token t ts = t ∷ ts

-- `_WORD_RE.findall`, for a text that goes on after the characters of a begun token.
unfoldable pub find_tokens : String → String → List String
find_tokens t String.[] = add_token t []
find_tokens t (String.◌∷◌ c s) =
    let after = find_tokens "" s in
    let inside = find_tokens (str_append t (String.◌∷◌ c String.[])) s in
    if is_token_char (code c) then inside else add_token t after

abbrev pub among : List String → List String → Bool
among words tokens = any_of (λ t. mem_text t words) tokens

abbrev first_in : List String → List String → Bool
first_in words [] = false
first_in words (t ∷ ts) = mem_text t words

abbrev ends_as_well : List String → Bool
ends_as_well [] = false
ends_as_well (t ∷ []) = false
ends_as_well (s ∷ t ∷ []) = str_eq s "as" && str_eq t "well"
ends_as_well (r ∷ s ∷ t ∷ ts) = ends_as_well (s ∷ t ∷ ts)

abbrev last_in : List String → List String → Bool
last_in words tokens = elim (last? tokens) [ none ↦ false | some t ↦ mem_text t words ]

-- Rule 3: an intensity adverb, and no word of content.
abbrev bare_intensity : List String → Bool
bare_intensity tokens =
    among intensity_adverbs tokens
    && all_of
        (λ t. mem_text t intensity_adverbs || (mem_text t filler || mem_text t pronoun_deictics))
        tokens

-- Rule 4.
abbrev short_additive : List String → Bool
short_additive tokens =
    leb (length tokens) 6
    && (first_in additive_markers tokens
        || (last_in additive_markers tokens || ends_as_well tokens))

-- `is_anaphoric_followup` on its tokens.
unfoldable pub followup_tokens : List String → Bool
followup_tokens [] = false
followup_tokens (t ∷ ts) =
    if mem_text t question_leads
    then false
    else among pronoun_deictics (t ∷ ts)
      || (among repetition_markers (t ∷ ts) || (bare_intensity (t ∷ ts) || short_additive (t ∷ ts)))

unfoldable pub is_anaphoric_followup : (String → String) → String → Bool
unfolding find_tokens followup_tokens
is_anaphoric_followup lower utterance = followup_tokens (find_tokens "" (lower utterance))
