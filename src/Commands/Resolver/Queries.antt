-- ===== src/Commands/Resolver/Queries.antt =====
-- glados/core/command_resolver.py: the test for a state query, and `HAStateValidator`.
use Prim.Native.Char.{code}
use glados_docker.Common.{
  Bool, List, Option, String, [], any_of, false, has, if◌then◌else◌, lstrip, none, not, opt_eq,
  some, split_once, str_eq, true, ℕ, ◌&&◌, ◌==◌, ◌||◌, ◌∷◌,
}
use glados_docker.Ha.Cache.{EntityCache, EntityState, all_entities}

abbrev state_query_openers : List String
state_query_openers =
    "what" ∷ "what's" ∷ "whats" ∷ "is" ∷ "are" ∷ "was" ∷ "were" ∷ "who" ∷ "whom" ∷ "whose" ∷ "why"
    ∷ "when" ∷ "where" ∷ []

-- What follows a prefix.
unfoldable pub after_prefix : String → String → Option String
after_prefix String.[] s = some s
after_prefix (String.◌∷◌ p ps) String.[] = none
after_prefix (String.◌∷◌ p ps) (String.◌∷◌ c s) =
    let rest = after_prefix ps s in if code p == code c then rest else none

-- `\b` after a word character.
abbrev at_boundary : (ℕ → Bool) → Option String → Bool
at_boundary is_word none = false
at_boundary is_word (some String.[]) = true
at_boundary is_word (some (String.◌∷◌ c s)) = not (is_word (code c))

-- `_is_state_query`
unfoldable pub is_state_query : (ℕ → Bool) → (String → String) → String → Bool
unfolding after_prefix lstrip
is_state_query is_word lower utterance =
    let s = lower (lstrip utterance) in
    any_of (λ opener. at_boundary is_word (after_prefix opener s)) state_query_openers

-- `s.endswith(suffix)`
unfoldable pub ends_with : String → String → Bool
ends_with String.[] suffix = str_eq String.[] suffix
ends_with (String.◌∷◌ c s) suffix =
    let rest = ends_with s suffix in str_eq (String.◌∷◌ c s) suffix || rest

-- `service.split(".", 1)[0]`
abbrev domain_of : String → String
domain_of service = elim (split_once 46 service) [ none ↦ service | some parts ↦ parts.0 ]

abbrev is_on_there : (String → String) → String → String → EntityState → Bool
is_on_there lower domain area e =
    str_eq e.domain domain && (opt_eq e.area_id (some area) && str_eq (lower e.state) "on")

-- `_any_entity_on`
abbrev pub any_entity_on : (String → String) → String → String → EntityCache → Bool
any_entity_on lower domain area c = any_of (is_on_there lower domain area) (all_entities c)

abbrev hint_exists : EntityCache → Option String → Bool
hint_exists c none = true
hint_exists c (some hint) = if str_eq hint "" then true else has hint c.entities

unfoldable pub validates : (String → String) → EntityCache → String → String → Option String → Bool
unfolding split_once ends_with has
validates lower c service area hint =
    let s = lower service in
    if str_eq service ""
    then true
    else if str_eq s "scene.turn_on"
    then hint_exists c hint
    else if ends_with s ".turn_off"
    then any_entity_on lower (domain_of s) area c
    else true
