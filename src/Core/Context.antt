-- ===== src/Core/Context.antt =====
-- glados/core/context.py: `ContextBuilder`. A source is named by a text; what a call of it does is
-- an argument of the operations that call it. A priority is not negative.
pub mod Order
use glados_docker.Common.{
  Bool, List, Option, String, [], if◌then◌else◌, join_texts, keep, leb, length, ltb, map, none, not,
  some, str_eq, ℕ, ◌++◌, ◌∷◌,
}

pub record ContextEntry : Type 0 where
  pub name : String
  pub source : String
  pub priority : ℕ

-- What a call of a source does: it returns a text (an empty one is no content) or `None`, or it
-- raises.
pub data Content : Type 0 where
  gives : String → Content
  gives_none : Content
  raises : Content

abbrev pub has_name : String → ContextEntry → Bool
has_name name e = str_eq e.name name

-- One step of a stable sort with the highest priority first.
unfoldable pub insert_priority : ContextEntry → List ContextEntry → List ContextEntry
insert_priority e [] = e ∷ []
insert_priority e (f ∷ es) =
    if leb f.priority e.priority then e ∷ f ∷ es else f ∷ insert_priority e es

-- `sort(key=priority, reverse=True)`, which keeps the order of equal priorities.
unfoldable pub sort_priority : List ContextEntry → List ContextEntry
unfolding insert_priority
sort_priority [] = []
sort_priority (e ∷ es) = insert_priority e (sort_priority es)

unfoldable pub register : String → String → ℕ → List ContextEntry → List ContextEntry
unfolding sort_priority
register name source priority sources =
    let others = keep (λ e. not (has_name name e)) sources in
    sort_priority (others ++ record { name = name; source = source; priority = priority } ∷ [])

unfoldable pub unregister : String → List ContextEntry → Bool × List ContextEntry
unregister name sources =
    let others = keep (λ e. not (has_name name e)) sources in
    (ltb (length others) (length sources), others)

-- The text of a source, if it has one.
abbrev pub content_of : Content → Option String
content_of (gives s) = if str_eq s "" then none else some s
content_of gives_none = none
content_of raises = none

-- The content of the messages, whose role is always "system".
unfoldable pub build_system_messages : (String → Content) → List ContextEntry → List String
build_system_messages call [] = []
build_system_messages call (e ∷ sources) =
    let rest = build_system_messages call sources in
    elim (content_of (call e.source)) [ none ↦ rest | some s ↦ s ∷ rest ]

-- The loop of `build_combined_prompt`.
unfoldable pub collect_parts : (String → Content) → List ContextEntry → List String → List String
collect_parts call [] parts = parts
collect_parts call (e ∷ sources) parts = elim (content_of (call e.source)) [
  | none ↦ collect_parts call sources parts
  | some s ↦ collect_parts call sources (parts ++ s ∷ [])
]

abbrev pub join_parts : String → List String → Option String
join_parts separator [] = none
join_parts separator (s ∷ parts) = some (join_texts separator (s ∷ parts))

unfoldable pub build_combined_prompt :
    (String → Content) → String → List ContextEntry → Option String
unfolding collect_parts join_texts
build_combined_prompt call separator sources = join_parts separator (collect_parts call sources [])

abbrev pub list_sources : List ContextEntry → List String
list_sources sources = map (λ e. e.name) sources
