-- ===== src/Ha/Cache/Words.antt =====
-- glados/ha/entity_cache.py: the words of queries and of names, and the pairs of opposing words.
-- The case mapping is an argument. A set of words is a list.
use glados_docker.Common.{
  Bool, List, Option, String, [], any_of, codes, if◌then◌else◌, join_texts, keep, length, map,
  mem_text, none, not, some, split_from, split_words, str_eq, strip, strip_chars, ℕ, ◌&&◌, ◌++◌,
  ◌||◌, ◌∷◌,
}

abbrev query_stopwords : List String
query_stopwords =
    "activate" ∷ "deactivate" ∷ "trigger" ∷ "run" ∷ "start" ∷ "stop" ∷ "turn" ∷ "switch" ∷ "set"
    ∷ "make" ∷ "please" ∷ "adjust" ∷ "change" ∷ "increase" ∷ "decrease" ∷ "raise" ∷ "reduce" ∷ "can"
    ∷ "you" ∷ "could" ∷ "would" ∷ "the" ∷ "a" ∷ "an" ∷ "my" ∷ "some" ∷ "on" ∷ "off" ∷ "to" ∷ "for"
    ∷ "in" ∷ "of" ∷ "by" ∷ "at" ∷ "up" ∷ "down" ∷ "higher" ∷ "lower" ∷ "brighter" ∷ "dimmer"
    ∷ "warmer" ∷ "cooler" ∷ "louder" ∷ "quieter" ∷ "faster" ∷ "slower" ∷ "more" ∷ "less" ∷ "bit"
    ∷ "little" ∷ "much" ∷ "half" ∷ "halfway" ∷ "fully" ∷ "maximum" ∷ "minimum" ∷ "max" ∷ "min" ∷ []

abbrev pub default_opposing_tokens : List (String × String)
default_opposing_tokens =
    ("upstairs", "downstairs")
    ∷ ("lower", "upper")
    ∷ ("front", "back")
    ∷ ("inside", "outside")
    ∷ ("indoor", "outdoor")
    ∷ ("master", "guest")
    ∷ ("left", "right")
    ∷ ("top", "bottom")
    ∷ ("primary", "secondary")
    ∷ ("north", "south")
    ∷ ("east", "west")
    ∷ []

-- `".,!?;:'\""`
abbrev punctuation : List ℕ
punctuation = codes ".,!?;:'\""

-- `".,!?;:'\"-_()/"`
abbrev name_punctuation : List ℕ
name_punctuation = codes ".,!?;:'\"-_()/"

abbrev pub nonempty_words : List String → List String
nonempty_words ws = keep (λ w. not (str_eq w "")) ws

module _ (lower : String → String) where
  abbrev lowered_or_whole : String → List String → String
  lowered_or_whole query [] = lower (strip query)
  lowered_or_whole query (w ∷ ws) = lower (join_texts " " (w ∷ ws))

  -- `_preprocess_query`
  unfoldable pub preprocess_query : String → String
  unfolding split_from strip_chars strip join_texts
  preprocess_query query =
      let words = nonempty_words (map (strip_chars punctuation) (split_words query)) in
      let kept = keep (λ w. not (mem_text (lower w) query_stopwords)) words in
      if str_eq query "" then query else lowered_or_whole query kept

  abbrev stripped_words : String → List String
  stripped_words s = map (strip_chars name_punctuation) (split_words (lower s))

  -- `_name_words`
  unfoldable pub name_words : List String → List String
  unfolding split_from strip_chars
  name_words [] = []
  name_words (name ∷ names) = stripped_words name ++ name_words names

  -- `_utterance_words`
  unfoldable pub utterance_words : String → List String
  unfolding split_from strip_chars
  utterance_words query = if str_eq query "" then [] else nonempty_words (stripped_words query)

  abbrev valid_pair : String → String → List (String × String) → List (String × String)
  valid_pair a b out =
      if not (str_eq a "") && not (str_eq b "") && not (str_eq a b) then (a, b) ∷ out else out

  -- The loop of `_normalise_opposing_pairs`; a pair is a list of texts.
  unfoldable pub normalise_pairs : List (List String) → List (String × String)
  unfolding strip
  normalise_pairs [] = []
  normalise_pairs ([] ∷ pairs) = normalise_pairs pairs
  normalise_pairs ((s ∷ []) ∷ pairs) = normalise_pairs pairs
  normalise_pairs ((s ∷ t ∷ rest) ∷ pairs) =
      let out = normalise_pairs pairs in valid_pair (lower (strip s)) (lower (strip t)) out

  -- `_normalise_opposing_pairs`
  unfoldable pub normalise_opposing_pairs : Option (List (List String)) → List (String × String)
  unfolding normalise_pairs
  normalise_opposing_pairs none = default_opposing_tokens
  normalise_opposing_pairs (some pairs) = normalise_pairs pairs

-- The hits of `_coverage_ratio`; the ratio is their number over that of the tokens.
unfoldable pub coverage_hits : List String → List String → ℕ
coverage_hits tokens words = length (keep (λ t. mem_text t words) tokens)

-- `_opposing_token_hit`. A set that is empty hits nothing.
unfoldable pub opposing_token_hit : List String → List String → List (String × String) → Bool
opposing_token_hit utterance words pairs =
    any_of
      (λ p.
        (mem_text p.0 utterance && mem_text p.1 words)
        || (mem_text p.1 utterance && mem_text p.0 words))
      pairs
