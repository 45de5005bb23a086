-- ===== src/Ha/Cache/Scores.antt =====
-- glados/ha/entity_cache.py: the candidates of `get_candidates` with their ranks. The fuzzy matcher (rapidfuzz's
-- `extractOne` with `WRatio`), the case mapping and the search for a segment's number (a regular
-- expression over the tokens) are the fields of `Matcher`. A score is a number of hundredths. A
-- rank is the code's rank in hundredths, times the number of the query's tokens, which is the same
-- for all candidates of a call: the order of the ranks is that of the code's rational numbers.
use Prim.Native.Char.{code}
use glados_docker.Common.{
  Bool, Dict, List, Option, String, [], any_of, false, get, if◌then◌else◌, leb, length, ltb, max,
  mem_text, none, not, opt_eq, or_else, some, split_from, split_once, split_words, str_append,
  str_eq, true, ℕ, ◌&&◌, ◌*◌, ◌+◌, ◌-◌, ◌==◌, ◌||◌, ◌∷◌,
}
use glados_docker.Ha.Cache.{EntityState, dot}
use glados_docker.Ha.Cache.Words.{
  coverage_hits, name_words, nonempty_words, normalise_opposing_pairs, opposing_token_hit,
  preprocess_query, utterance_words,
}

pub record Matcher : Type 0 where
  pub lower : String → String
  pub extract_one : String → List String → Option (String × ℕ)
  pub segment_search : List String → String → Bool
  pub default_segment_tokens : List String

-- `matched_name`, `score`, `sensitive`, the hits of `coverage`, `area_match`.
pub record CandidateMatch : Type 0 where
  pub entity : EntityState
  pub matched_name : String
  pub score : ℕ
  pub sensitive : Bool
  pub coverage : ℕ
  pub area_match : Option Bool
  pub device_id : Option String

-- The arguments of `get_candidates` after the query.
pub record Search : Type 0 where
  pub domain_filter : List String
  pub limit : ℕ
  pub source_area : Option String
  pub opposing_token_pairs : Option (List (List String))
  pub twin_dedup : Bool
  pub ignore_segments : Bool
  pub segment_tokens : List String

abbrev pub domain_cutoffs : Dict ℕ
domain_cutoffs =
    ("light", 75)
    ∷ ("switch", 75)
    ∷ ("fan", 75)
    ∷ ("scene", 60)
    ∷ ("script", 60)
    ∷ ("media_player", 75)
    ∷ ("climate", 80)
    ∷ ("input_boolean", 80)
    ∷ ("input_number", 80)
    ∷ ("input_select", 80)
    ∷ ("input_text", 80)
    ∷ ("vacuum", 80)
    ∷ ("cover", 80)
    ∷ ("sensor", 75)
    ∷ ("binary_sensor", 75)
    ∷ []

abbrev pub sensitive_domains : List String
sensitive_domains = "lock" ∷ "alarm_control_panel" ∷ "camera" ∷ []

abbrev pub default_cutoff : ℕ
default_cutoff = 75

-- `_cutoff_for`
unfoldable pub cutoff_for : EntityState → ℕ
unfolding get
cutoff_for e =
    if mem_text e.domain sensitive_domains
    then 100
    else if opt_eq e.device_class (some "garage")
    then 100
    else or_else (get e.domain domain_cutoffs) default_cutoff

-- `_light_has_dim_capability`
unfoldable pub light_has_dim_capability : (String → String) → EntityState → Bool
light_has_dim_capability lower e =
    str_eq e.domain "light"
    && any_of (λ m. not (str_eq (lower m) "onoff")) e.attributes.supported_color_modes

-- The part of an entity's id after its first dot.
abbrev pub local_id : String → String
local_id eid = elim (split_once dot eid) [ none ↦ eid | some parts ↦ parts.1 ]

abbrev underscore_to_space : String → String
underscore_to_space String.[] = String.[]
underscore_to_space (String.◌∷◌ c s) =
    if code c == 95
    then str_append " " (underscore_to_space s)
    else String.◌∷◌ c (underscore_to_space s)

abbrev names_or_label : String → List String → List String
names_or_label eid [] = nonempty_words (underscore_to_space (local_id eid) ∷ [])
names_or_label eid (n ∷ names) = n ∷ names

unfoldable pub searchable_names : EntityState → List String
unfolding split_once
searchable_names e = names_or_label e.entity_id (nonempty_words (e.friendly_name ∷ e.aliases))

abbrev or_default : List String → List String → List String
or_default [] tokens = tokens
or_default (t ∷ ts) tokens = t ∷ ts

-- `_is_segment_entity`
unfoldable pub is_segment_entity : Matcher → Search → EntityState → Bool
unfolding split_once
is_segment_entity m s e =
    let tokens = or_default s.segment_tokens m.default_segment_tokens in
    if s.ignore_segments
    then m.segment_search tokens e.friendly_name || m.segment_search tokens (local_id e.entity_id)
    else false

abbrev pub in_domains : List String → EntityState → Bool
in_domains [] e = true
in_domains (d ∷ ds) e = mem_text e.domain (d ∷ ds)

abbrev coverage_bonus : ℕ
coverage_bonus = 1500

abbrev area_bonus : ℕ
area_bonus = 1000

abbrev opposing_token_penalty : ℕ
opposing_token_penalty = 5000

-- What `get_candidates` computes of the query before its loop.
pub record Query : Type 0 where
  pub q : String
  pub tokens : List String
  pub utterance : List String
  pub opposing : List (String × String)

unfoldable pub read_query : Matcher → Search → String → Query
unfolding preprocess_query utterance_words normalise_opposing_pairs split_from
read_query m s query =
    let q = preprocess_query m.lower query in
    record {
      q = q;
      tokens = split_words q;
      utterance = utterance_words m.lower query;
      opposing = normalise_opposing_pairs m.lower s.opposing_token_pairs;
    }

abbrev area_matches : Option String → EntityState → Option Bool
area_matches none e = none
area_matches (some area) e = some (opt_eq e.area_id (some area))

-- `rank_score`
unfoldable pub rank_score : Query → List String → Option Bool → ℕ → ℕ
unfolding coverage_hits opposing_token_hit
rank_score query words area_match score =
    let n = max 1 (length query.tokens) in
    let bonus = if or_else area_match false then area_bonus else 0 in
    let penalty =
      if opposing_token_hit query.utterance words query.opposing
      then opposing_token_penalty
      else 0 in
    (n * (score + bonus) + coverage_bonus * coverage_hits query.tokens words) - n * penalty

-- The candidate of an entity whose best name has passed the cutoff.
unfoldable pub ranked_match :
    Matcher → Search → Query → EntityState → String → ℕ → ℕ × CandidateMatch
unfolding name_words coverage_hits rank_score cutoff_for searchable_names
ranked_match m s query e name score =
    let words = name_words m.lower (searchable_names e) in
    let area_match = area_matches s.source_area e in
    (
      rank_score query words area_match score,
      record {
        entity = e;
        matched_name = name;
        score = score;
        sensitive = leb 100 (cutoff_for e);
        coverage = coverage_hits query.tokens words;
        area_match = area_match;
        device_id = e.device_id;
      },
    )

abbrev pub past_cutoff :
    Matcher → Search → Query → EntityState → Option (String × ℕ) → Option (ℕ × CandidateMatch)
past_cutoff m s query e none = none
past_cutoff m s query e (some (name, score)) =
    if ltb score (100 * cutoff_for e) then none else some (ranked_match m s query e name score)

abbrev pub best_match : Matcher → String → List String → Option (String × ℕ)
best_match m q [] = none
best_match m q (n ∷ names) = m.extract_one q (n ∷ names)

-- The body of the loop.
unfoldable pub score_entity : Matcher → Search → Query → EntityState → Option (ℕ × CandidateMatch)
unfolding is_segment_entity searchable_names cutoff_for ranked_match
score_entity m s query e =
    if not (in_domains s.domain_filter e)
    then none
    else if is_segment_entity m s e
    then none
    else past_cutoff m s query e (best_match m query.q (searchable_names e))

unfoldable pub score_entities :
    Matcher → Search → Query → List EntityState → List (ℕ × CandidateMatch)
unfolding score_entity
score_entities m s query [] = []
score_entities m s query (e ∷ es) =
    let scored = score_entities m s query es in
    elim (score_entity m s query e) [ none ↦ scored | some c ↦ c ∷ scored ]

-- `sort(key=rank, reverse=True)`, which keeps the order of equal ranks.
unfoldable pub insert_rank :
    ℕ × CandidateMatch → List (ℕ × CandidateMatch) → List (ℕ × CandidateMatch)
insert_rank c [] = c ∷ []
insert_rank c (d ∷ ds) = if leb d.0 c.0 then c ∷ d ∷ ds else d ∷ insert_rank c ds

unfoldable pub sort_rank : List (ℕ × CandidateMatch) → List (ℕ × CandidateMatch)
unfolding insert_rank
sort_rank [] = []
sort_rank (c ∷ cs) = insert_rank c (sort_rank cs)
