-- ===== src/Ha/Cache/Candidates.antt =====
-- glados/ha/entity_cache.py: `get_candidates`, with the pass over the twins and the fallback where
-- rapidfuzz is not there.
use glados_docker.Common.{
  Bool, Dict, List, Option, String, [], any_of, find_first, get, if◌then◌else◌, is_blank, keep, leb,
  length, ltb, map, mem_text, none, not, or_else, put, some, str_eq, strip, take, ◌++◌, ◌∷◌,
}
use glados_docker.Ha.Cache.{EntityCache, EntityState, all_entities, nonempty}
use glados_docker.Ha.Cache.Scores.{
  CandidateMatch, Matcher, Search, cutoff_for, in_domains, is_segment_entity,
  light_has_dim_capability, read_query, score_entities, searchable_names, sort_rank,
}

-- The first loop of `_dedup_light_switch_twins`.
unfoldable pub group_by_device :
    List CandidateMatch → Dict (List CandidateMatch) → Dict (List CandidateMatch)
group_by_device [] groups = groups
group_by_device (c ∷ cs) groups = elim (nonempty c.device_id) [
  | none ↦ group_by_device cs groups
  | some did ↦ group_by_device cs (put did (or_else (get did groups) [] ++ c ∷ []) groups)
]

abbrev pub in_domain : String → CandidateMatch → Bool
in_domain d c = str_eq c.entity.domain d

abbrev pub entity_ids : List CandidateMatch → List String
entity_ids cs = map (λ c. c.entity.entity_id) cs

abbrev pub losing_side :
    (String → String) → List CandidateMatch → List CandidateMatch → List CandidateMatch
losing_side lower [] switches = []
losing_side lower lights [] = []
losing_side lower lights switches =
    if any_of (λ c. light_has_dim_capability lower c.entity) lights then switches else lights

-- What the second loop drops of one group.
unfoldable pub losers : (String → String) → List CandidateMatch → List String
unfolding light_has_dim_capability
losers lower group =
    if ltb (length group) 2
    then []
    else entity_ids
        (losing_side lower (keep (in_domain "light") group) (keep (in_domain "switch") group))

unfoldable pub drop_entity_ids : (String → String) → Dict (List CandidateMatch) → List String
unfolding losers
drop_entity_ids lower [] = []
drop_entity_ids lower ((did, group) ∷ groups) = losers lower group ++ drop_entity_ids lower groups

unfoldable pub dedup_light_switch_twins :
    (String → String) → List CandidateMatch → List CandidateMatch
unfolding group_by_device drop_entity_ids
dedup_light_switch_twins lower candidates =
    let drops = drop_entity_ids lower (group_by_device candidates []) in
    keep (λ c. not (mem_text c.entity.entity_id drops)) candidates

abbrev pub first_equal : (String → String) → String → List String → Option String
first_equal lower q names = find_first (λ n. str_eq (lower n) q) names

abbrev pub exact_match : EntityState → String → CandidateMatch
exact_match e name = record {
  entity = e;
  matched_name = name;
  score = 10000;
  sensitive = leb 100 (cutoff_for e);
  coverage = 0;
  area_match = none;
  device_id = e.device_id;
}

-- The loop of `_exact_match_fallback`.
unfoldable pub exact_matches : Matcher → Search → String → List EntityState → List CandidateMatch
unfolding cutoff_for is_segment_entity searchable_names
exact_matches m s q [] = []
exact_matches m s q (e ∷ es) =
    let out = exact_matches m s q es in
    if not (in_domains s.domain_filter e)
    then out
    else if is_segment_entity m s e
    then out
    else (elim (first_equal m.lower q (searchable_names e)) [
      | none ↦ out
      | some name ↦ exact_match e name ∷ out
    ])

-- The candidates before the limit; `rapidfuzz` tells whether that library is there.
unfoldable pub all_candidates : Matcher → Bool → Search → String → EntityCache → List CandidateMatch
unfolding read_query score_entities sort_rank dedup_light_switch_twins exact_matches strip
all_candidates m rapidfuzz s query c =
    let scored = score_entities m s (read_query m s query) (all_entities c) in
    let ranked = map (λ p. p.1) (sort_rank scored) in
    if not rapidfuzz
    then exact_matches m s (m.lower (strip query)) (all_entities c)
    else if s.twin_dedup
    then dedup_light_switch_twins m.lower ranked
    else ranked

-- `_exact_match_fallback` and the rest of `get_candidates` end with the limit.
unfoldable pub get_candidates : Matcher → Bool → Search → String → EntityCache → List CandidateMatch
unfolding all_candidates is_blank
get_candidates m rapidfuzz s query c =
    if is_blank query then [] else take s.limit (all_candidates m rapidfuzz s query c)
