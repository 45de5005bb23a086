-- ===== src/Ha/CacheTests.antt =====
-- The entity cache and its candidates at concrete inputs.
use glados_docker.Common.{
  List, String, [], all_of, false, get, has, is_blank, is_space, join_texts, length, lstrip_chars,
  map, none, put, refl, remove, rstrip_chars, some, split_from, split_once, strip, strip_chars,
  true, ◌∷◌, ◌≡◌, ◌≤◌,
}
use glados_docker.Ha.Cache.{
  Attributes, EntityState, RegistryEntry, StateObj, all_entities, annotate, apply_entity_registry,
  apply_get_states, apply_state_changed, carry_devices, carry_over, empty_cache,
  extract_entity_state, rebuild_entities,
}
use glados_docker.Ha.Cache.Scores.{
  CandidateMatch, Matcher, Search, cutoff_for, insert_rank, is_segment_entity,
  light_has_dim_capability, rank_score, ranked_match, read_query, score_entities, score_entity,
  searchable_names, sort_rank,
}
use glados_docker.Ha.Cache.Candidates.{
  all_candidates, dedup_light_switch_twins, drop_entity_ids, entity_ids, get_candidates,
  group_by_device, losers,
}
use glados_docker.Ha.Cache.Admission.{get_candidates-admitted, is_admitted}
use glados_docker.Ha.Cache.Groups.{has_twins}
use glados_docker.Ha.Cache.Twins.{dedup-has_twins}
use glados_docker.Ha.Cache.Keys.{Op, get_states_op, registry_op, run, state_changed_op, step}
use glados_docker.Ha.Cache.Devices.{device_of, device_stays, stays_present}
use glados_docker.Ha.Cache.Words.{
  coverage_hits, name_words, normalise_opposing_pairs, opposing_token_hit, preprocess_query,
  utterance_words,
}

abbrev named : String → List String → Attributes
named name modes = record {
  friendly_name = some name;
  device_class = none;
  area_id = some "office";
  aliases = [];
  supported_color_modes = modes;
}

abbrev state_of : String → String → List String → StateObj
state_of eid name modes = record {
  entity_id = some eid;
  state = some "on";
  attributes = named name modes;
}

abbrev snapshot : List StateObj
snapshot =
    state_of "light.desk" "Desk Lamp" ("brightness" ∷ [])
    ∷ state_of "switch.desk" "Desk Lamp" []
    ∷ state_of "lock.desk" "Desk Drawer Lock" []
    ∷ []

abbrev registered : String → RegistryEntry
registered eid = record { entity_id = some eid; device_id = some "d1" }

abbrev ops : List Op
ops =
    get_states_op 5 snapshot
    ∷ registry_op (registered "light.desk" ∷ registered "switch.desk" ∷ registered "fan.none" ∷ [])
    ∷ []

abbrev refreshes : List Op
refreshes =
    state_changed_op 7 (record { entity_id = some "lock.desk"; new_state = none })
    ∷ get_states_op 8 snapshot
    ∷ state_changed_op 9 (record {
      entity_id = some "light.desk";
      new_state = some (state_of "light.desk" "Lamp" []);
    })
    ∷ []

-- Without case, and with a matcher that likes the first name.
abbrev matcher : Matcher
matcher = record {
  lower = λ s. s;
  extract_one = λ q names. elim names [ [] ↦ none | n ∷ ns ↦ some (n, 9000) ];
  segment_search = λ tokens s. false;
  default_segment_tokens = "seg" ∷ [];
}

abbrev search : Search
search = record {
  domain_filter = [];
  limit = 10;
  source_area = some "office";
  opposing_token_pairs = none;
  twin_dedup = true;
  ignore_segments = true;
  segment_tokens = [];
}

get_candidates-admitted_example :
    (length (get_candidates matcher true search "turn on the Desk Lamp" (run empty_cache ops)) ≤ 10)
    × (all_of
          (is_admitted matcher search)
          (get_candidates matcher true search "turn on the Desk Lamp" (run empty_cache ops))
        ≡ true)
get_candidates-admitted_example =
    get_candidates-admitted matcher true search "turn on the Desk Lamp" (run empty_cache ops)

-- The lock has too low a score, and the switch is the light's twin.
found :
    entity_ids (get_candidates matcher true search "turn on the Desk Lamp" (run empty_cache ops))
    ≡ "light.desk" ∷ []
unfolding get_candidates all_candidates read_query score_entities sort_rank insert_rank score_entity
    is_segment_entity searchable_names cutoff_for ranked_match name_words coverage_hits rank_score
    dedup_light_switch_twins group_by_device drop_entity_ids losers light_has_dim_capability run
    step apply_get_states apply_entity_registry rebuild_entities carry_devices extract_entity_state
    annotate carry_over split_once get put is_blank is_space preprocess_query utterance_words
    normalise_opposing_pairs split_from strip_chars lstrip_chars rstrip_chars join_texts
    opposing_token_hit strip
found = refl

abbrev candidate : EntityState → CandidateMatch
candidate e = record {
  entity = e;
  matched_name = e.friendly_name;
  score = 9000;
  sensitive = false;
  coverage = 0;
  area_match = none;
  device_id = e.device_id;
}

dedup-has_twins_example :
    has_twins "d1"
      (dedup_light_switch_twins (λ s. s) (map candidate (all_entities (run empty_cache ops))))
    ≡ false
dedup-has_twins_example =
    dedup-has_twins (λ s. s) "d1" (map candidate (all_entities (run empty_cache ops)))

known : device_of "light.desk" (run empty_cache ops).entities ≡ some "d1"
unfolding run step apply_get_states apply_entity_registry rebuild_entities carry_devices
    extract_entity_state annotate carry_over split_once get put
known = refl

present : stays_present "light.desk" (run empty_cache ops) refreshes ≡ true
unfolding run step apply_get_states apply_entity_registry apply_state_changed rebuild_entities
    carry_devices extract_entity_state annotate carry_over split_once get put has remove
present = refl

device_stays_example :
    device_of "light.desk" (run (run empty_cache ops) refreshes).entities ≡ some "d1"
device_stays_example =
    device_stays "light.desk" "d1" refreshes (run empty_cache ops) known refl present
