-- ===== src/Ha/Verifier/Expected/Calls.antt =====
-- From a service call to the result of the watch on it.
use glados_docker.Ha.Verifier.Expected.Asked.{asked, expectations-asked}
use glados_docker.Ha.Verifier.Events.{last_seen, observe_all}
use glados_docker.Ha.Verifier.Entries.{distinct}
use glados_docker.Ha.Verifier.Verdicts.{meets, verified_lem}
use glados_docker.Common.{
  Bool, Bool-cases, Dict, List, Option, String, [], all_of, ap, arith, eq_iff, false, get, has, inl,
  inr, is_some, map, mem_text, none, or_else, refl, some, str_append, str_eq, subst, sym, true, ℕ,
  ◌&&◌, ◌||◌, ◌∙◌, ◌∷◌, ◌≡◌,
}
use glados_docker.Ha.Verifier.{
  Attr, ExpectedTransition, Observed, attr_matches, attrs_match, begin_watch, conclude, matches,
  satisfied, state_matches,
}
use glados_docker.Ha.Verifier.Expected.{
  Expectations, Parsed, base_state, expectations, expected_from_service_call, is_unasked,
  numeric_keys, on_some, service_state_map, skip_services, transition, transitions_of,
}
use glados_docker.Ha.Verifier.Expected.Paced.{IsPaced, attrs_match-get, expectations-IsPaced}

-- The tolerance of an attribute that a call asks for.
abbrev pub tolerance_of : String → ℕ
tolerance_of k = or_else (get k numeric_keys) 0

abbrev pub reports : Option Attr → ℕ → Option Attr → Bool
reports none tol got = true
reports (some v) tol got = attr_matches tol v got

-- An entity's last state is the state of the service, and an attribute is as the call asks.
abbrev pub shows : String → Option Attr → String → Option Observed → Bool
shows service wanted k none = false
shows service wanted k (some o) =
    state_matches (base_state service) o.state
    && reports wanted (tolerance_of k) (get k o.attributes)

reports-attrs_match :
    (e : Expectations) (attrs : Dict Attr) (k : String) (w : Option Attr)
    → IsPaced e
    → get k e.attrs ≡ w
    → attrs_match e.tolerance e.attrs attrs ≡ true
    → reports w (tolerance_of k) (get k attrs) ≡ true
unfolding IsPaced has
reports-attrs_match e attrs k none p g m = refl
reports-attrs_match e attrs k (some v) p g m =
    let t : get k e.tolerance ≡ get k numeric_keys = grind (arith, p k, g) in
    ap (λ x. attr_matches (or_else x 0) v (get k attrs)) (sym t)
    ∙ attrs_match-get e.tolerance e.attrs attrs k v m g

shows-satisfied :
    (service : String) (e : Expectations) (eid k : String) (o : Option Observed)
    → IsPaced e
    → satisfied (transition (base_state service) e eid) o ≡ true
    → shows service (get k e.attrs) k o ≡ true
unfolding matches
shows-satisfied service e eid k none p h = h
shows-satisfied service e eid k (some o) p h =
    grind (arith, h, reports-attrs_match e o.attributes k (get k e.attrs) p refl)

member_meets :
    (f : String → ExpectedTransition) (events : List (String × Option Observed)) (eid : String)
    (ids : List String)
    → all_of (meets events) (map f ids) ≡ true
    → mem_text eid ids ≡ true
    → meets events (f eid) ≡ true
member_meets f events eid [] a m = cc m
member_meets f events eid (j ∷ ids) a m = elim (Bool-cases (str_eq j eid)) [
  | inl same ↦ subst (λ i. meets events (f i) ≡ true) ((eq_iff j eid).0 same) (grind (arith, a))
  | inr differ ↦ member_meets f events eid ids (grind (arith, a)) (grind (arith, m, differ))
]

unasked_is_none : (d : Dict Attr) (k : String) → is_unasked d ≡ true → get k d ≡ none
unfolding get
unasked_is_none [] k h = refl
unasked_is_none (a ∷ rest) k h = cc h

-- The transitions of a call that is not skipped.
unskipped :
    (to_float : String → Parsed) (service : String) (entity_ids : List String) (sd : Dict Attr)
    (k : String) (e : Expectations)
    → expectations to_float sd ≡ some e
    → has service service_state_map || is_some (asked to_float sd k) ≡ true
    → transitions_of to_float service entity_ids e
      ≡ map (transition (base_state service) e) entity_ids
unskipped to_float service entity_ids sd k e h n =
    grind (arith, n, unasked_is_none e.attrs k, expectations-asked to_float sd e h k)

call_shows :
    (to_float : String → Parsed) (service : String) (entity_ids : List String) (sd : Dict Attr)
    (k eid : String) (events : List (String × Option Observed)) (o : Option Expectations)
    (ts : List ExpectedTransition)
    → expectations to_float sd ≡ o
    → on_some (transitions_of to_float service entity_ids) o ≡ some ts
    → has service service_state_map || is_some (asked to_float sd k) ≡ true
    → all_of (meets events) ts ≡ true
    → mem_text eid entity_ids ≡ true
    → shows service (asked to_float sd k) k (last_seen eid none events) ≡ true
call_shows to_float service entity_ids sd k eid events none ts s h n v m = cc h
call_shows to_float service entity_ids sd k eid events (some e) ts s h n v m =
    let q : transitions_of to_float service entity_ids e ≡ ts = cc h in
    let f = transition (base_state service) e in
    let met =
      member_meets f events eid entity_ids
        (ap (all_of (meets events)) (sym (unskipped to_float service entity_ids sd k e s n) ∙ q)
          ∙ v)
        m in
    ap (λ x. shows service x k (last_seen eid none events))
      (sym (expectations-asked to_float sd e s k))
    ∙ shows-satisfied service e eid k (last_seen eid none events)
        (expectations-IsPaced to_float sd e s) met

-- A service call that is reported as verified has had its effect: for distinct entities, a service
-- that is not among the skipped ones, and an attribute that the call asks for or a service in the
-- map of states, the last state that the events gave to each entity is the state of the service,
-- where it has one, and the attribute is within its tolerance of what the call asks.
pub verified_call :
    (to_float : String → Parsed) (domain service : String) (entity_ids : List String)
    (sd : Dict Attr) (ts : List ExpectedTransition) (events : List (String × Option Observed))
    (triggered : Bool) (k eid : String)
    → mem_text (str_append domain (str_append "." service)) skip_services ≡ false
    → expected_from_service_call to_float domain service entity_ids sd ≡ some ts
    → has service service_state_map || is_some (asked to_float sd k) ≡ true
    → distinct ts ≡ true
    → (conclude triggered (observe_all events (begin_watch ts))).0.verified ≡ true
    → mem_text eid entity_ids ≡ true
    → shows service (asked to_float sd k) k (last_seen eid none events) ≡ true
unfolding expected_from_service_call
verified_call to_float domain service entity_ids sd ts events triggered k eid u h n d v m =
    call_shows to_float service entity_ids sd k eid events (expectations to_float sd) ts refl
      (grind (arith, u, h)) n (sym (verified_lem ts events triggered d) ∙ v) m
