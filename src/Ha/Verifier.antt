-- ===== src/Ha/Verifier.antt =====
-- glados/ha/state_verifier.py: `Watch` and `_matches`. A number among the attributes, and a
-- tolerance, is a number of hundredths; a value that is no number is its text. What the callback
-- and `wait` do is in the order of the lock. Of a result, the elapsed time, the observed attributes
-- and the text of a mismatch are left out.
pub mod Entries
pub mod Events
pub mod Expected
pub mod Verdicts
use glados_docker.Common.{
  Bool, Dict, List, Option, String, [], all_of, false, get, if◌then◌else◌, keep, leb, ltb, map,
  mem_text, negsuc, none, not, opt_eq, or_else, pos, put, some, str_eq, true, values, ℕ, ℤ, ◌&&◌,
  ◌+◌, ◌-◌, ◌||◌, ◌∷◌,
}

-- `abs(a - b)`
abbrev pub distance : ℤ → ℤ → ℕ
distance (pos a) (pos b) = a - b + (b - a)
distance (negsuc a) (negsuc b) = a - b + (b - a)
distance (pos a) (negsuc b) = a + b + 1
distance (negsuc a) (pos b) = a + b + 1

-- `absent` is `None`.
pub data Attr : Type 0 where
  absent : Attr
  number : ℤ → Attr
  other : String → Attr

pub record ExpectedTransition : Type 0 where
  pub entity_id : String
  pub expected_state : Option String
  pub expected_attrs : Dict Attr
  pub attr_tolerance : Dict ℕ
  pub skip_verification : Bool

-- The `new_state` of an event.
pub record Observed : Type 0 where
  pub state : Option String
  pub attributes : Dict Attr

abbrev pub same_attr : ℕ → Attr → Attr → Bool
same_attr tol want absent = false
same_attr tol (number want) (number got) = leb (distance got want) tol
same_attr tol (other want) (other got) = str_eq got want
same_attr tol _ _ = false

abbrev pub attr_matches : ℕ → Attr → Option Attr → Bool
attr_matches tol want none = false
attr_matches tol want (some got) = same_attr tol want got

unfoldable pub attrs_match : Dict ℕ → Dict Attr → Dict Attr → Bool
attrs_match tolerance [] attrs = true
attrs_match tolerance ((key, want) ∷ wants) attrs =
    attr_matches (or_else (get key tolerance) 0) want (get key attrs)
    && attrs_match tolerance wants attrs

abbrev pub state_matches : Option String → Option String → Bool
state_matches none got = true
state_matches want got = opt_eq got want

unfoldable pub matches : ExpectedTransition → Observed → Bool
unfolding attrs_match
matches t o =
    state_matches t.expected_state o.state
    && attrs_match t.attr_tolerance t.expected_attrs o.attributes

abbrev pub satisfied : ExpectedTransition → Option Observed → Bool
satisfied t none = false
satisfied t (some o) = matches t o

unfoldable pub all_satisfied : List ExpectedTransition → Dict Observed → Bool
unfolding matches
all_satisfied [] observed = true
all_satisfied (t ∷ ts) observed =
    if t.skip_verification
    then all_satisfied ts observed
    else satisfied t (get t.entity_id observed) && all_satisfied ts observed

pub record Watch : Type 0 where
  pub expected : List ExpectedTransition
  pub observed : Dict Observed
  pub closed : Bool
  pub event : Bool

-- `_needed`
abbrev pub needed : List ExpectedTransition → List String
needed ts = map (λ t. t.entity_id) (keep (λ t. not t.skip_verification) ts)

abbrev is_empty : List String → Bool
is_empty [] = true
is_empty (k ∷ ks) = false

unfoldable pub begin_watch : List ExpectedTransition → Watch
begin_watch expected = record {
  expected = expected;
  observed = [];
  closed = false;
  event = is_empty (needed expected);
}

-- The block under the lock.
unfoldable pub observe : String → Observed → Watch → Watch
observe eid o w =
    let observed = put eid o w.observed in
    record w { observed = observed; event = w.event || all_satisfied w.expected observed }

-- `none` is a new state that is no dictionary: the entity was removed.
unfoldable pub on_state_changed : String → Option Observed → Watch → Watch
on_state_changed eid new w =
    if w.closed
    then w
    else if mem_text eid (needed w.expected)
    then (elim new [ none ↦ w | some o ↦ observe eid o w ])
    else w

pub record EntityVerification : Type 0 where
  pub verified : Bool
  pub skipped : Bool
  pub observed_state : Option String

pub record VerificationResult : Type 0 where
  pub verified : Bool
  pub timed_out : Bool
  pub per_entity : Dict EntityVerification

abbrev pub verify_seen : ExpectedTransition → Option Observed → EntityVerification
verify_seen t none = record { verified = false; skipped = false; observed_state = none }
verify_seen t (some o) = record {
  verified = matches t o;
  skipped = false;
  observed_state = o.state;
}

unfoldable pub verify_entity : Dict Observed → ExpectedTransition → EntityVerification
verify_entity observed t =
    if t.skip_verification
    then record { verified = false; skipped = true; observed_state = none }
    else verify_seen t (get t.entity_id observed)

-- The loop of `_build_result`.
unfoldable pub verify_entities :
    Dict Observed → List ExpectedTransition → Dict EntityVerification → Dict EntityVerification
unfolding verify_entity
verify_entities observed [] per_entity = per_entity
verify_entities observed (t ∷ ts) per_entity =
    verify_entities observed ts (put t.entity_id (verify_entity observed t) per_entity)

unfoldable pub build_result : Bool → Watch → VerificationResult
unfolding verify_entities
build_result triggered w =
    let per_entity = verify_entities w.observed w.expected [] in
    record {
      verified = all_of (λ r. r.verified || r.skipped) (values per_entity);
      timed_out = not triggered && not (is_empty (needed w.expected));
      per_entity = per_entity;
    }

unfoldable pub failed_entity_ids : VerificationResult → List String
failed_entity_ids r = map (λ e. e.0) (keep (λ e. not e.1.verified && not e.1.skipped) r.per_entity)

-- `_event.wait`, on the watch as it is when the wait ends.
unfoldable pub triggers : ℕ → Watch → Bool
triggers remaining w = if ltb 0 remaining then w.event else false

-- `wait` from there on.
unfoldable pub conclude : Bool → Watch → VerificationResult × Watch
unfolding build_result
conclude triggered w = (build_result triggered w, record w { closed = true })
