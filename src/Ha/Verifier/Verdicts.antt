-- ===== src/Ha/Verifier/Verdicts.antt =====
-- What the result of a watch says of the events that came while it was open.
use glados_docker.Common.{
  Bool, Bool-cases, List, Option, String, [], all_of, ap, arith, eq_iff, false, get, inl, inr, keep,
  map, mem_text, none, not, refl, some, true, values, ℕ, ◌&&◌, ◌<◌, ◌||◌, ◌∙◌, ◌∷◌, ◌≡◌,
}
use glados_docker.Ha.Verifier.{
  EntityVerification, ExpectedTransition, Observed, Watch, all_satisfied, begin_watch, build_result,
  conclude, failed_entity_ids, needed, on_state_changed, satisfied, triggers, verify_entities,
  verify_entity, verify_seen,
}
use glados_docker.Ha.Verifier.Entries.{distinct, entry, nothing_kept, verify_entities-append}
use glados_docker.Ha.Verifier.Events.{
  IsAwake, IsAwake-observe_all, expected-observe_all, last_seen, observe_all, observed-observe_all,
}

-- What a transition asks of the events.
abbrev pub meets : List (String × Option Observed) → ExpectedTransition → Bool
meets events t = t.skip_verification || satisfied t (last_seen t.entity_id none events)

abbrev within : List String → ExpectedTransition → Bool
within ks t = t.skip_verification || mem_text t.entity_id ks

within-cons :
    (k : String) (ks : List String) (ts : List ExpectedTransition)
    → all_of (within ks) ts ≡ true
    → all_of (within (k ∷ ks)) ts ≡ true
within-cons k ks [] h = refl
within-cons k ks (t ∷ ts) h = ground (arith, within-cons k ks ts)

within-needed : (ts : List ExpectedTransition) → all_of (within (needed ts)) ts ≡ true
within-needed [] = refl
within-needed (t ∷ ts) = ground (
  arith,
  within-needed ts,
  within-cons t.entity_id (needed ts) ts,
  eq_iff t.entity_id t.entity_id,
)

abbrev is_fine : EntityVerification → Bool
is_fine r = r.verified || r.skipped

fine_seen :
    (t : ExpectedTransition) (o : Option Observed) → is_fine (verify_seen t o) ≡ satisfied t o
fine_seen t none = refl
fine_seen t (some o) = ground arith

-- A watch that is open and has seen nothing.
record IsNew (w : Watch) : Type 0 where
  open_yet : w.closed ≡ false
  unseen : w.observed ≡ []

held-seen :
    (events : List (String × Option Observed)) (w : Watch) (t : ExpectedTransition)
    → IsNew w
    → t.skip_verification ≡ false
    → within (needed w.expected) t ≡ true
    → get t.entity_id (observe_all events w).observed ≡ last_seen t.entity_id none events
unfolding get
held-seen events w t n skip h =
    observed-observe_all t.entity_id events w n.open_yet (ground (arith, skip, h))
    ∙ ap (λ d. last_seen t.entity_id (get t.entity_id d) events) n.unseen

entity-meets :
    (events : List (String × Option Observed)) (w : Watch) (t : ExpectedTransition)
    → IsNew w
    → within (needed w.expected) t ≡ true
    → is_fine (verify_entity (observe_all events w).observed t) ≡ meets events t
unfolding verify_entity
entity-meets events w t n h = elim (Bool-cases t.skip_verification) [
  | inl skip ↦ ground (arith, skip)
  | inr works ↦ ground (
    arith,
    works,
    held-seen events w t n works h,
    fine_seen t (get t.entity_id (observe_all events w).observed),
  )
]

-- What `_build_result` makes of the states held is what the events showed.
fine-meets :
    (events : List (String × Option Observed)) (w : Watch) (ts : List ExpectedTransition)
    → IsNew w
    → all_of (within (needed w.expected)) ts ≡ true
    → all_of is_fine (values (map (entry (observe_all events w).observed) ts))
      ≡ all_of (meets events) ts
unfolding verify_entity
fine-meets events w [] n h = refl
fine-meets events w (t ∷ ts) n h =
    ground (arith, entity-meets events w t n, fine-meets events w ts n, h)

abbrev is_failed : String × EntityVerification → Bool
is_failed e = not e.1.verified && not e.1.skipped

failed-meets :
    (events : List (String × Option Observed)) (w : Watch) (ts : List ExpectedTransition)
    → IsNew w
    → all_of (within (needed w.expected)) ts ≡ true
    → map (λ x. x.0) (keep is_failed (map (entry (observe_all events w).observed) ts))
      ≡ map (λ t. t.entity_id) (keep (λ t. not (meets events t)) ts)
failed-meets events w [] n h = refl
failed-meets events w (t ∷ ts) n h =
    ground (arith, entity-meets events w t n, failed-meets events w ts n, h)

-- `_all_satisfied_locked` asks the same.
all_satisfied-meets :
    (events : List (String × Option Observed)) (w : Watch) (ts : List ExpectedTransition)
    → IsNew w
    → all_of (within (needed w.expected)) ts ≡ true
    → all_satisfied ts (observe_all events w).observed ≡ all_of (meets events) ts
unfolding all_satisfied
all_satisfied-meets events w [] n h = refl
all_satisfied-meets events w (t ∷ ts) n h = elim (Bool-cases t.skip_verification) [
  | inl skip ↦ ground (arith, skip, all_satisfied-meets events w ts n, h)
  | inr works ↦
      ground (arith, works, held-seen events w t n works, all_satisfied-meets events w ts n, h)
]

begin_watch-IsAwake : (ts : List ExpectedTransition) → IsAwake (begin_watch ts)
unfolding begin_watch all_satisfied get
begin_watch-IsAwake [] h = refl
begin_watch-IsAwake (t ∷ ts) h = ground (arith, begin_watch-IsAwake ts, h)

begin_watch-IsNew : (ts : List ExpectedTransition) → IsNew (begin_watch ts)
unfolding begin_watch
begin_watch-IsNew ts = record { open_yet = refl; unseen = refl }

begin_watch-expected :
    (events : List (String × Option Observed)) (ts : List ExpectedTransition)
    → (observe_all events (begin_watch ts)).expected ≡ ts
unfolding begin_watch
begin_watch-expected events ts = expected-observe_all events (begin_watch ts)

watch-within :
    (ts : List ExpectedTransition) → all_of (within (needed (begin_watch ts).expected)) ts ≡ true
unfolding begin_watch
watch-within ts = within-needed ts

-- The dictionary of the result has an entry for each transition, in order.
entries :
    (expected : List ExpectedTransition) (events : List (String × Option Observed))
    (triggered : Bool)
    → distinct expected ≡ true
    → (conclude triggered (observe_all events (begin_watch expected))).0.per_entity
      ≡ map (entry (observe_all events (begin_watch expected)).observed) expected
unfolding conclude build_result
entries expected events triggered d =
    let w = observe_all events (begin_watch expected) in
    ap (λ ts. verify_entities w.observed ts []) (begin_watch-expected events expected)
    ∙ verify_entities-append w.observed expected [] d (nothing_kept expected)

-- For transitions of distinct entities, whatever state changes come between the begin and the end
-- of a watch: its result is verified exactly where each transition that is not skipped is matched
-- by the last state that they gave to its entity (an early match that does not last is none).
pub verified_lem :
    (expected : List ExpectedTransition) (events : List (String × Option Observed))
    (triggered : Bool)
    → distinct expected ≡ true
    → (conclude triggered (observe_all events (begin_watch expected))).0.verified
      ≡ all_of (meets events) expected
unfolding conclude build_result
verified_lem expected events triggered d =
    ap (λ e. all_of is_fine (values e)) (entries expected events triggered d)
    ∙ fine-meets events (begin_watch expected) expected (begin_watch-IsNew expected)
        (watch-within expected)

-- No wake-up is missed: for transitions of distinct entities, where every transition is met by the
-- events so far, a `wait` with time left is triggered, and its result is verified and not timed out.
pub wait_succeeds :
    (expected : List ExpectedTransition) (events : List (String × Option Observed)) (remaining : ℕ)
    → distinct expected ≡ true
    → 0 < remaining
    → all_of (meets events) expected ≡ true
    → (let w = observe_all events (begin_watch expected) in
        let result = (conclude (triggers remaining w) w).0 in
        (result.verified ≡ true) × (result.timed_out ≡ false))
unfolding triggers conclude build_result
wait_succeeds expected events remaining d r m =
    let w = observe_all events (begin_watch expected) in
    let met =
      ap (λ ts. all_satisfied ts w.observed) (begin_watch-expected events expected)
      ∙ all_satisfied-meets events (begin_watch expected) expected (begin_watch-IsNew expected)
          (watch-within expected)
      ∙ m in
    let awake =
      IsAwake-observe_all events (begin_watch expected) (begin_watch-IsAwake expected) met in
    (verified_lem expected events (triggers remaining w) d ∙ m, ground (arith, awake, r))

-- For transitions of distinct entities, the entities that a result reports as failed are those
-- of the transitions that the events do not meet, in order.
pub failed_entity_ids_lem :
    (expected : List ExpectedTransition) (events : List (String × Option Observed))
    (triggered : Bool)
    → distinct expected ≡ true
    → failed_entity_ids (conclude triggered (observe_all events (begin_watch expected))).0
      ≡ map (λ t. t.entity_id) (keep (λ t. not (meets events t)) expected)
unfolding failed_entity_ids
failed_entity_ids_lem expected events triggered d =
    ap (λ e. map (λ x. x.0) (keep is_failed e)) (entries expected events triggered d)
    ∙ failed-meets events (begin_watch expected) expected (begin_watch-IsNew expected)
        (watch-within expected)

-- After the end of a watch, no event changes it.
pub closed_stays :
    (events : List (String × Option Observed)) (triggered : Bool) (w : Watch)
    → observe_all events (conclude triggered w).1 ≡ (conclude triggered w).1
unfolding observe_all conclude on_state_changed
closed_stays [] triggered w = refl
closed_stays ((j, new) ∷ events) triggered w = closed_stays events triggered w
