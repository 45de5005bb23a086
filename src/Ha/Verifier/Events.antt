-- ===== src/Ha/Verifier/Events.antt =====
-- What a watch holds after the events that came while it was open.
use glados_docker.Common.{
  List, Option, String, [], ap, arith, eq_iff, false, first_some, get, get-put, if◌then◌else◌,
  mem_text, none, refl, some, str_eq, true, ◌∙◌, ◌∷◌, ◌≡◌,
}
use glados_docker.Ha.Verifier.{Observed, Watch, all_satisfied, needed, observe, on_state_changed}

unfoldable pub observe_all : List (String × Option Observed) → Watch → Watch
unfolding on_state_changed
observe_all [] w = w
observe_all ((eid, new) ∷ events) w = observe_all events (on_state_changed eid new w)

-- The last state that the events give to an entity.
abbrev pub last_seen : String → Option Observed → List (String × Option Observed) → Option Observed
last_seen eid start [] = start
last_seen eid start ((j, new) ∷ events) =
    last_seen eid (if str_eq j eid then first_some new start else start) events

on_state_changed-none : (eid : String) (w : Watch) → on_state_changed eid none w ≡ w
unfolding on_state_changed
on_state_changed-none eid w = ground arith

on_state_changed-expected :
    (eid : String) (new : Option Observed) (w : Watch)
    → (on_state_changed eid new w).expected ≡ w.expected
unfolding on_state_changed observe
on_state_changed-expected eid new w = ground arith

on_state_changed-closed :
    (eid : String) (new : Option Observed) (w : Watch)
    → (on_state_changed eid new w).closed ≡ w.closed
unfolding on_state_changed observe
on_state_changed-closed eid new w = ground arith

on_state_changed-observed :
    (j eid : String) (new : Option Observed) (w : Watch)
    → w.closed ≡ false
    → mem_text eid (needed w.expected) ≡ true
    → get eid (on_state_changed j new w).observed
      ≡ (if str_eq j eid then first_some new (get eid w.observed) else get eid w.observed)
unfolding on_state_changed observe
on_state_changed-observed j eid none w o m = ground arith
on_state_changed-observed j eid (some s) w o m =
    ground (arith, get-put j eid s w.observed, eq_iff j eid)

-- While the watch is open, it holds the last state that the events gave to a needed entity.
pub observed-observe_all :
    (eid : String) (events : List (String × Option Observed)) (w : Watch)
    → w.closed ≡ false
    → mem_text eid (needed w.expected) ≡ true
    → get eid (observe_all events w).observed ≡ last_seen eid (get eid w.observed) events
unfolding observe_all
observed-observe_all eid [] w o m = refl
observed-observe_all eid ((j, new) ∷ events) w o m =
    observed-observe_all eid events (on_state_changed j new w) (on_state_changed-closed j new w ∙ o)
      (ap (λ ts. mem_text eid (needed ts)) (on_state_changed-expected j new w) ∙ m)
    ∙ ap (λ start. last_seen eid start events) (on_state_changed-observed j eid new w o m)

pub expected-observe_all :
    (events : List (String × Option Observed)) (w : Watch)
    → (observe_all events w).expected ≡ w.expected
unfolding observe_all
expected-observe_all [] w = refl
expected-observe_all ((j, new) ∷ events) w =
    expected-observe_all events (on_state_changed j new w) ∙ on_state_changed-expected j new w

-- The event is set where the states satisfy the watch.
abbrev pub IsAwake : Watch → Type 0
IsAwake w = all_satisfied w.expected w.observed ≡ true → w.event ≡ true

on_state_changed-IsAwake :
    (j : String) (new : Option Observed) (w : Watch)
    → IsAwake w
    → IsAwake (on_state_changed j new w)
unfolding on_state_changed observe
on_state_changed-IsAwake j none w a = ground arith
on_state_changed-IsAwake j (some s) w a = ground arith

pub IsAwake-observe_all :
    (events : List (String × Option Observed)) (w : Watch)
    → IsAwake w
    → IsAwake (observe_all events w)
unfolding observe_all
IsAwake-observe_all [] w a = a
IsAwake-observe_all ((j, new) ∷ events) w a =
    IsAwake-observe_all events (on_state_changed j new w) (on_state_changed-IsAwake j new w a)
