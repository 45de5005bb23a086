-- ===== src/Ha/Tests.antt =====
-- Watches at concrete inputs.
use glados_docker.Common.{
  List, Option, String, [], all_of, arith, false, get, none, pos, refl, some, true, ℕ, ◌∷◌, ◌≡◌,
}
use glados_docker.Ha.Verifier.{
  ExpectedTransition, Observed, attrs_match, begin_watch, conclude, matches, number, triggers,
}
use glados_docker.Ha.Verifier.Events.{observe_all}
use glados_docker.Ha.Verifier.Verdicts.{meets, verified_lem, wait_succeeds}

-- A lamp to be on at brightness 128, within 15, and a scene, which is skipped.
abbrev lamp : ExpectedTransition
lamp = record {
  entity_id = "light.desk";
  expected_state = some "on";
  expected_attrs = ("brightness", number (pos 12800)) ∷ [];
  attr_tolerance = ("brightness", 1500) ∷ [];
  skip_verification = false;
}

abbrev scene : ExpectedTransition
scene = record {
  entity_id = "scene.evening";
  expected_state = none;
  expected_attrs = [];
  attr_tolerance = [];
  skip_verification = true;
}

abbrev lit : ℕ → Observed
lit b = record { state = some "on"; attributes = ("brightness", number (pos b)) ∷ [] }

abbrev dark : Observed
dark = record { state = some "off"; attributes = [] }

abbrev reached : List (String × Option Observed)
reached =
    ("light.desk", some dark) ∷ ("light.hall", some dark) ∷ ("light.desk", some (lit 13000)) ∷ []

abbrev reverted : List (String × Option Observed)
reverted = ("light.desk", some (lit 13000)) ∷ ("light.desk", none) ∷ ("light.desk", some dark) ∷ []

verified_lem_example :
    (conclude true (observe_all reverted (begin_watch (lamp ∷ scene ∷ [])))).0.verified
    ≡ all_of (meets reverted) (lamp ∷ scene ∷ [])
verified_lem_example = verified_lem (lamp ∷ scene ∷ []) reverted true refl

not_met : all_of (meets reverted) (lamp ∷ scene ∷ []) ≡ false
unfolding matches attrs_match get
not_met = refl

met : all_of (meets reached) (lamp ∷ scene ∷ []) ≡ true
unfolding matches attrs_match get
met = refl

wait_succeeds_example :
    (let w = observe_all reached (begin_watch (lamp ∷ scene ∷ [])) in
      let result = (conclude (triggers 3 w) w).0 in
      (result.verified ≡ true) × (result.timed_out ≡ false))
wait_succeeds_example = wait_succeeds (lamp ∷ scene ∷ []) reached 3 refl (omega arith) met
