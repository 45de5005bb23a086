-- ===== src/Ha/ExpectedTests.antt =====
-- Service calls and the watches on them at concrete inputs.
use glados_docker.Common.{
  Dict, List, Option, String, [], false, get, has, if◌then◌else◌, is_some, none, pos, put, refl,
  some, str_eq, true, ◌||◌, ◌∷◌, ◌≡◌,
}
use glados_docker.Ha.Verifier.{
  Attr, ExpectedTransition, Observed, begin_watch, build_result, conclude, matches, number, observe,
  on_state_changed, other,
}
use glados_docker.Ha.Verifier.Events.{last_seen, observe_all}
use glados_docker.Ha.Verifier.Expected.{
  Parsed, expect_exact, expect_numbers, expectations, expected_from_service_call, half_even,
  infinite, service_state_map, to_brightness, unparsable,
}
use glados_docker.Ha.Verifier.Expected.Asked.{asked}
use glados_docker.Ha.Verifier.Expected.Calls.{shows, verified_call}

abbrev float_of : String → Parsed
float_of s = if str_eq s "inf" then infinite else unparsable

-- Half the brightness, in percent, over one in the scale of 255.
abbrev half_bright : Dict Attr
half_bright = ("brightness_pct", number (pos 5000)) ∷ ("brightness", number (pos 1000)) ∷ []

abbrev desk_call : List ExpectedTransition
desk_call =
    record {
      entity_id = "light.desk";
      expected_state = some "on";
      expected_attrs = ("brightness", number (pos 12800)) ∷ [];
      attr_tolerance = ("brightness", 1500) ∷ [];
      skip_verification = false;
    }
    ∷ []

abbrev desk_events : List (String × Option Observed)
desk_events =
    (
      "light.desk",
      some record { state = some "on"; attributes = ("brightness", number (pos 11400)) ∷ [] },
    )
    ∷ []

expected_desk :
    expected_from_service_call float_of "light" "turn_on" ("light.desk" ∷ []) half_bright
    ≡ some desk_call
unfolding expected_from_service_call expectations expect_numbers expect_exact half_even
    to_brightness get has
expected_desk = refl

verified_desk : (conclude true (observe_all desk_events (begin_watch desk_call))).0.verified ≡ true
unfolding conclude build_result observe_all begin_watch on_state_changed observe get put matches
verified_desk = refl

asks : has "turn_on" service_state_map || is_some (asked float_of half_bright "brightness") ≡ true
unfolding has get
asks = refl

verified_call_example :
    shows "turn_on"
      (asked float_of half_bright "brightness")
      "brightness"
      (last_seen "light.desk" none desk_events)
    ≡ true
verified_call_example =
    verified_call float_of "light" "turn_on" ("light.desk" ∷ []) half_bright desk_call desk_events
      true "brightness" "light.desk" refl expected_desk asks refl verified_desk refl

-- A text that is an infinite number is not caught.
infinite_raises :
    expected_from_service_call float_of "light" "turn_on"
      ("light.desk" ∷ [])
      (("brightness_pct", other "inf") ∷ [])
    ≡ none
unfolding expected_from_service_call expectations expect_numbers expect_exact get
infinite_raises = refl
