-- ===== src/Ha/Verifier/Expected.antt =====
-- `expected_from_service_call`, which derives the transitions of a watch from a service call. The
-- service data are attributes; `float` of a text is the parameter `to_float`.
pub mod Asked
pub mod Paced
pub mod Calls
use glados_docker.Common.{
  Bool, Dict, List, Option, String, [], false, get, has, if◌then◌else◌, ltb, map, mem_text, negsuc,
  none, not, or_else, pos, put, some, str_append, suc, true, zero, ℕ, ℤ, ◌%◌, ◌&&◌, ◌*◌, ◌+◌, ◌/◌,
  ◌∷◌,
}
use glados_docker.Ha.Verifier.{Attr, ExpectedTransition, absent, number, other}

-- `_SKIP_SERVICES`
abbrev pub skip_services : List String
skip_services =
    "scene.turn_on" ∷ "scene.apply" ∷ "script.turn_on" ∷ "script.toggle"
    ∷ "homeassistant.update_entity" ∷ "homeassistant.reload_config_entry" ∷ "automation.trigger"
    ∷ "automation.reload" ∷ "notify.notify" ∷ []

-- `_SERVICE_STATE_MAP`
abbrev pub service_state_map : Dict (Option String)
service_state_map =
    ("turn_on", some "on")
    ∷ ("turn_off", some "off")
    ∷ ("toggle", none)
    ∷ ("open_cover", some "open")
    ∷ ("close_cover", some "closed")
    ∷ ("lock", some "locked")
    ∷ ("unlock", some "unlocked")
    ∷ ("start", none)
    ∷ ("stop", none)
    ∷ []

-- What `float` makes of a value, a finite number in hundredths. A value that it refuses, and one
-- that is not a number, is `unparsable`: `round` refuses the latter with the same `ValueError`.
pub data Parsed : Type 0 where
  finite : ℤ → Parsed
  infinite : Parsed
  unparsable : Parsed

-- `round` of `n / d`, half to even.
unfoldable pub half_even : ℕ → ℕ → ℕ
half_even n d =
    let q = n / d in
    let r = n % d in if ltb (2 * r) d then q else if ltb d (2 * r) then q + 1 else q + q % 2

abbrev pub minus : ℕ → ℤ
minus zero = pos 0
minus (suc n) = negsuc n

-- `round(p * 255 / 100)`, in hundredths like `p`.
unfoldable pub to_brightness : ℤ → ℤ
to_brightness (pos p) = pos (100 * half_even (p * 255) 10000)
to_brightness (negsuc p) = minus (100 * half_even ((p + 1) * 255) 10000)

-- `attr_expected` and `tolerance`
pub record Expectations : Type 0 where
  pub attrs : Dict Attr
  pub tolerance : Dict ℕ

abbrev pub numeric_keys : Dict ℕ
numeric_keys =
    ("brightness", 1500)
    ∷ ("color_temp_kelvin", 20000)
    ∷ ("color_temp", 2000)
    ∷ ("volume_level", 5)
    ∷ ("temperature", 100)
    ∷ ("percentage", 500)
    ∷ []

abbrev pub exact_keys : List String
exact_keys = "color_name" ∷ "preset_mode" ∷ "hvac_mode" ∷ []

abbrev pub expect_nothing : Expectations
expect_nothing = record { attrs = []; tolerance = [] }

-- `none` is the `OverflowError` of `round`, which is not caught.
abbrev pub expect_pct : Parsed → Option Expectations
expect_pct (finite p) = some record {
  attrs = ("brightness", number (to_brightness p)) ∷ [];
  tolerance = ("brightness", 1500) ∷ [];
}
expect_pct infinite = none
expect_pct unparsable = some expect_nothing

abbrev pub expect_value : String × ℕ → Option Attr → Expectations → Expectations
expect_value key none e = e
expect_value (key, tol) (some v) e =
    if has key e.attrs
    then e
    else record { attrs = put key v e.attrs; tolerance = put key tol e.tolerance }

-- The loop over the numeric keys.
unfoldable pub expect_numbers : Dict ℕ → Dict Attr → Expectations → Expectations
expect_numbers [] sd e = e
expect_numbers (k ∷ ks) sd e = expect_numbers ks sd (expect_value k (get k.0 sd) e)

abbrev pub expect_same : String → Option Attr → Expectations → Expectations
expect_same key none e = e
expect_same key (some v) e = record { attrs = put key v e.attrs; tolerance = e.tolerance }

-- The loop over the exact keys.
unfoldable pub expect_exact : List String → Dict Attr → Expectations → Expectations
expect_exact [] sd e = e
expect_exact (k ∷ ks) sd e = expect_exact ks sd (expect_same k (get k sd) e)

abbrev pub skip_transition : String → ExpectedTransition
skip_transition eid = record {
  entity_id = eid;
  expected_state = none;
  expected_attrs = [];
  attr_tolerance = [];
  skip_verification = true;
}

abbrev pub transition : Option String → Expectations → String → ExpectedTransition
transition base e eid = record {
  entity_id = eid;
  expected_state = base;
  expected_attrs = e.attrs;
  attr_tolerance = e.tolerance;
  skip_verification = false;
}

abbrev pub is_unasked : Dict Attr → Bool
is_unasked [] = true
is_unasked (a ∷ rest) = false

-- `_SERVICE_STATE_MAP.get(service)`
abbrev pub base_state : String → Option String
base_state service = or_else (get service service_state_map) none

abbrev pub on_some {ℓ} : {A : Type ℓ} → (Expectations → A) → Option Expectations → Option A
on_some f none = none
on_some f (some e) = some (f e)

module _ (to_float : String → Parsed) where
  abbrev pub float_value : Attr → Parsed
  float_value absent = unparsable
  float_value (number n) = finite n
  float_value (other s) = to_float s

  abbrev pub start_expectations : Option Attr → Option Expectations
  start_expectations none = some expect_nothing
  start_expectations (some v) = expect_pct (float_value v)

  unfoldable pub expectations : Dict Attr → Option Expectations
  unfolding expect_numbers expect_exact
  expectations sd =
      on_some (λ e. expect_exact exact_keys sd (expect_numbers numeric_keys sd e))
        (start_expectations (get "brightness_pct" sd))

  -- The transitions of a service that is not among the skipped ones.
  abbrev pub transitions_of : String → List String → Expectations → List ExpectedTransition
  transitions_of service entity_ids e =
      if not (has service service_state_map) && is_unasked e.attrs
      then map skip_transition entity_ids
      else map (transition (base_state service) e) entity_ids

  unfoldable pub expected_from_service_call :
      String → String → List String → Dict Attr → Option (List ExpectedTransition)
  unfolding expectations
  expected_from_service_call domain service entity_ids sd =
      if mem_text (str_append domain (str_append "." service)) skip_services
      then some (map skip_transition entity_ids)
      else on_some (transitions_of service entity_ids) (expectations sd)
