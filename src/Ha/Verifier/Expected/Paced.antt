-- ===== src/Ha/Verifier/Expected/Paced.antt =====
-- The tolerances of what a service call makes a watch expect.
use glados_docker.Common.{
  Bool, Dict, Option, String, [], arith, eq_iff, false, get, get-put, has, if◌then◌else◌, none,
  or_else, put, refl, some, subst, true, ℕ, ◌∷◌, ◌≡◌,
}
use glados_docker.Ha.Verifier.{Attr, attr_matches, attrs_match, number}
use glados_docker.Ha.Verifier.Expected.{
  Expectations, Parsed, exact_keys, expect_exact, expect_nothing, expect_numbers, expect_pct,
  expect_same, expect_value, expectations, finite, float_value, infinite, numeric_keys, on_some,
  start_expectations, to_brightness, unparsable,
}

-- An attribute that is expected has the tolerance of its key, and nothing else has one.
unfoldable pub IsPaced : Expectations → Type 0
IsPaced e = (k : String) → get k e.tolerance ≡ (if has k e.attrs then get k numeric_keys else none)

cond_holds :
    (b : Bool) (x y : Expectations) (P : Expectations → Type 0) → P x → P y → P (if b then x else y)
cond_holds true x y P p q = p
cond_holds false x y P p q = q

put-IsPaced :
    (j : String) (tol : ℕ) (v : Attr) (e : Expectations)
    → get j numeric_keys ≡ some tol
    → IsPaced e
    → IsPaced record { attrs = put j v e.attrs; tolerance = put j tol e.tolerance }
unfolding IsPaced has
put-IsPaced j tol v e t p k =
    grind (arith, get-put j k v e.attrs, get-put j k tol e.tolerance, eq_iff j k, p k)

expect_value-IsPaced :
    (j : String) (tol : ℕ) (o : Option Attr) (e : Expectations)
    → get j numeric_keys ≡ some tol
    → IsPaced e
    → IsPaced (expect_value (j, tol) o e)
expect_value-IsPaced j tol none e t p = p
expect_value-IsPaced j tol (some v) e t p =
    cond_holds (has j e.attrs) e _ IsPaced p (put-IsPaced j tol v e t p)

expect_same-IsPaced :
    (j : String) (o : Option Attr) (e : Expectations)
    → get j numeric_keys ≡ none
    → IsPaced e
    → IsPaced (expect_same j o e)
unfolding IsPaced has
expect_same-IsPaced j none e t p k = p k
expect_same-IsPaced j (some v) e t p k = grind (arith, get-put j k v e.attrs, eq_iff j k, p k)

expect_pct-IsPaced : (p : Parsed) (e : Expectations) → expect_pct p ≡ some e → IsPaced e
unfolding IsPaced has get
expect_pct-IsPaced (finite p) e h k =
    let q : record {
      attrs = ("brightness", number (to_brightness p)) ∷ [];
      tolerance = ("brightness", 1500) ∷ [];
    }
        ≡ e =
      cc h in
    subst (λ x. get k x.tolerance ≡ (if has k x.attrs then get k numeric_keys else none)) q
      (grind (arith, eq_iff k "brightness", eq_iff "brightness" k))
expect_pct-IsPaced infinite e h k = cc h
expect_pct-IsPaced unparsable e h k =
    let q : expect_nothing ≡ e = cc h in
    subst (λ x. get k x.tolerance ≡ (if has k x.attrs then get k numeric_keys else none)) q refl

start-IsPaced :
    (to_float : String → Parsed) (o : Option Attr) (e : Expectations)
    → start_expectations to_float o ≡ some e
    → IsPaced e
start-IsPaced to_float none e h = expect_pct-IsPaced unparsable e h
start-IsPaced to_float (some v) e h = expect_pct-IsPaced (float_value to_float v) e h

-- One more numeric key, and one more exact key.
number_step :
    (sd : Dict Attr) (j : String) (tol : ℕ) (e : Expectations)
    → get j numeric_keys ≡ some tol
    → IsPaced e
    → IsPaced (expect_value (j, tol) (get j sd) e)
number_step sd j tol e t p = expect_value-IsPaced j tol (get j sd) e t p

exact_step :
    (sd : Dict Attr) (j : String) (e : Expectations)
    → get j numeric_keys ≡ none
    → IsPaced e
    → IsPaced (expect_same j (get j sd) e)
exact_step sd j e t p = expect_same-IsPaced j (get j sd) e t p

after_loops-IsPaced :
    (sd : Dict Attr) (e : Expectations)
    → IsPaced e
    → IsPaced (expect_exact exact_keys sd (expect_numbers numeric_keys sd e))
unfolding expect_exact expect_numbers get
after_loops-IsPaced sd e p = exact_step sd "hvac_mode" _ refl (
    exact_step sd "preset_mode" _ refl (
      exact_step sd "color_name" _ refl (
        number_step sd "percentage" 500 _ refl (
          number_step sd "temperature" 100 _ refl (
            number_step sd "volume_level" 5 _ refl (
              number_step sd "color_temp" 2000 _ refl (
                number_step sd "color_temp_kelvin" 20000 _ refl
                  (number_step sd "brightness" 1500 e refl p))))))))

pub attrs_match-get :
    (tolerance : Dict ℕ) (wants attrs : Dict Attr) (k : String) (v : Attr)
    → attrs_match tolerance wants attrs ≡ true
    → get k wants ≡ some v
    → attr_matches (or_else (get k tolerance) 0) v (get k attrs) ≡ true
unfolding attrs_match get
attrs_match-get tolerance [] attrs k v m h = cc h
attrs_match-get tolerance ((j, w) ∷ wants) attrs k v m h =
    grind (arith, attrs_match-get tolerance wants attrs k v, eq_iff j k, m, h)

some-IsPaced :
    (to_float : String → Parsed) (sd : Dict Attr) (o : Option Expectations) (e : Expectations)
    → start_expectations to_float (get "brightness_pct" sd) ≡ o
    → on_some (λ x. expect_exact exact_keys sd (expect_numbers numeric_keys sd x)) o ≡ some e
    → IsPaced e
some-IsPaced to_float sd none e s h = cc h
some-IsPaced to_float sd (some x) e s h =
    let q : expect_exact exact_keys sd (expect_numbers numeric_keys sd x) ≡ e = cc h in
    subst IsPaced q
      (after_loops-IsPaced sd x (start-IsPaced to_float (get "brightness_pct" sd) x s))

pub expectations-IsPaced :
    (to_float : String → Parsed) (sd : Dict Attr) (e : Expectations)
    → expectations to_float sd ≡ some e
    → IsPaced e
unfolding expectations
expectations-IsPaced to_float sd e h = some-IsPaced to_float sd _ e refl h
