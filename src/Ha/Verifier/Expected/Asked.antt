-- ===== src/Ha/Verifier/Expected/Asked.antt =====
-- What a service call makes a watch expect.
use glados_docker.Common.{
  Bool, Bool-cases, Dict, List, Option, String, [], ap, arith, eq_iff, false, get, get-put, has,
  if◌then◌else◌, inl, inr, is_some, mem_text, none, put, refl, some, str_eq, subst, sym, true, ℕ,
  ◌||◌, ◌∙◌, ◌∷◌, ◌≡◌,
}
use glados_docker.Ha.Verifier.{Attr, number}
use glados_docker.Ha.Verifier.Expected.{
  Expectations, Parsed, float_value, exact_keys, expect_exact, expect_nothing, expect_numbers,
  expect_pct, expect_same, expect_value, expectations, finite, infinite, numeric_keys, on_some,
  start_expectations, to_brightness, unparsable,
}

abbrev first : Option Attr → Option Attr → Option Attr
first none y = y
first (some x) y = some x

-- The brightness that a percentage is translated to.
abbrev pub translated : Parsed → Option Attr
translated (finite p) = some (number (to_brightness p))
translated infinite = none
translated unparsable = none

abbrev pub translated_value : (String → Parsed) → Option Attr → Option Attr
translated_value to_float none = none
translated_value to_float (some v) = translated (float_value to_float v)

-- The value that service data ask an attribute to have.
abbrev pub asked : (String → Parsed) → Dict Attr → String → Option Attr
asked to_float sd k =
    if str_eq k "brightness"
    then first (translated_value to_float (get "brightness_pct" sd)) (get k sd)
    else if mem_text k exact_keys || has k numeric_keys
    then get k sd
    else none

first-none : (x : Option Attr) → first x none ≡ x
first-none none = refl
first-none (some v) = refl

first_assoc : (x y z : Option Attr) → first (first x y) z ≡ first x (first y z)
first_assoc none y z = refl
first_assoc (some v) y z = refl

-- An attribute that is expected already stays as it is.
first-put :
    (k j : String) (v : Attr) (seen : Option Attr) (d : Dict Attr)
    → get j d ≡ seen
    → get k (if is_some seen then d else put j v d)
      ≡ first (get k d) (if str_eq j k then some v else none)
first-put k j v none d h = grind (arith, get-put j k v d, eq_iff j k, first-none (get k d))
first-put k j v (some w) d h = grind (arith, eq_iff j k, first-none (get k d))

attrs-cond :
    (b : Bool) (x y : Expectations) → (if b then x else y).attrs ≡ (if b then x.attrs else y.attrs)
attrs-cond true x y = refl
attrs-cond false x y = refl

expect_value-get :
    (k j : String) (tol : ℕ) (o : Option Attr) (e : Expectations)
    → get k (expect_value (j, tol) o e).attrs
      ≡ first (get k e.attrs) (if str_eq j k then o else none)
unfolding has
expect_value-get k j tol none e = grind (arith, first-none (get k e.attrs))
expect_value-get k j tol (some v) e =
    ap (get k) (attrs-cond (has j e.attrs) e _) ∙ first-put k j v (get j e.attrs) e.attrs refl

expect_numbers-get :
    (k : String) (ks : Dict ℕ) (sd : Dict Attr) (e : Expectations)
    → get k (expect_numbers ks sd e).attrs
      ≡ first (get k e.attrs) (if has k ks then get k sd else none)
unfolding expect_numbers has get
expect_numbers-get k [] sd e = sym (first-none (get k e.attrs))
expect_numbers-get k ((j, tol) ∷ ks) sd e = grind (
  arith,
  expect_numbers-get k ks sd (expect_value (j, tol) (get j sd) e),
  expect_value-get k j tol (get j sd) e,
  eq_iff j k,
  first_assoc (get k e.attrs) (get k sd) (if has k ks then get k sd else none),
)

expect_same-get :
    (k j : String) (o : Option Attr) (e : Expectations)
    → get k (expect_same j o e).attrs
      ≡ (if str_eq j k then first o (get k e.attrs) else get k e.attrs)
expect_same-get k j none e = ground arith
expect_same-get k j (some v) e = get-put j k v e.attrs

expect_exact-get :
    (k : String) (ks : List String) (sd : Dict Attr) (e : Expectations)
    → get k (expect_exact ks sd e).attrs
      ≡ (if mem_text k ks then first (get k sd) (get k e.attrs) else get k e.attrs)
unfolding expect_exact
expect_exact-get k [] sd e = refl
expect_exact-get k (j ∷ ks) sd e = grind (
  arith,
  expect_exact-get k ks sd (expect_same j (get j sd) e),
  expect_same-get k j (get j sd) e,
  eq_iff j k,
)

-- What the percentage alone asks for.
translated_attrs :
    (k : String) (p : Parsed) (e : Expectations)
    → expect_pct p ≡ some e
    → get k e.attrs ≡ (if str_eq k "brightness" then translated p else none)
unfolding get
translated_attrs k (finite p) e h =
    let q : record {
      attrs = ("brightness", number (to_brightness p)) ∷ [];
      tolerance = ("brightness", 1500) ∷ [];
    }
        ≡ e =
      cc h in
    subst (λ x. get k x.attrs ≡ (if str_eq k "brightness" then translated (finite p) else none)) q
      (grind (arith, eq_iff k "brightness", eq_iff "brightness" k))
translated_attrs k infinite e h = cc h
translated_attrs k unparsable e h =
    let q : expect_nothing ≡ e = cc h in
    subst (λ x. get k x.attrs ≡ (if str_eq k "brightness" then none else none)) q (ground arith)

started_attrs :
    (to_float : String → Parsed) (k : String) (o : Option Attr) (e : Expectations)
    → start_expectations to_float o ≡ some e
    → get k e.attrs ≡ (if str_eq k "brightness" then translated_value to_float o else none)
started_attrs to_float k none e h = translated_attrs k unparsable e h
started_attrs to_float k (some v) e h = translated_attrs k (float_value to_float v) e h

after_loops : Dict Attr → Expectations → Expectations
after_loops sd e = expect_exact exact_keys sd (expect_numbers numeric_keys sd e)

brightness_keys :
    (k : String)
    → str_eq k "brightness" ≡ true
    → (mem_text k exact_keys ≡ false) × (has k numeric_keys ≡ true)
unfolding has get
brightness_keys k h =
    subst (λ j. (mem_text j exact_keys ≡ false) × (has j numeric_keys ≡ true))
      (sym ((eq_iff k "brightness").0 h)) (refl, refl)

-- The value that an attribute has after both loops, `v` the call's and `a` the one before.
merged : (exact numeric : Bool) → Option Attr → Option Attr → Option Attr
merged exact numeric v a =
    let w = first a (if numeric then v else none) in if exact then first v w else w

merged_plain :
    (exact numeric : Bool) (v : Option Attr)
    → merged exact numeric v none ≡ (if exact || numeric then v else none)
unfolding merged
merged_plain true true none = refl
merged_plain true true (some v) = refl
merged_plain true false none = refl
merged_plain true false (some v) = refl
merged_plain false numeric v = refl

after_loops-get :
    (k : String) (sd : Dict Attr) (e : Expectations) (x : Option Attr)
    → get k e.attrs ≡ (if str_eq k "brightness" then x else none)
    → get k (after_loops sd e).attrs ≡ (
        if str_eq k "brightness"
        then first x (get k sd)
        else if mem_text k exact_keys || has k numeric_keys
        then get k sd
        else none)
unfolding after_loops merged
after_loops-get k sd e x h = elim (Bool-cases (str_eq k "brightness")) [
  | inl bright ↦ grind (
    arith,
    brightness_keys k bright,
    expect_exact-get k exact_keys sd (expect_numbers numeric_keys sd e),
    expect_numbers-get k numeric_keys sd e,
  )
  | inr plain ↦ grind (
    arith,
    expect_exact-get k exact_keys sd (expect_numbers numeric_keys sd e),
    expect_numbers-get k numeric_keys sd e,
    merged_plain (mem_text k exact_keys) (has k numeric_keys) (get k sd),
  )
]

expectations-get :
    (to_float : String → Parsed) (sd : Dict Attr) (k : String) (o : Option Expectations)
    (e : Expectations)
    → start_expectations to_float (get "brightness_pct" sd) ≡ o
    → on_some (λ e0. expect_exact exact_keys sd (expect_numbers numeric_keys sd e0)) o ≡ some e
    → get k e.attrs ≡ asked to_float sd k
unfolding after_loops
expectations-get to_float sd k none e s h = cc h
expectations-get to_float sd k (some e0) e s h =
    let q : after_loops sd e0 ≡ e = cc h in
    ap (λ x. get k x.attrs) (sym q)
    ∙ after_loops-get k sd e0 (translated_value to_float (get "brightness_pct" sd))
        (started_attrs to_float k (get "brightness_pct" sd) e0 s)

-- What a service call makes a watch expect of an attribute, where the call's percentage does not
-- raise: of the brightness, the percentage translated to the scale of 255, where it is a number,
-- and else the brightness of the call; of another attribute that is checked, the value of the
-- call; of any other attribute, nothing.
pub expectations-asked :
    (to_float : String → Parsed) (sd : Dict Attr) (e : Expectations)
    → expectations to_float sd ≡ some e
    → (k : String) → get k e.attrs ≡ asked to_float sd k
unfolding expectations
expectations-asked to_float sd e h k =
    expectations-get to_float sd k (start_expectations to_float (get "brightness_pct" sd)) e refl h
