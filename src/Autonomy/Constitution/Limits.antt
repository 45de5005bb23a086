-- ===== src/Autonomy/Constitution/Limits.antt =====
-- The values that modifiers can have, by the constitution alone.
use glados_docker.Common.{
  Bool-cases, Dict, List, Option, String, [], all_of, any_of, ap, arith, eq_iff, get, get_elem?,
  inl, inr, leq_int, negsuc, none, pos, refl, some, str_eq, subst, suc, sym, true, values, zero, ℕ,
  ℤ, ◌++◌, ◌∙◌, ◌∷◌, ◌≡◌, ◌≤◌,
}
use glados_docker.Autonomy.Constitution.{
  Bound, Constitution, ConstitutionalState, Numerals, PromptModifier, Value, as_float,
  between_numbers, float_between, in_bound, nothing, number, one_of, same_int, same_value, text,
  unchecked, validate_modification,
}
use glados_docker.Autonomy.Constitution.State.{
  Op, entry_valid, modifier_valid, modifiers-IsValid, new_state, run,
}

-- `a ≤ b`
abbrev pub AtMost : ℤ → ℤ → Type 0
AtMost (pos a) (pos b) = a ≤ b
AtMost (pos a) (negsuc b) = ⊥
AtMost (negsuc a) (pos b) = Unit {0}
AtMost (negsuc a) (negsuc b) = b ≤ a

-- A value is a number, or a text that `float` reads as one, between the two ends; it is one of the
-- categories; or the bound is not checked. A field without a bound has no value.
abbrev pub Permits : Numerals → Value → Option Bound → Type 0
Permits n v none = ⊥
Permits n v (some (between_numbers lo hi)) =
    (x : ℤ) × (as_float n v ≡ some x) × AtMost lo x × AtMost x hi
Permits n v (some (one_of values)) =
    (before : List Value) × (after : List Value) × (values ≡ before ++ v ∷ after)
Permits n v (some unchecked) = Unit {0}

pub record IsWithin (n : Numerals) (c : Constitution) (s : ConstitutionalState) : Type 0 where
  pub unchanged : s.constitution ≡ c
  pub active :
      (name : String) (m : PromptModifier)
      → get name s.active_modifiers ≡ some m
      → (m.field_name ≡ name) × Permits n m.value (get name c.modifiable_bounds)
  pub history :
      (i : ℕ) (m : PromptModifier)
      → get_elem? s.modifier_history i ≡ some m
      → Permits n m.value (get m.field_name c.modifiable_bounds)

AtMost-leq_int : (a b : ℤ) → leq_int a b ≡ true → AtMost a b
AtMost-leq_int (pos a) (pos b) h = ground (arith, h)
AtMost-leq_int (pos a) (negsuc b) h = cc h
AtMost-leq_int (negsuc a) (pos b) h = tt
AtMost-leq_int (negsuc a) (negsuc b) h = ground (arith, h)

same_int_eq : (a b : ℤ) → same_int a b ≡ true → a ≡ b
same_int_eq (pos a) (pos b) h = ap pos (ground (arith, h))
same_int_eq (pos a) (negsuc b) h = cc h
same_int_eq (negsuc a) (pos b) h = cc h
same_int_eq (negsuc a) (negsuc b) h = ap negsuc (ground (arith, h))

same_value_eq : (a b : Value) → same_value a b ≡ true → a ≡ b
same_value_eq (number a) (number b) h = ap number (same_int_eq a b h)
same_value_eq (number a) (text b) h = cc h
same_value_eq (number a) nothing h = cc h
same_value_eq (text a) (text b) h = ap text ((eq_iff a b).0 h)
same_value_eq (text a) (number b) h = cc h
same_value_eq (text a) nothing h = cc h
same_value_eq nothing nothing h = refl
same_value_eq nothing (number b) h = cc h
same_value_eq nothing (text b) h = cc h

category :
    (n : Numerals) (v : Value) (values : List Value)
    → any_of (same_value v) values ≡ true
    → Permits n v (some (one_of values))
category n v [] h = cc h
category n v (w ∷ values) h = elim (Bool-cases (same_value v w)) [
  | inl same ↦ ([], values, ap (λ x. x ∷ values) (sym (same_value_eq v w same)))
  | inr other' ↦
      let (before, after, e) = category n v values (ground (arith, h, other')) in
      (w ∷ before, after, ap (λ xs. w ∷ xs) e)
]

between :
    (lo hi : ℤ) (o : Option ℤ)
    → float_between lo hi o ≡ true
    → (x : ℤ) × (o ≡ some x) × AtMost lo x × AtMost x hi
between lo hi none h = cc h
between lo hi (some x) h =
    (x, refl, AtMost-leq_int lo x (ground (arith, h)), AtMost-leq_int x hi (ground (arith, h)))

permitted : (n : Numerals) (v : Value) (o : Option Bound) → in_bound n v o ≡ true → Permits n v o
permitted n v none h = cc h
permitted n v (some (between_numbers lo hi)) h = between lo hi (as_float n v) h
permitted n v (some (one_of values)) h = category n v values h
permitted n v (some unchecked) h = tt

valid_entry :
    (n : Numerals) (c : Constitution) (d : Dict PromptModifier)
    → all_of (entry_valid n c) d ≡ true
    → (name : String) (m : PromptModifier) → get name d ≡ some m
    → (m.field_name ≡ name) × (validate_modification n c name m.value ≡ true)
unfolding get
valid_entry n c [] a name m h = cc h
valid_entry n c ((k, w) ∷ d) a name m h = elim (Bool-cases (str_eq k name)) [
  | inl here ↦
      let q : w ≡ m = cc (rw here at h) in
      let named : w.field_name ≡ name =
        (eq_iff w.field_name k).0 (ground (arith, a)) ∙ (eq_iff k name).0 here in
      let valid : validate_modification n c w.field_name w.value ≡ true = ground (arith, a) in
      subst (λ x. (x.field_name ≡ name) × (validate_modification n c name x.value ≡ true)) q
        (named, subst (λ k. validate_modification n c k w.value ≡ true) named valid)
  | inr there ↦ valid_entry n c d (ground (arith, a)) name m (grind (arith, h, there))
]

valid_history :
    (n : Numerals) (c : Constitution) (ms : List PromptModifier)
    → all_of (modifier_valid n c) ms ≡ true
    → (i : ℕ) (m : PromptModifier) → get_elem? ms i ≡ some m
    → modifier_valid n c m ≡ true
valid_history n c [] a i m h = cc h
valid_history n c (w ∷ ms) a zero m h =
    let q : w ≡ m = cc h in subst (λ x. modifier_valid n c x ≡ true) q (ground (arith, a))
valid_history n c (w ∷ ms) a (suc i) m h = valid_history n c ms (ground (arith, a)) i m h

-- After any modifiers are proposed and removed, starting with none: the constitution is the same;
-- each active modifier is under the name of its field and has a value that the bound of that field
-- permits, a number between its ends, a text that reads as one, or one of its categories; and so
-- has each modifier of the history.
pub modifiers-IsWithin :
    (n : Numerals) (c : Constitution) (ops : List Op) → IsWithin n c (run n (new_state c) ops)
unfolding validate_modification
modifiers-IsWithin n c ops =
    let v = modifiers-IsValid n c ops in
    record {
      unchanged = v.unchanged;
      active = λ name m h.
          let (e, ok) =
            valid_entry n c (run n (new_state c) ops).active_modifiers v.active name m h in
          (e, permitted n m.value (get name c.modifiable_bounds) ok);
      history = λ i m h.
          permitted n m.value (get m.field_name c.modifiable_bounds)
            (valid_history n c (run n (new_state c) ops).modifier_history v.history i m h);
    }
