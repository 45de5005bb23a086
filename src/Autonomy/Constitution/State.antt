-- ===== src/Autonomy/Constitution/State.antt =====
-- What `ConstitutionalState` keeps under its operations.
use glados_docker.Common.{
  Bool, Bool-cases, List, String, [], all_of, all_of-put, all_of-remove, arith, eq_iff, has, inl,
  inr, refl, str_eq, subst, true, ◌&&◌, ◌++◌, ◌∷◌, ◌≡◌,
}
use glados_docker.Autonomy.Constitution.{
  Constitution, ConstitutionalState, Numerals, PromptModifier, apply_modifier, remove_modifier,
  validate_modification,
}

pub data Op : Type 0 where
  apply_op : PromptModifier → Op
  remove_op : String → Op

unfoldable pub step : Numerals → ConstitutionalState → Op → ConstitutionalState
unfolding apply_modifier remove_modifier
step n s (apply_op m) = (apply_modifier n m s).1
step n s (remove_op field_name) = (remove_modifier field_name s).1

unfoldable pub run : Numerals → ConstitutionalState → List Op → ConstitutionalState
unfolding step
run n s [] = s
run n s (op ∷ ops) = run n (step n s op) ops

abbrev pub new_state : Constitution → ConstitutionalState
new_state c = record { constitution = c; active_modifiers = []; modifier_history = [] }

-- A modifier under the name of its field, with a value within the bounds of that field.
abbrev pub entry_valid : Numerals → Constitution → String × PromptModifier → Bool
entry_valid n c e = str_eq e.1.field_name e.0 && validate_modification n c e.1.field_name e.1.value

abbrev pub modifier_valid : Numerals → Constitution → PromptModifier → Bool
modifier_valid n c m = validate_modification n c m.field_name m.value

pub record IsValid (n : Numerals) (c : Constitution) (s : ConstitutionalState) : Type 0 where
  pub unchanged : s.constitution ≡ c
  pub active : all_of (entry_valid n c) s.active_modifiers ≡ true
  pub history : all_of (modifier_valid n c) s.modifier_history ≡ true

all_of-snoc :
    (p : PromptModifier → Bool) (xs : List PromptModifier) (x : PromptModifier)
    → p x ≡ true
    → all_of p xs ≡ true
    → all_of p (xs ++ x ∷ []) ≡ true
all_of-snoc p [] x h a = ground arith
all_of-snoc p (y ∷ xs) x h a = ground (arith, all_of-snoc p xs x h)

apply-IsValid :
    (n : Numerals) (c : Constitution) (m : PromptModifier) (s : ConstitutionalState)
    → IsValid n c s
    → IsValid n c (apply_modifier n m s).1
unfolding apply_modifier
apply-IsValid n c m s w =
    elim (Bool-cases (validate_modification n s.constitution m.field_name m.value)) [
      | inr bad ↦ rw bad w
      | inl good ↦
          let valid : validate_modification n c m.field_name m.value ≡ true =
            subst (λ d. validate_modification n d m.field_name m.value ≡ true) w.unchanged good in
          rw good (record {
            unchanged = w.unchanged;
            active =
                all_of-put (entry_valid n c) m.field_name m s.active_modifiers
                  (ground (arith, eq_iff m.field_name m.field_name)) w.active;
            history = all_of-snoc (modifier_valid n c) s.modifier_history m valid w.history;
          })
    ]

remove-IsValid :
    (n : Numerals) (c : Constitution) (field_name : String) (s : ConstitutionalState)
    → IsValid n c s
    → IsValid n c (remove_modifier field_name s).1
unfolding remove_modifier
remove-IsValid n c field_name s w = elim (Bool-cases (has field_name s.active_modifiers)) [
  | inr gone ↦ rw gone w
  | inl there ↦ rw there (record {
    unchanged = w.unchanged;
    active = all_of-remove (entry_valid n c) field_name s.active_modifiers w.active;
    history = w.history;
  })
]

step-IsValid :
    (n : Numerals) (c : Constitution) (s : ConstitutionalState) (op : Op)
    → IsValid n c s
    → IsValid n c (step n s op)
unfolding step
step-IsValid n c s (apply_op m) w = apply-IsValid n c m s w
step-IsValid n c s (remove_op field_name) w = remove-IsValid n c field_name s w

run_from-IsValid :
    (n : Numerals) (c : Constitution) (ops : List Op) (s : ConstitutionalState)
    → IsValid n c s
    → IsValid n c (run n s ops)
unfolding run
run_from-IsValid n c [] s w = w
run_from-IsValid n c (op ∷ ops) s w =
    run_from-IsValid n c ops (step n s op) (step-IsValid n c s op w)

pub modifiers-IsValid :
    (n : Numerals) (c : Constitution) (ops : List Op) → IsValid n c (run n (new_state c) ops)
modifiers-IsValid n c ops =
    run_from-IsValid n c ops (new_state c)
      (record { unchanged = refl; active = refl; history = refl })
