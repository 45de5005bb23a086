-- ===== src/Autonomy/Constitution/Bridge.antt =====
-- glados/autonomy/constitution.py: `EmotionConstitutionBridge`.
use glados_docker.Common.{
  Bool, Bool-cases, List, String, [], all_of, ap, append-cons, append-nil, arith, false,
  if◌then◌else◌, inl, inr, leb, less_int, map, max_int, min_int, negsuc, not, pos, put, refl,
  str_append, subst, sym, true, ℕ, ℤ, ◌++◌, ◌+◌, ◌-◌, ◌∙◌, ◌∷◌, ◌≡◌,
}
use glados_docker.Autonomy.Emotion.{EmotionState, minus}
use glados_docker.Autonomy.Constitution.{
  Constitution, ConstitutionalState, Numerals, PromptModifier, apply_modifier, number,
  validate_modification,
}

pub record EmotionConstitutionBridge : Type 0 where
  pub default_snark : ℤ
  pub default_proactivity : ℤ
  pub default_verbosity : ℤ
  pub pleasure_threshold : ℤ
  pub arousal_threshold : ℤ
  pub dominance_threshold : ℤ
  pub snark_adjustment : ℕ
  pub proactivity_adjustment : ℕ
  pub verbosity_adjustment : ℕ

abbrev pub default_bridge : EmotionConstitutionBridge
default_bridge = record {
  default_snark = pos 60;
  default_proactivity = pos 50;
  default_verbosity = pos 50;
  pleasure_threshold = minus 30;
  arousal_threshold = pos 30;
  dominance_threshold = minus 30;
  snark_adjustment = 15;
  proactivity_adjustment = 10;
  verbosity_adjustment = 10;
}

-- `x + n` and `x - n`
abbrev plus : ℤ → ℕ → ℤ
plus (pos a) n = pos (a + n)
plus (negsuc a) n = if leb n a then negsuc (a - n) else pos (n - a - 1)

abbrev less_by : ℤ → ℕ → ℤ
less_by (pos a) n = if leb n a then pos (a - n) else negsuc (n - a - 1)
less_by (negsuc a) n = negsuc (a + n)

-- One block of `compute_modifiers`: the modifier where the emotion asks for it and it is valid.
unfoldable pub proposal :
    Numerals → Constitution → ℕ → Bool → String → ℤ → String → List PromptModifier
unfolding validate_modification
proposal n c now asked name value reason =
    if not asked
    then []
    else if validate_modification n c name (number value)
    then record { field_name = name; value = number value; reason = reason; applied_at = now } ∷ []
    else []

abbrev reason_for : Numerals → String → ℤ → String → String
reason_for n before v after = str_append before (str_append (n.two_decimals v) after)

module _ (n : Numerals) (b : EmotionConstitutionBridge) (now : ℕ) (emotion : EmotionState)
    (c : Constitution) where
  -- The three blocks.
  unfoldable pub snark_modifiers : List PromptModifier
  unfolding proposal
  snark_modifiers =
      proposal n c now (less_int emotion.pleasure b.pleasure_threshold) "snark_level"
        (min_int (pos 100) (plus b.default_snark b.snark_adjustment))
        (reason_for n "Low pleasure (" emotion.pleasure ") increasing snark")

  unfoldable pub proactivity_modifiers : List PromptModifier
  unfolding proposal
  proactivity_modifiers =
      proposal n c now (less_int b.arousal_threshold emotion.arousal) "proactivity"
        (min_int (pos 100) (plus b.default_proactivity b.proactivity_adjustment))
        (reason_for n "High arousal (" emotion.arousal ") increasing proactivity")

  unfoldable pub verbosity_modifiers : List PromptModifier
  unfolding proposal
  verbosity_modifiers =
      proposal n c now (less_int emotion.dominance b.dominance_threshold) "verbosity"
        (max_int (pos 0) (less_by b.default_verbosity b.verbosity_adjustment))
        (reason_for n "Low dominance (" emotion.dominance ") reducing verbosity")

  unfoldable pub compute_modifiers : List PromptModifier
  unfolding snark_modifiers proactivity_modifiers verbosity_modifiers
  compute_modifiers = snark_modifiers ++ (proactivity_modifiers ++ verbosity_modifiers)

-- The loop of `apply_emotion_modifiers`.
unfoldable pub apply_all :
    Numerals → List PromptModifier → ConstitutionalState → List String × ConstitutionalState
unfolding apply_modifier
apply_all n [] s = ([], s)
apply_all n (m ∷ ms) s =
    let (ok, s1) = apply_modifier n m s in
    let (applied, s2) = apply_all n ms s1 in ((if ok then m.field_name ∷ applied else applied), s2)

unfoldable pub apply_emotion_modifiers :
    Numerals
    → EmotionConstitutionBridge
    → ℕ
    → EmotionState
    → ConstitutionalState
    → List String × ConstitutionalState
unfolding compute_modifiers apply_all
apply_emotion_modifiers n b now emotion s =
    apply_all n (compute_modifiers n b now emotion s.constitution) s

abbrev pub is_valid : Numerals → Constitution → PromptModifier → Bool
is_valid n c m = validate_modification n c m.field_name m.value

proposal-valid :
    (n : Numerals) (c : Constitution) (now : ℕ) (asked : Bool) (name : String) (value : ℤ)
    (reason : String)
    → all_of (is_valid n c) (proposal n c now asked name value reason) ≡ true
unfolding proposal
proposal-valid n c now false name value reason = refl
proposal-valid n c now true name value reason =
    elim (Bool-cases (validate_modification n c name (number value))) [
      | inl good ↦ rw good (ground (arith, good))
      | inr bad ↦ rw bad refl
    ]

all_of-append :
    (p : PromptModifier → Bool) (xs ys : List PromptModifier)
    → all_of p xs ≡ true
    → all_of p ys ≡ true
    → all_of p (xs ++ ys) ≡ true
all_of-append p [] ys h g = g
all_of-append p (x ∷ xs) ys h g = ground (arith, all_of-append p xs ys)

compute-valid :
    (n : Numerals) (b : EmotionConstitutionBridge) (now : ℕ) (emotion : EmotionState)
    (c : Constitution)
    → all_of (is_valid n c) (compute_modifiers n b now emotion c) ≡ true
unfolding compute_modifiers
compute-valid n b now emotion c =
    all_of-append (is_valid n c) (snark_modifiers n b now emotion c)
      (proactivity_modifiers n b now emotion c ++ verbosity_modifiers n b now emotion c)
      (unfold snark_modifiers in proposal-valid n c now _ _ _ _)
      (all_of-append (is_valid n c) (proactivity_modifiers n b now emotion c)
        (verbosity_modifiers n b now emotion c)
        (unfold proactivity_modifiers in proposal-valid n c now _ _ _ _)
        (unfold verbosity_modifiers in proposal-valid n c now _ _ _ _))

-- Where all are valid, all are applied, in their order.
apply_all-lem :
    (n : Numerals) (c : Constitution) (ms : List PromptModifier) (s : ConstitutionalState)
    → s.constitution ≡ c
    → all_of (is_valid n c) ms ≡ true
    → ((apply_all n ms s).0 ≡ map (λ m. m.field_name) ms)
      × ((apply_all n ms s).1.modifier_history ≡ s.modifier_history ++ ms)
unfolding apply_all apply_modifier
apply_all-lem n c [] s e h = (refl, sym (append-nil s.modifier_history))
apply_all-lem n c (m ∷ ms) s e h =
    let good : validate_modification n s.constitution m.field_name m.value ≡ true =
      subst (λ d. validate_modification n d m.field_name m.value ≡ true) (sym e) (ground arith) in
    let s1 : ConstitutionalState = record s {
      active_modifiers = put m.field_name m s.active_modifiers;
      modifier_history = s.modifier_history ++ m ∷ [];
    } in
    let (p, q) = apply_all-lem n c ms s1 e (ground arith) in
    rw good (ap (◌∷◌ m.field_name) p, q ∙ append-cons s.modifier_history m ms)

-- Whatever the emotion, the bridge and the constitution: every modifier that the bridge computes is
-- within its bounds and is applied, in their order; the names that are returned are theirs, and the
-- history grows by them.
pub apply_emotion-computed :
    (n : Numerals) (b : EmotionConstitutionBridge) (now : ℕ) (emotion : EmotionState)
    (s : ConstitutionalState)
    → (let ms = compute_modifiers n b now emotion s.constitution in
        let (applied, s') = apply_emotion_modifiers n b now emotion s in
        (all_of (is_valid n s.constitution) ms ≡ true)
        × (applied ≡ map (λ m. m.field_name) ms)
        × (s'.modifier_history ≡ s.modifier_history ++ ms))
unfolding apply_emotion_modifiers
apply_emotion-computed n b now emotion s =
    let valid = compute-valid n b now emotion s.constitution in
    let ms = compute_modifiers n b now emotion s.constitution in
    let (p, q) = apply_all-lem n s.constitution ms s refl valid in (valid, p, q)
