-- ===== src/Autonomy/Emotion/Bands.antt =====
-- The bands of the pleasure, and the ranges of a saved state.
use glados_docker.Autonomy.Emotion.{
  annoyed_rules, clamp, contemptuous_rules, hostile_rules, menacing_rules, minus, pad_band_name,
  pleased_rules, tone_rules,
}
use glados_docker.Common.{
  Bool, List, String, arith, false, if◌then◌else◌, leq_int, negsuc, pos, refl, str_eq, true, ℤ,
  ◌&&◌, ◌≡◌,
}

-- The rules of a band, by its name.
abbrev pub rules_of_band : String → List String
rules_of_band band =
    if str_eq band "pleased"
    then pleased_rules
    else if str_eq band "contemptuous"
    then contemptuous_rules
    else if str_eq band "annoyed"
    then annoyed_rules
    else if str_eq band "hostile"
    then hostile_rules
    else menacing_rules

rules_of_if :
    (a b c d : Bool)
    → rules_of_band (
        if a
        then "pleased"
        else if b
        then "contemptuous"
        else if c
        then "annoyed"
        else if d
        then "hostile"
        else "menacing")
      ≡ (if a
          then pleased_rules
          else if b
          then contemptuous_rules
          else if c
          then annoyed_rules
          else if d
          then hostile_rules
          else menacing_rules)
rules_of_if true b c d = refl
rules_of_if false true c d = refl
rules_of_if false false true d = refl
rules_of_if false false false true = refl
rules_of_if false false false false = refl

-- Between -1 and 1.
abbrev pub in_range : ℤ → Bool
in_range v = leq_int (minus 100) v && leq_int v (pos 100)

-- At every pleasure, the rules of the directive are those of the band that `pad_band_name` gives to
-- the callers that follow it.
pub tone-pad_band_name : (p : ℤ) → rules_of_band (pad_band_name p) ≡ tone_rules p
unfolding pad_band_name tone_rules
tone-pad_band_name p =
    rules_of_if (leq_int (pos 30) p) (leq_int (minus 20) p) (leq_int (minus 50) p)
      (leq_int (minus 70) p)

pub clamp-in_range : (v : ℤ) → in_range (clamp v) ≡ true
unfolding clamp
clamp-in_range (pos a) = ground arith
clamp-in_range (negsuc a) = ground arith

pub clamp_same : (v : ℤ) → in_range v ≡ true → clamp v ≡ v
unfolding clamp
clamp_same (pos a) h = ground arith
clamp_same (negsuc a) h = ground arith
