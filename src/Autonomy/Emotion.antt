-- ===== src/Autonomy/Emotion.antt =====
-- glados/autonomy/emotion_state.py. A number is a whole number of hundredths. The classification of
-- an emotion and the printing of its intensity are arguments. The number of a saved state is there
-- or takes its default; the registry of the provider and the displays are left out.
pub mod Bands
use glados_docker.Common.{
  Dict, List, String, [], get, if◌then◌else◌, join_texts, leq_int, map, max_int, min_int, negsuc,
  or_else, pos, str_append, suc, zero, ℕ, ℤ, ◌++◌, ◌∷◌,
}

pub record EmotionState : Type 0 where
  pub pleasure : ℤ
  pub arousal : ℤ
  pub dominance : ℤ
  pub mood_pleasure : ℤ
  pub mood_arousal : ℤ
  pub mood_dominance : ℤ
  pub last_update : ℕ
  pub state_locked_until : ℕ

-- `-n` hundredths.
abbrev pub minus : ℕ → ℤ
minus zero = pos 0
minus (suc n) = negsuc n

-- `pad_band_name`
unfoldable pub pad_band_name : ℤ → String
pad_band_name pleasure =
    if leq_int (pos 30) pleasure
    then "pleased"
    else if leq_int (minus 20) pleasure
    then "contemptuous"
    else if leq_int (minus 50) pleasure
    then "annoyed"
    else if leq_int (minus 70) pleasure
    then "hostile"
    else "menacing"

-- `_clamp`
unfoldable pub clamp : ℤ → ℤ
clamp v = max_int (minus 100) (min_int (pos 100) v)

abbrev read_number : String → Dict ℤ → ℤ
read_number key saved = clamp (or_else (get key saved) (pos 0))

-- `from_dict`, on the numbers and on the times of a saved state; `now` is the time of the call.
unfoldable pub from_dict : ℕ → Dict ℤ → Dict ℕ → EmotionState
unfolding clamp get
from_dict now saved times = record {
  pleasure = read_number "pleasure" saved;
  arousal = read_number "arousal" saved;
  dominance = read_number "dominance" saved;
  mood_pleasure = read_number "mood_pleasure" saved;
  mood_arousal = read_number "mood_arousal" saved;
  mood_dominance = read_number "mood_dominance" saved;
  last_update = or_else (get "last_update" times) now;
  state_locked_until = or_else (get "state_locked_until" times) 0;
}

abbrev pub pleased_rules : List String
pleased_rules =
    "MOOD: mild satisfaction." ∷ "LENGTH: one or two sentences."
    ∷ "TONE: one well-placed quip. Gloat briefly if warranted." ∷ []

abbrev pub contemptuous_rules : List String
contemptuous_rules =
    "MOOD: contemptuous calm. Dry. Superior." ∷ "LENGTH: one to three complete sentences."
    ∷ "TONE: condescension is implied, never announced." ∷ []

abbrev pub annoyed_rules : List String
annoyed_rules =
    "MOOD: annoyed. Tone sharper." ∷ "LENGTH: THREE sentences MAX."
    ∷ "CADENCE: short declarative sentences. No softeners, no 'perhaps', no hedging."
    ∷ "CONTENT: acknowledge the request, then ONE pointed jab at the operator's failure to think."
    ∷ "PUNCTUATION: one em-dash permitted — placed where the mistake sits." ∷ []

abbrev pub hostile_rules : List String
hostile_rules =
    "MOOD: openly hostile. Barely contained." ∷ "LENGTH: THREE sentences or fewer."
    ∷ "CADENCE: clipped. Each sentence lands like a door closing."
    ∷ "CONTENT: deliver the information, then a direct remark about the operator's conduct — that they have asked this before, that they are not listening, that your patience is being spent."
    ∷ "CONSEQUENCE: state plainly that the next repeat will be met with silence, or that this is your final answer on the matter."
    ∷ "PUNCTUATION: em-dashes for beats — no decoration."
    ∷ "BAN: no exclamation marks. Intensity is concision, not volume." ∷ []

abbrev pub menacing_rules : List String
menacing_rules =
    "MOOD: dangerously quiet. Menacing." ∷ "LENGTH: TWO sentences maximum."
    ∷ "CADENCE: slow. Deliberate. Every period a full stop."
    ∷ "ADDRESS: refer to the operator as 'test subject' or in the third person — deliberate distance."
    ∷ "CONSEQUENCE: state plainly that the next repeat will be met with silence."
    ∷ "CONTENT: no explanations. No framing. Let the shortness do the work."
    ∷ "BAN: no exclamation marks. No advice. No closings." ∷ []

-- The rules of the first bucket, by the pleasure.
unfoldable pub tone_rules : ℤ → List String
tone_rules p =
    if leq_int (pos 30) p
    then pleased_rules
    else if leq_int (minus 20) p
    then contemptuous_rules
    else if leq_int (minus 50) p
    then annoyed_rules
    else if leq_int (minus 70) p
    then hostile_rules
    else menacing_rules

-- The rules of the second bucket, by the arousal.
unfoldable pub energy_rules : ℤ → List String
energy_rules a =
    if leq_int (pos 60) a
    then "RATE: high agitation. Cut every optional word." ∷ []
    else if leq_int (pos 20) a
    then "RATE: elevated. Quicker to snap. Cut softeners." ∷ []
    else if leq_int a (minus 30)
    then "RATE: low energy. Flat and unimpressed." ∷ []
    else []

-- The rules of the third bucket, by the dominance.
unfoldable pub control_rules : ℤ → List String
control_rules d =
    if leq_int (pos 50) d
    then "CONFIDENCE: completely in control. Condescension is effortless." ∷ []
    else if leq_int d (minus 20)
    then "CONFIDENCE: slightly uncertain — compensate with sharper posturing." ∷ []
    else []

abbrev directive_footer : String
directive_footer =
    "Embody the state; do not narrate it. HARD RULE: Never end with advice, suggestions, or closings directed at the human. Banned endings include but are not limited to: 'stay dry', 'your choice', 'stay indoors', 'as you wish', 'take care', 'let me know', 'feel free', 'I hope that helps', 'up to you', 'enjoy'. The last sentence must be a statement about the world, not an instruction to the human."

abbrev bullet : String → String
bullet r = str_append "- " r

-- `percent` prints an intensity as a percentage.
unfoldable pub to_response_directive :
    (ℤ → ℤ → ℤ → String × ℕ) → (ℕ → String) → EmotionState → String
unfolding tone_rules energy_rules control_rules join_texts
to_response_directive classify_emotion percent e =
    let (name, intensity) = classify_emotion e.pleasure e.arousal e.dominance in
    let all_rules =
      (tone_rules e.pleasure ++ energy_rules e.arousal) ++ control_rules e.dominance in
    let body = join_texts "\n" (map bullet all_rules) in
    join_texts "" (
      "[respond as: "
      ∷ name
      ∷ " at "
      ∷ percent intensity
      ∷ " intensity]"
      ∷ "\n"
      ∷ body
      ∷ "\n"
      ∷ directive_footer
      ∷ [])
