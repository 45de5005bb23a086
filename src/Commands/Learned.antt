-- ===== src/Commands/Learned.antt =====
-- glados/core/learned_context.py: `LearnedContextStore`. The table is the list of its rows in the
-- order of their ids. `normalize_utterance` is an argument (the class of word characters is
-- Unicode's). Times are numbers of clock ticks. Of rows that the order of a lookup does not tell
-- apart, the one with the smaller id comes first.
pub mod Distinct
pub mod Rows
use glados_docker.Common.{
  Bool, List, Option, String, [], find_first, if◌then◌else◌, keep, leb, length, ltb, map, none, not,
  opt_eq, some, str_eq, take, ℕ, ◌&&◌, ◌++◌, ◌+◌, ◌-◌, ◌==◌, ◌||◌, ◌∷◌,
}

pub record LearnedRow : Type 0 where
  pub id : ℕ
  pub utterance_key : String
  pub source_channel : String
  pub source_area_id : Option String
  pub resolved_area_id : String
  pub resolved_verb : String
  pub resolved_tier : Option String
  pub reinforcement : ℕ
  pub first_seen_at : ℕ
  pub last_used_at : ℕ

pub record LearnedContextStore : Type 0 where
  pub ttl : ℕ
  pub rows : List LearnedRow
  pub next_id : ℕ

-- `none` is `ValueError`.
unfoldable pub open_learned : ℕ → Option LearnedContextStore
open_learned ttl = if leb ttl 0 then none else some (record { ttl = ttl; rows = []; next_id = 1 })

-- What identifies a resolution.
pub record Resolution : Type 0 where
  pub key : String
  pub channel : String
  pub source_area : Option String
  pub area : String
  pub verb : String
  pub tier : Option String

abbrev pub is_resolution : Resolution → LearnedRow → Bool
is_resolution r row =
    str_eq row.utterance_key r.key
    && (str_eq row.source_channel r.channel
        && (opt_eq row.source_area_id r.source_area
            && (str_eq row.resolved_area_id r.area
                && (str_eq row.resolved_verb r.verb && opt_eq row.resolved_tier r.tier))))

abbrev pub with_id : ℕ → LearnedRow → Bool
with_id i row = row.id == i

-- `UPDATE ... WHERE id = ?`
abbrev pub update_rows : ℕ → (LearnedRow → LearnedRow) → List LearnedRow → List LearnedRow
update_rows i f rows = map (λ row. if with_id i row then f row else row) rows

abbrev pub reinforced : ℕ → LearnedRow → LearnedRow
reinforced now row = record row { reinforcement = row.reinforcement + 1; last_used_at = now }

abbrev pub weakened : LearnedRow → LearnedRow
weakened row = record row { reinforcement = row.reinforcement - 1 }

abbrev pub new_learned_row : ℕ → ℕ → Resolution → LearnedRow
new_learned_row now i r = record {
  id = i;
  utterance_key = r.key;
  source_channel = r.channel;
  source_area_id = r.source_area;
  resolved_area_id = r.area;
  resolved_verb = r.verb;
  resolved_tier = r.tier;
  reinforcement = 1;
  first_seen_at = now;
  last_used_at = now;
}

abbrev pub upsert : ℕ → Resolution → LearnedContextStore → Option LearnedRow → LearnedContextStore
upsert now r s none = record s {
  rows = s.rows ++ new_learned_row now s.next_id r ∷ [];
  next_id = s.next_id + 1;
}
upsert now r s (some row) = record s { rows = update_rows row.id (reinforced now) s.rows }

abbrev pub incomplete : Resolution → Bool
incomplete r = str_eq r.key "" || (str_eq r.area "" || str_eq r.verb "")

-- On a normalized utterance. `none` is `ValueError`.
unfoldable pub record_success : ℕ → Resolution → LearnedContextStore → Option LearnedContextStore
record_success now r s =
    if incomplete r then none else some (upsert now r s (find_first (is_resolution r) s.rows))

abbrev pub spent : ℕ → LearnedRow → Bool
spent i row = with_id i row && row.reinforcement == 0

unfoldable pub bump_failure : ℕ → LearnedContextStore → LearnedContextStore
bump_failure i s = record s {
  rows = keep (λ row. not (spent i row)) (update_rows i weakened s.rows);
}

unfoldable pub forget_row : ℕ → LearnedContextStore → LearnedContextStore
forget_row i s = record s { rows = keep (λ row. not (with_id i row)) s.rows }

abbrev stronger : LearnedRow → LearnedRow → Bool
stronger a b =
    ltb b.reinforcement a.reinforcement
    || (a.reinforcement == b.reinforcement && leb b.last_used_at a.last_used_at)

-- `ORDER BY reinforcement DESC, last_used_at DESC`
unfoldable pub insert_strongest : LearnedRow → List LearnedRow → List LearnedRow
insert_strongest a [] = a ∷ []
insert_strongest a (b ∷ rows) = if stronger a b then a ∷ b ∷ rows else b ∷ insert_strongest a rows

unfoldable pub strongest_first : List LearnedRow → List LearnedRow
unfolding insert_strongest
strongest_first [] = []
strongest_first (a ∷ rows) = insert_strongest a (strongest_first rows)

abbrev pub is_candidate : String → String → Option String → LearnedRow → Bool
is_candidate key channel source_area row =
    str_eq row.utterance_key key
    && (str_eq row.source_channel channel
        && (opt_eq row.source_area_id source_area && ltb 0 row.reinforcement))

-- On a normalized utterance.
unfoldable pub lookup : String → String → Option String → ℕ → LearnedContextStore → List LearnedRow
unfolding strongest_first
lookup key channel source_area limit s =
    if str_eq key ""
    then []
    else take limit (strongest_first (keep (is_candidate key channel source_area) s.rows))

abbrev pub decayed : ℕ → ℕ → LearnedRow → Bool
decayed now ttl row = row.reinforcement == 0 || ltb (row.last_used_at + ttl) now

unfoldable pub sweep : ℕ → LearnedContextStore → ℕ × LearnedContextStore
sweep now s =
    let rows = keep (λ row. not (decayed now s.ttl row)) s.rows in
    (length s.rows - length rows, record s { rows = rows })
