-- ===== src/Commands/Learned/Distinct.antt =====
-- The rows of the learned context have distinct resolutions.
use glados_docker.Common.{
  Bool, Bool-cases, List, Option, String, [], all_of, any_of, arith, eq_iff, false, inl, inr, keep,
  ltb, none, not, opt_eq, refl, some, str_eq, subst, true, ℕ, ◌&&◌, ◌++◌, ◌||◌, ◌∷◌, ◌≡◌,
}
use glados_docker.Commands.Learned.{
  LearnedContextStore, LearnedRow, Resolution, is_resolution, update_rows, with_id,
}

abbrev pub resolution_of : LearnedRow → Resolution
resolution_of row = record {
  key = row.utterance_key;
  channel = row.source_channel;
  source_area = row.source_area_id;
  area = row.resolved_area_id;
  verb = row.resolved_verb;
  tier = row.resolved_tier;
}

abbrev has_resolution : Resolution → List LearnedRow → Bool
has_resolution r rows = any_of (is_resolution r) rows

-- No two rows have the same resolution.
abbrev pub distinct : List LearnedRow → Bool
distinct [] = true
distinct (row ∷ rows) = not (has_resolution (resolution_of row) rows) && distinct rows

abbrev pub is_reinforced : LearnedRow → Bool
is_reinforced row = ltb 0 row.reinforcement

str_eq_sym : (a b : String) → str_eq a b ≡ str_eq b a
str_eq_sym a b = ground (arith, eq_iff a b, eq_iff b a)

opt_eq_sym : (a b : Option String) → opt_eq a b ≡ opt_eq b a
opt_eq_sym none none = refl
opt_eq_sym none (some b) = refl
opt_eq_sym (some a) none = refl
opt_eq_sym (some a) (some b) = str_eq_sym a b

is_resolution_sym :
    (r : Resolution) (row new : LearnedRow)
    → resolution_of new ≡ r
    → is_resolution (resolution_of row) new ≡ is_resolution r row
is_resolution_sym r row new e =
    subst (λ q. is_resolution (resolution_of row) new ≡ is_resolution q row) e
      (rw
        (
          str_eq_sym new.utterance_key row.utterance_key,
          str_eq_sym new.source_channel row.source_channel,
          opt_eq_sym new.source_area_id row.source_area_id,
          str_eq_sym new.resolved_area_id row.resolved_area_id,
          str_eq_sym new.resolved_verb row.resolved_verb,
          opt_eq_sym new.resolved_tier row.resolved_tier,
        )
        refl)

any_of-keep :
    (p q : LearnedRow → Bool) (rows : List LearnedRow)
    → any_of p rows ≡ false
    → any_of p (keep q rows) ≡ false
any_of-keep p q [] h = refl
any_of-keep p q (row ∷ rows) h = ground (arith, any_of-keep p q rows)

pub distinct-keep :
    (q : LearnedRow → Bool) (rows : List LearnedRow)
    → distinct rows ≡ true
    → distinct (keep q rows) ≡ true
distinct-keep q [] h = refl
distinct-keep q (row ∷ rows) h =
    ground (arith, distinct-keep q rows, any_of-keep (is_resolution (resolution_of row)) q rows)

any_of-snoc :
    (p : LearnedRow → Bool) (rows : List LearnedRow) (new : LearnedRow)
    → any_of p (rows ++ new ∷ []) ≡ (any_of p rows || p new)
any_of-snoc p [] new = ground arith
any_of-snoc p (row ∷ rows) new = ground (arith, any_of-snoc p rows new)

pub distinct-snoc :
    (r : Resolution) (rows : List LearnedRow) (new : LearnedRow)
    → resolution_of new ≡ r
    → has_resolution r rows ≡ false
    → distinct rows ≡ true
    → distinct (rows ++ new ∷ []) ≡ true
distinct-snoc r [] new e n h = refl
distinct-snoc r (row ∷ rows) new e n h =
    let s : is_resolution (resolution_of row) new ≡ is_resolution r row =
      is_resolution_sym r row new e in
    let t = any_of-snoc (is_resolution (resolution_of row)) rows new in
    let i : distinct (rows ++ new ∷ []) ≡ true =
      distinct-snoc r rows new e (ground arith) (ground arith) in
    rw (t, s, i) (ground arith)

-- A change of a row that leaves its resolution.
pub record Keeps (f : LearnedRow → LearnedRow) : Type 0 where
  pub resolution : (row : LearnedRow) → resolution_of (f row) ≡ resolution_of row
  pub test : (q : Resolution) (row : LearnedRow) → is_resolution q (f row) ≡ is_resolution q row

any_of-update :
    (i : ℕ) (f : LearnedRow → LearnedRow) (q : Resolution) (rows : List LearnedRow)
    → Keeps f
    → has_resolution q (update_rows i f rows) ≡ has_resolution q rows
any_of-update i f q [] k = refl
any_of-update i f q (row ∷ rows) k = elim (Bool-cases (with_id i row)) [
  | inl same ↦ rw (same, k.test q row, any_of-update i f q rows k) refl
  | inr other ↦ rw (other, any_of-update i f q rows k) refl
]

pub distinct-update :
    (i : ℕ) (f : LearnedRow → LearnedRow) (rows : List LearnedRow)
    → Keeps f
    → distinct (update_rows i f rows) ≡ distinct rows
distinct-update i f [] k = refl
distinct-update i f (row ∷ rows) k = elim (Bool-cases (with_id i row)) [
  | inl same ↦
      rw
        (
          same,
          k.resolution row,
          any_of-update i f (resolution_of row) rows k,
          distinct-update i f rows k,
        )
        refl
  | inr other ↦
      rw (other, any_of-update i f (resolution_of row) rows k, distinct-update i f rows k) refl
]

pub record Sound (s : LearnedContextStore) : Type 0 where
  pub one_each : distinct s.rows ≡ true
  pub positive : all_of is_reinforced s.rows ≡ true
