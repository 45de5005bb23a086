-- ===== src/Commands/Learned/Rows.antt =====
-- What `LearnedContextStore` keeps: one row for a resolution, with a positive reinforcement.
use glados_docker.Common.{
  Bool, Bool-cases, List, Option, [], all_of, any_of, arith, false, find_first, inl, inr, keep,
  none, not, or_else, refl, some, true, ℕ, ◌++◌, ◌∙◌, ◌∷◌, ◌≡◌,
}
use glados_docker.Commands.Learned.{
  LearnedContextStore, LearnedRow, Resolution, bump_failure, decayed, forget_row, incomplete,
  is_resolution, new_learned_row, open_learned, record_success, reinforced, spent, sweep,
  update_rows, upsert, weakened, with_id,
}
use glados_docker.Commands.Learned.Distinct.{
  Sound, distinct-keep, distinct-snoc, distinct-update, is_reinforced,
}

pub data StoreOp : Type 0 where
  success_op : ℕ → Resolution → StoreOp
  failure_op : ℕ → StoreOp
  forget_op : ℕ → StoreOp
  sweep_op : ℕ → StoreOp

-- The store after a call; a `ValueError` leaves it as it was.
unfoldable pub step_store : LearnedContextStore → StoreOp → LearnedContextStore
unfolding record_success bump_failure forget_row sweep
step_store s (success_op now r) = or_else (record_success now r s) s
step_store s (failure_op i) = bump_failure i s
step_store s (forget_op i) = forget_row i s
step_store s (sweep_op now) = (sweep now s).1

unfoldable pub run_store : LearnedContextStore → List StoreOp → LearnedContextStore
unfolding step_store
run_store s [] = s
run_store s (op ∷ ops) = run_store (step_store s op) ops

positive-keep :
    (q : LearnedRow → Bool) (rows : List LearnedRow)
    → all_of is_reinforced rows ≡ true
    → all_of is_reinforced (keep q rows) ≡ true
positive-keep q [] h = refl
positive-keep q (row ∷ rows) h = ground (arith, positive-keep q rows)

positive-snoc :
    (rows : List LearnedRow) (new : LearnedRow)
    → is_reinforced new ≡ true
    → all_of is_reinforced rows ≡ true
    → all_of is_reinforced (rows ++ new ∷ []) ≡ true
positive-snoc [] new n h = ground arith
positive-snoc (row ∷ rows) new n h = ground (arith, positive-snoc rows new)

positive-reinforced :
    (now i : ℕ) (rows : List LearnedRow)
    → all_of is_reinforced rows ≡ true
    → all_of is_reinforced (update_rows i (reinforced now) rows) ≡ true
positive-reinforced now i [] h = refl
positive-reinforced now i (row ∷ rows) h = ground (arith, positive-reinforced now i rows)

positive-weakened :
    (i : ℕ) (rows : List LearnedRow)
    → all_of is_reinforced rows ≡ true
    → all_of is_reinforced (keep (λ row. not (spent i row)) (update_rows i weakened rows)) ≡ true
positive-weakened i [] h = refl
positive-weakened i (row ∷ rows) h = ground (arith, positive-weakened i rows)

find-none :
    (p : LearnedRow → Bool) (rows : List LearnedRow)
    → find_first p rows ≡ none
    → any_of p rows ≡ false
find-none p [] h = refl
find-none p (row ∷ rows) h = ground (arith, find-none p rows)

upsert-Sound :
    (now : ℕ) (r : Resolution) (s : LearnedContextStore) (o : Option LearnedRow)
    → find_first (is_resolution r) s.rows ≡ o
    → Sound s
    → Sound (upsert now r s o)
upsert-Sound now r s none e h = record {
  one_each =
      distinct-snoc r s.rows (new_learned_row now s.next_id r) refl
        (find-none (is_resolution r) s.rows e) h.one_each;
  positive = positive-snoc s.rows (new_learned_row now s.next_id r) refl h.positive;
}
upsert-Sound now r s (some row) e h = record {
  one_each =
      distinct-update row.id (reinforced now) s.rows
        (record { resolution = λ row. refl; test = λ q row. refl })
      ∙ h.one_each;
  positive = positive-reinforced now row.id s.rows h.positive;
}

success-Sound :
    (now : ℕ) (r : Resolution) (s : LearnedContextStore)
    → Sound s
    → Sound (or_else (record_success now r s) s)
unfolding record_success
success-Sound now r s h = elim (Bool-cases (incomplete r)) [
  | inl bad ↦ rw bad h
  | inr good ↦ rw good (upsert-Sound now r s (find_first (is_resolution r) s.rows) refl h)
]

step_store-Sound : (s : LearnedContextStore) (op : StoreOp) → Sound s → Sound (step_store s op)
unfolding step_store bump_failure forget_row sweep
step_store-Sound s (success_op now r) h = success-Sound now r s h
step_store-Sound s (failure_op i) h = record {
  one_each =
      distinct-keep (λ row. not (spent i row)) (update_rows i weakened s.rows)
        (distinct-update i weakened s.rows
            (record { resolution = λ row. refl; test = λ q row. refl })
          ∙ h.one_each);
  positive = positive-weakened i s.rows h.positive;
}
step_store-Sound s (forget_op i) h = record {
  one_each = distinct-keep (λ row. not (with_id i row)) s.rows h.one_each;
  positive = positive-keep (λ row. not (with_id i row)) s.rows h.positive;
}
step_store-Sound s (sweep_op now) h = record {
  one_each = distinct-keep (λ row. not (decayed now s.ttl row)) s.rows h.one_each;
  positive = positive-keep (λ row. not (decayed now s.ttl row)) s.rows h.positive;
}

run_from-Sound : (s : LearnedContextStore) (ops : List StoreOp) → Sound s → Sound (run_store s ops)
unfolding run_store
run_from-Sound s [] h = h
run_from-Sound s (op ∷ ops) h = run_from-Sound (step_store s op) ops (step_store-Sound s op h)

-- After any calls on a store that was opened, no two rows have the same utterance, channel, areas,
-- verb and tier, and each row has a positive reinforcement.
pub run_store-Sound :
    (ttl : ℕ) (s : LearnedContextStore) (ops : List StoreOp)
    → open_learned ttl ≡ some s
    → Sound (run_store s ops)
unfolding open_learned
run_store-Sound ttl s ops e =
    run_from-Sound s ops (record { one_each = ground arith; positive = ground arith })
