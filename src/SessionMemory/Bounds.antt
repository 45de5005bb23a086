-- ===== src/SessionMemory/Bounds.antt =====
-- What `SessionMemory` keeps under every operation: no buffer is empty or longer than
-- `buffer_size`.
use glados_docker.Common.{
  Bool-cases, List, Option, Option-cases, String, [], arith, get, get-put, get-remove,
  get-remove_all, has, if◌then◌else◌, inl, inr, keep, keys, length, length-append, length-drop,
  length-push_bounded, mem_text-keep, mem_text-keys, none, or_else, push_bounded, put, remove, some,
  str_eq, ℕ, ◌++◌, ◌<◌, ◌∷◌, ◌≡◌, ◌≤◌,
}
use glados_docker.SessionMemory.{
  Op, SessionMemory, SessionState, Turn, active_session_count, clear, clear_op, count_op, forget,
  forget_op, gc, init, is_expired, is_stale, last_op, last_turn, recent_op, recent_turns, record_op,
  record_turn, run, step, turns_of,
}

-- The buffers hold between one turn and `buffer_size` turns.
pub record IsBounded (m : SessionMemory) : Type 0 where
  pub positive : 0 < m.buffer_size
  pub filled :
      (sid : String) (s : SessionState)
      → get sid m.sessions ≡ some s
      → (0 < length s.turns) × (length s.turns ≤ m.buffer_size)

-- After a sweep a session is there exactly if it was there and had not expired.
pub get-gc :
    (now : ℕ) (m : SessionMemory) (sid : String)
    → get sid (gc now m).sessions ≡ (elim (get sid m.sessions) [
      | none ↦ none
      | some s ↦ if is_expired m.ttl now s then none else some s
    ])
unfolding gc has
get-gc now m sid = ground (
  arith,
  get-remove_all (keep (is_stale m now) (keys m.sessions)) sid m.sessions,
  mem_text-keep (is_stale m now) sid (keys m.sessions),
  mem_text-keys sid m.sessions,
)

put_state :
    (m : SessionMemory) (sid : String) (s : SessionState)
    → IsBounded m
    → 0 < length s.turns
    → length s.turns ≤ m.buffer_size
    → IsBounded (record m { sessions = put sid s m.sessions })
put_state m sid s h lo hi = record {
  positive = h.positive;
  filled = λ j t e. ground (arith, get-put sid j s m.sessions, h.filled j t);
}

remove_state :
    (m : SessionMemory) (sid : String)
    → IsBounded m
    → IsBounded (record m { sessions = remove sid m.sessions })
remove_state m sid h = record {
  positive = h.positive;
  filled = λ j t e. ground (arith, get-remove sid j m.sessions, h.filled j t);
}

gc-IsBounded : (now : ℕ) (m : SessionMemory) → IsBounded m → IsBounded (gc now m)
gc-IsBounded now m h = record {
  positive = unfold gc in h.positive;
  filled = λ j t e. unfold gc in ground (arith, get-gc now m j, h.filled j t);
}

pub pushed_length : (n : ℕ) (q : List Turn) (t : Turn) → 0 < n → 0 < length (push_bounded n q t)
unfolding push_bounded
pushed_length n q t h = ground (arith, length-append q (t ∷ []), length-drop 1 (q ++ t ∷ []))

record_turn-IsBounded :
    (now : ℕ) (sid : String) (t : Turn) (m : SessionMemory)
    → IsBounded m
    → IsBounded (or_else (record_turn now sid t m) m)
unfolding record_turn
record_turn-IsBounded now sid t m h = elim (Bool-cases (str_eq sid "")) [
  | inl e ↦ rw e h
  | inr e ↦ rw e (
      gc-IsBounded now _ (
        put_state m sid _ h (pushed_length _ _ t h.positive)
          (length-push_bounded _ _ t (fits m h))))
]
  where
    fits :
        (m : SessionMemory) → IsBounded m → length (turns_of (get sid m.sessions)) ≤ m.buffer_size
    fits m h = elim (Option-cases (get sid m.sessions)) [
      | inl e ↦ rw e (omega arith)
      | inr (s, e) ↦ rw e (h.filled sid s e).1
    ]

recent_turns-IsBounded :
    (now : ℕ) (sid : String) (limit : Option ℕ) (m : SessionMemory)
    → IsBounded m
    → IsBounded (recent_turns now sid limit m).1
unfolding recent_turns
recent_turns-IsBounded now sid limit m h = elim (Option-cases (get sid m.sessions)) [
  | inl e ↦ rw e h
  | inr (s, e) ↦ rw e (elim (Bool-cases (is_expired m.ttl now s)) [
    | inl x ↦ rw x (remove_state m sid h)
    | inr x ↦ rw x (put_state m sid _ h (h.filled sid s e).0 (h.filled sid s e).1)
  ])
]

nothing : (j : String) (t : SessionState) → get j [] ≡ some t → ⊥
unfolding get
nothing j t g = cc

step-IsBounded : (op : Op) (m : SessionMemory) → IsBounded m → IsBounded (step m op)
unfolding step last_turn active_session_count forget clear
step-IsBounded (record_op now sid t) m h = record_turn-IsBounded now sid t m h
step-IsBounded (recent_op now sid limit) m h = recent_turns-IsBounded now sid limit m h
step-IsBounded (last_op now sid) m h = recent_turns-IsBounded now sid (some 1) m h
step-IsBounded (forget_op sid) m h = remove_state m sid h
step-IsBounded clear_op m h = record {
  positive = h.positive;
  filled = λ j t e. absurd (nothing j t e);
}
step-IsBounded (count_op now) m h = gc-IsBounded now m h

run_from-IsBounded : (ops : List Op) (m : SessionMemory) → IsBounded m → IsBounded (run m ops)
unfolding run
run_from-IsBounded [] m h = h
run_from-IsBounded (op ∷ ops) m h = run_from-IsBounded ops (step m op) (step-IsBounded op m h)

-- After any calls on a memory that the constructor accepted, every stored session has at least one
-- turn and at most `buffer_size` of them.
pub run-IsBounded :
    (buffer_size ttl : ℕ) (m : SessionMemory) (ops : List Op)
    → init buffer_size ttl ≡ some m
    → IsBounded (run m ops)
unfolding init
run-IsBounded buffer_size ttl m ops e =
    run_from-IsBounded ops m
      (record { positive = ground arith; filled = λ j t g. absurd (nothing j t (ground arith)) })
