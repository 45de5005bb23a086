-- ===== src/Observability/Bus/Log.antt =====
-- The bus against a log of all events since it was last cleared.
use glados_docker.Common.{
  Bool-cases, List, [], ap, append-cons, append_assoc, arith, drop, drop-append, inl, inr, length,
  length-append, length-drop, ltb, push_bounded, refl, suc, sym, take_last, zero, ℕ, ◌++◌, ◌-◌, ◌<◌,
  ◌∙◌, ◌∷◌, ◌≡◌,
}
use glados_docker.Observability.Bus.{
  ObservabilityBus, ObservabilityEvent, clear, drain, init, publish, take_items,
}

pub data Op : Type 0 where
  publish_op : ObservabilityEvent → Op
  drain_op : ℕ → Op
  clear_op : Op

-- The bus, and what has been drained since it was last cleared.
unfoldable pub step :
    ObservabilityBus × List ObservabilityEvent → Op → ObservabilityBus × List ObservabilityEvent
unfolding publish drain clear
step (b, out) (publish_op e) = (publish e b, out)
step (b, out) (drain_op n) = let (events, b') = drain n b in (b', out ++ events)
step (b, out) clear_op = (clear b, [])

unfoldable pub run :
    ObservabilityBus × List ObservabilityEvent
    → List Op
    → ObservabilityBus × List ObservabilityEvent
unfolding step
run s [] = s
run s (op ∷ ops) = run (step s op) ops

-- The log that the operations make of a log.
abbrev pub log_of : List ObservabilityEvent → List Op → List ObservabilityEvent
log_of log [] = log
log_of log (publish_op e ∷ ops) = log_of (log ++ e ∷ []) ops
log_of log (drain_op n ∷ ops) = log_of log ops
log_of log (clear_op ∷ ops) = log_of [] ops

drop_one : (m : ℕ) (xs : List ObservabilityEvent) → drop 1 (drop m xs) ≡ drop (suc m) xs
drop_one zero [] = refl
drop_one zero (x ∷ xs) = refl
drop_one (suc m) [] = refl
drop_one (suc m) (x ∷ xs) = drop_one m xs

drop_nil : (m : ℕ) → drop {A = ObservabilityEvent} m [] ≡ []
drop_nil zero = refl
drop_nil (suc m) = refl

-- A bounded history is the end of the log.
push-take_last :
    (n : ℕ) (xs : List ObservabilityEvent) (x : ObservabilityEvent)
    → push_bounded n (take_last n xs) x ≡ take_last n (xs ++ x ∷ [])
unfolding push_bounded
push-take_last n xs x = elim (Bool-cases (ltb n (length (take_last n xs ++ x ∷ [])))) [
  | inl long ↦
      let long_lem : suc (length xs - n) ≡ length (xs ++ x ∷ []) - n = ground (
        arith,
        long,
        length-append (take_last n xs) (x ∷ []),
        length-drop (length xs - n) xs,
        length-append xs (x ∷ []),
      ) in
      rw long (
        ap (drop 1) (sym (drop-append (length xs - n) xs (x ∷ []) (omega arith)))
        ∙ drop_one (length xs - n) (xs ++ x ∷ [])
        ∙ ap (λ m. drop m (xs ++ x ∷ [])) long_lem)
  | inr short ↦ rw short (
      let fits : length xs < n =
        ground
          (arith, short, length-append (take_last n xs) (x ∷ []), length-drop (length xs - n) xs) in
      let a : length xs - n ≡ 0 = omega arith in
      let b : length (xs ++ x ∷ []) - n ≡ 0 = omega (arith, length-append xs (x ∷ [])) in
      rw (a, b) refl)
]

take_items-lem :
    (n : ℕ) (queue events : List ObservabilityEvent)
    → (let (out, rest) = take_items n queue events in out ++ rest) ≡ events ++ queue
unfolding take_items
take_items-lem zero queue events = refl
take_items-lem (suc n) [] events = refl
take_items-lem (suc n) (e ∷ queue) events =
    take_items-lem n queue (events ++ e ∷ []) ∙ append-cons events e queue

-- The history is the end of the log, and what was drained with what is in the queue is the log.
pub record Agrees (s : ObservabilityBus × List ObservabilityEvent) (log : List ObservabilityEvent)
    : Type 0 where
  pub recent : s.0.history ≡ take_last s.0.max_history log
  pub in_order : s.1 ++ s.0.queue ≡ log

step-Agrees :
    (s : ObservabilityBus × List ObservabilityEvent) (log : List ObservabilityEvent) (op : Op)
    → Agrees s log
    → Agrees (step s op) (log_of log (op ∷ []))
unfolding step publish drain clear
step-Agrees (b, out) log (publish_op e) a = record {
  recent = ap (λ h. push_bounded b.max_history h e) a.recent ∙ push-take_last b.max_history log e;
  in_order = sym (append_assoc out b.queue (e ∷ [])) ∙ ap (λ xs. xs ++ e ∷ []) a.in_order;
}
step-Agrees (b, out) log (drain_op n) a = record {
  recent = a.recent;
  in_order =
      append_assoc out (take_items n b.queue []).0 (take_items n b.queue []).1
      ∙ ap (λ xs. out ++ xs) (take_items-lem n b.queue [])
      ∙ a.in_order;
}
step-Agrees (b, out) log clear_op a = record {
  recent = sym (drop_nil (0 - b.max_history));
  in_order = refl;
}

run-Agrees :
    (s : ObservabilityBus × List ObservabilityEvent) (log : List ObservabilityEvent) (ops : List Op)
    → Agrees s log
    → Agrees (run s ops) (log_of log ops)
unfolding run
run-Agrees s log [] a = a
run-Agrees s log (publish_op e ∷ ops) a =
    run-Agrees (step s (publish_op e)) (log ++ e ∷ []) ops (step-Agrees s log (publish_op e) a)
run-Agrees s log (drain_op n ∷ ops) a =
    run-Agrees (step s (drain_op n)) log ops (step-Agrees s log (drain_op n) a)
run-Agrees s log (clear_op ∷ ops) a =
    run-Agrees (step s clear_op) [] ops (step-Agrees s log clear_op a)

init-Agrees : (max_history : ℕ) → Agrees (init max_history, []) []
unfolding init
init-Agrees max_history = record { recent = sym (drop_nil (0 - max_history)); in_order = refl }

-- After any calls, starting with an empty bus: the history is the last `max_history` of the events
-- that were published since the last `clear`; what was drained since then, followed by what is
-- still in the queue, is all of them in their order.
pub run-log_of :
    (max_history : ℕ) (ops : List Op)
    → (let (b, out) = run (init max_history, []) ops in
        (b.history ≡ take_last b.max_history (log_of [] ops)) × (out ++ b.queue ≡ log_of [] ops))
run-log_of max_history ops =
    let a = run-Agrees (init max_history, []) [] ops (init-Agrees max_history) in
    (a.recent, a.in_order)
