-- ===== src/Observability/Tests.antt =====
-- The bus at a concrete sequence of calls.
use glados_docker.Common.{List, [], map, push_bounded, refl, take_last, ℕ, ◌++◌, ◌∷◌, ◌≡◌}
use glados_docker.Observability.Bus.{ObservabilityEvent, clear, drain, init, publish, take_items}
use glados_docker.Observability.Bus.Log.{
  Op, clear_op, drain_op, log_of, publish_op, run, run-log_of, step,
}

abbrev event : ℕ → ObservabilityEvent
event n = record {
  timestamp = n;
  source = "autonomy";
  kind = "task";
  message = "m";
  level = "info";
  meta = "{}";
}

abbrev calls : List Op
calls =
    publish_op (event 1)
    ∷ clear_op
    ∷ publish_op (event 2)
    ∷ publish_op (event 3)
    ∷ drain_op 2
    ∷ publish_op (event 4)
    ∷ []

run-log_of_example :
    (let (b, out) = run (init 2, []) calls in
      (b.history ≡ take_last b.max_history (log_of [] calls)) × (out ++ b.queue ≡ log_of [] calls))
run-log_of_example = run-log_of 2 calls

bounded : map (λ e. e.timestamp) (run (init 2, []) calls).0.history ≡ 3 ∷ 4 ∷ []
unfolding run step init publish drain clear take_items push_bounded
bounded = refl
