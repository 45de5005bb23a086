-- ===== src/Observability/Bus.antt =====
-- glados/observability/bus.py: `ObservabilityBus`. The dictionary `meta` of an event is its text.
-- Each of the two structures has its own lock; the operations are in one order.
pub mod Log
use glados_docker.Common.{
  List, Option, String, [], none, push_bounded, some, suc, take_last, zero, ℕ, ◌++◌, ◌∷◌,
}

pub record ObservabilityEvent : Type 0 where
  pub timestamp : ℕ
  pub source : String
  pub kind : String
  pub message : String
  pub level : String
  pub meta : String

pub record ObservabilityBus : Type 0 where
  pub max_history : ℕ
  pub queue : List ObservabilityEvent
  pub history : List ObservabilityEvent

unfoldable pub init : ℕ → ObservabilityBus
init max_history = record { max_history = max_history; queue = []; history = [] }

unfoldable pub publish : ObservabilityEvent → ObservabilityBus → ObservabilityBus
unfolding push_bounded
publish event b = record b {
  history = push_bounded b.max_history b.history event;
  queue = b.queue ++ event ∷ [];
}

-- `emit` builds the event and publishes it.
unfoldable pub emit :
    ℕ
    → String
    → String
    → String
    → String
    → String
    → ObservabilityBus
    → ObservabilityEvent × ObservabilityBus
unfolding publish
emit now source kind message level meta b =
    let event : ObservabilityEvent = record {
      timestamp = now;
      source = source;
      kind = kind;
      message = message;
      level = level;
      meta = meta;
    } in
    (event, publish event b)

-- The loop of `drain`: it ends at an empty queue.
unfoldable pub take_items :
    ℕ
    → List ObservabilityEvent
    → List ObservabilityEvent
    → List ObservabilityEvent × List ObservabilityEvent
take_items zero queue events = (events, queue)
take_items (suc n) [] events = (events, [])
take_items (suc n) (e ∷ queue) events = take_items n queue (events ++ e ∷ [])

unfoldable pub drain : ℕ → ObservabilityBus → List ObservabilityEvent × ObservabilityBus
unfolding take_items
drain max_items b =
    let (events, queue) = take_items max_items b.queue [] in (events, record b { queue = queue })

abbrev pub last_events : Option ℕ → List ObservabilityEvent → List ObservabilityEvent
last_events none events = events
last_events (some zero) events = events
last_events (some (suc n)) events = take_last (suc n) events

unfoldable pub snapshot : Option ℕ → ObservabilityBus → List ObservabilityEvent
snapshot limit b = last_events limit b.history

-- The loop that empties the queue ends with an empty one.
unfoldable pub clear : ObservabilityBus → ObservabilityBus
clear b = record b { history = []; queue = [] }
