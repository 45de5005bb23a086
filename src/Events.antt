-- ===== src/Events.antt =====
-- glados/events: rules that answer state changes of Home Assistant with one action.
pub mod Config
pub mod State
pub mod Decision
pub mod Router
pub mod Action
mod DecisionTests
mod Tests
