-- ===== src/Observability.antt =====
-- glados/observability: the bus of events.
pub mod Bus
mod Tests
