-- ===== src/Ha.antt =====
-- glados/ha: the check that a service call has changed the states of its entities.
pub mod Cache
pub mod Verifier
mod Tests
mod CacheTests
mod ExpectedTests
