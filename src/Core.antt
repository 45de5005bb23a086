-- ===== src/Core.antt =====
-- glados/core: the context of a request to the language model, and the order of the shutdown.
pub mod Context
pub mod KeyStore
pub mod Knowledge
pub mod Player
pub mod Shutdown
mod Tests
mod KnowledgeTests
mod StoreTests
mod PlayerTests
