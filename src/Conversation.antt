-- ===== src/Conversation.antt =====
-- The conversation history: the store in memory, the table behind it and the compaction of both
-- (glados/core/conversation_store.py, conversation_db.py, glados/autonomy/agents/compaction_agent.py).
pub mod Message
pub mod Db
pub mod Store
pub mod Compaction
mod Tests
