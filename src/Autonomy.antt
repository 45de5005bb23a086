-- ===== src/Autonomy.antt =====
-- glados/autonomy: the slots that report on background tasks, the tasks that fill them, the loop,
-- the jobs that are run at intervals, the life and the memory of the subagents, the emotions and the
-- constitution.
pub mod Emotion
pub mod Constitution
pub mod Slots
pub mod Tasks
pub mod Scheduler
pub mod Memory
pub mod Subagents
pub mod Loop
mod Tests
mod LoopTests
mod SubagentTests
mod EmotionTests
