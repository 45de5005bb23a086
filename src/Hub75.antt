-- ===== src/Hub75.antt =====
-- glados/hub75: the frames of the eye display.
pub mod Ddp
mod Tests
