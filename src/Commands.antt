-- ===== src/Commands.antt =====
-- glados/core and glados/intent: the one door for the commands to the home: the session's carry-over,
-- the learned guesses, and the two tiers.
pub mod Anaphora
pub mod Learned
pub mod Resolver
mod Tests
