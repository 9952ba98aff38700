-- ===== src/Core.antt =====
-- packages/core: the vocabulary that every other package shares.
pub mod Outcome
pub mod Compliance
pub mod Authority
pub mod Events
