-- ===== src/Tests.antt =====
-- The theorems at concrete inputs.
mod Access
mod Events
mod Risks
mod Money
mod Transitions
mod Decisions
mod QueueRuns
mod Playbooks
mod EngineRuns
mod Starts
