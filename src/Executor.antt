-- ===== src/Executor.antt =====
-- Executing effects on the table, and applying what was recorded
-- (crates/game-domain/src/effects.rs and its modules).
pub mod Abilities
pub mod Selectors
pub mod Cursors
pub mod TurnStates
pub mod Operations
pub mod Reactions
pub mod Revelations
pub mod Machine
pub mod Rules
pub mod Plan
pub mod Resume
pub mod Stun
pub mod Costs
pub mod Draw
pub mod Apply
pub mod Replay
pub mod Progress
pub mod Executions
