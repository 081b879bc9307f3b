-- ===== src/Engine.antt =====
-- The turn engine (crates/game-domain/src/lib.rs).
pub mod Types
pub mod EndTurn
pub mod Control
pub mod Heroes
