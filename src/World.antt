-- ===== src/World.antt =====
-- The table of the game: every entity in its zone (`EffectWorld` of
-- crates/game-domain/src/effects.rs).
pub mod Store
pub mod Validity
pub mod WholeTable
pub mod Moves
pub mod Census
pub mod Named
pub mod Lookup
pub mod Upkeep
pub mod Lengths
pub mod Ordering
pub mod Conservation
