-- ===== src/Effects.antt =====
-- The data of game-domain's effects: resources, zones, entities, rules and outcomes
-- (crates/game-domain/src/effects.rs).
pub mod Zones
pub mod Resources
pub mod Entities
pub mod Rules
pub mod Outcomes
pub mod Choices
pub mod Validity
