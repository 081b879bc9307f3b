-- ===== src/Executor/Stun.antt =====
-- Changing a resource, and the stun of a hero whose health reaches zero
-- (crates/game-domain/src/effects.rs).
pub mod Replay
use rust_game_harry_potter.Base.{
  ℕ, suc, ◌-◌, ◌/◌, String, Bool, ◌&&◌, not, Option, none, some, List, [], ◌∷◌, ◌++◌, ◌==◌, nat_eq,
  if◌then◌else◌, ltb, ok, ◌>>=◌, ok_or, length,
}
use rust_game_harry_potter.Effects.Zones.{
  EffectResource, resource_eq, attack, control, health, influence, active_location, hero_hand,
}
use rust_game_harry_potter.Effects.Entities.{
  kind_eq, hero, EffectEntity, resource, resource_limit, with_resource, saturating_add, u16_max,
}
use rust_game_harry_potter.Effects.Rules.{ℤ, pos, negsuc}
use rust_game_harry_potter.Effects.Outcomes.{
  EffectChangeCause, effect, EffectOutcome, resource_changed, invalid_definition,
}
use rust_game_harry_potter.World.Store.{EffectWorld, entities_in, entity, entity_mut, cards_in_zone}
use rust_game_harry_potter.World.Moves.{Outcome}

-- The four `&mut` arguments of the operations: the table, the recorded outcomes, the random source
-- and the count of its samples. An operation that takes fewer leaves the others alone.
pub record Table (S : Type 0) : Type 0 where
  pub world : EffectWorld
  pub outcomes : List EffectOutcome
  pub roller : S
  pub rolls_consumed : ℕ

abbrev pub stun_rule_id : String
stun_rule_id = "system:stunned"

abbrev pub u16_min : ℕ → ℕ → ℕ
u16_min a b = if ltb b a then b else a

-- `unwrap_or(u16::MAX)`
abbrev pub limit_or_max : Option ℕ → ℕ
limit_or_max none = u16_max
limit_or_max (some m) = m

abbrev pub adjusted : ℕ → ℤ → Option ℕ → ℕ
adjusted before (negsuc n) limit = before - suc n
adjusted before (pos n) limit = u16_min (saturating_add before n) (limit_or_max limit)

-- The value after a change: a stunned hero's health stays at zero.
unfoldable pub changed : EffectEntity → EffectResource → ℤ → ℕ
changed e r amount =
    if e.kind == hero && r == health && resource e r == 0
    then 0
    else adjusted (resource e r) amount (resource_limit e r)

abbrev pub newly_stunned : EffectEntity → EffectResource → ℕ → Bool
newly_stunned e r after = e.kind == hero && r == health && ltb 0 (resource e r) && after == 0

abbrev pub only_one : List EffectEntity → Option EffectEntity
only_one (e ∷ []) = some e
only_one _ = none

module _ {S : Type 0} where
  -- A write of one resource of an entity, with its recorded outcome.
  abbrev pub set_resource :
      String → String → Option ℕ → EffectResource → ℕ → ℕ → EffectChangeCause → Table S → Table S
  set_resource rule_id id position r before after cause t = record t {
    world = entity_mut id (with_resource r after) t.world;
    outcomes = t.outcomes ++ resource_changed rule_id id position r before after cause ∷ [];
  }

  unfoldable pub reset_one : EffectResource → String → ℕ → Table S → Outcome (Table S)
  reset_one r hero_id position t = do
    found ← ok_or (entity t.world hero_id) invalid_definition
    if resource found.1 r == 0
        then ok t
        else ok
            (set_resource stun_rule_id hero_id (some position) r (resource found.1 r) 0 effect t)

  -- Whether the hero must discard: half of the hand, rounded down, is not empty.
  unfoldable pub apply_stun_resource_reset : String → ℕ → Table S → Outcome (Table S × Bool)
  unfolding reset_one
  apply_stun_resource_reset hero_id position t = do
    t1 ← reset_one attack hero_id position t
    t2 ← reset_one influence hero_id position t1
    ok (t2, not (length (cards_in_zone t2.world position hero_hand) / 2 == 0))

  -- A stun adds one control to the active location, up to its limit.
  unfoldable pub finish_stun : Table S → Outcome (Table S)
  finish_stun t = do
    location ← ok_or (only_one (entities_in t.world active_location)) invalid_definition
    maximum ← ok_or (resource_limit location control) invalid_definition
    found ← ok_or (entity t.world location.id) invalid_definition
    ok (
        set_resource stun_rule_id location.id none control (resource location control)
          (u16_min (saturating_add (resource location control) 1) maximum) effect t)

  -- `Some(position)`: the hero at that position has to choose cards to discard.
  unfoldable pub stun : String → Option ℕ → Table S → Outcome (Table S × Option ℕ)
  unfolding apply_stun_resource_reset finish_stun
  stun hero_id owner t = do
    position ← ok_or owner invalid_definition
    reset ← apply_stun_resource_reset hero_id position t
    if reset.1 then ok (reset.0, some position) else do done ← finish_stun reset.0; ok (done, none)

  unfoldable pub modify_entity_resource :
      String → String → EffectResource → ℤ → Table S → Outcome (Table S × Option ℕ)
  unfolding changed stun
  modify_entity_resource entity_id rule_id r amount t = do
    found ← ok_or (entity t.world entity_id) invalid_definition
    let e = found.1
    let after = changed e r amount
    let t1 = set_resource rule_id e.id e.owner_position r (resource e r) after effect t
    if newly_stunned e r after then stun e.id e.owner_position t1 else ok (t1, none)
