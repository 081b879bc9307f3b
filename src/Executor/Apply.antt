-- ===== src/Executor/Apply.antt =====
-- Applying recorded outcomes to a table: the replay side of event sourcing
-- (`apply_effect_outcomes` of crates/game-domain/src/effects.rs, with its helpers of game_two.rs
-- and game_three.rs).
use rust_game_harry_potter.Base.{
  ℕ, String, Bool, true, ◌&&◌, ◌||◌, not, Option, some, List, [], ◌∷◌, ◌==◌, nat_eq, string_eq,
  option_eq, ltb, ok, ◌>>=◌, ◌>>◌, ensure, ok_or, is_none, is_some, is_some_and,
}
use rust_game_harry_potter.Effects.Zones.{
  resource_eq, health, EffectResource, EffectZone, zone_eq, active_villains, hero_draw_pile,
  hero_play_area, villain_discard, is_card_zone, supports_resource,
}
use rust_game_harry_potter.Effects.Entities.{
  kind_eq, hero, villain, EffectTurnState, turn_state_eq, EffectEntity, resource, with_resource,
}
use rust_game_harry_potter.Effects.Outcomes.{
  EffectOutcome, turn_state_changed, top_card_revealed, ally_copied, drawing_was_blocked,
  random_sampled, die_rolled, moved, no_op, resource_changed, terminal, invalid_definition,
}
use rust_game_harry_potter.World.Store.{EffectWorld, entity, entity_mut, top_card_id}
use rust_game_harry_potter.World.Validity.{valid_turn_state}
use rust_game_harry_potter.World.Moves.{Outcome, move_to_back}

abbrev pub all_positions : List ℕ
all_positions = 1 ∷ 2 ∷ 3 ∷ 4 ∷ []

abbrev pub has_turn_state : EffectEntity → EffectTurnState → Bool
has_turn_state e before = e.turn_state == some before

unfoldable pub apply_turn_state :
    String → EffectTurnState → EffectTurnState → EffectWorld → Outcome EffectWorld
apply_turn_state target_id before after w = do
  found ← ok_or (entity w target_id) invalid_definition
  ensure
      (has_turn_state found.1 before
        && not (before == after)
        && valid_turn_state found.1.kind after all_positions)
      invalid_definition
  ok (entity_mut target_id (λ e. record e { turn_state = some after }) w)

unfoldable pub validate_revealed_top : String → ℕ → EffectWorld → Outcome EffectWorld
validate_revealed_top card_id owner w = do
  ensure (top_card_id w owner hero_draw_pile == some card_id) invalid_definition
  ok w

abbrev pub copyable : String → String → ℕ → Option (EffectZone × EffectEntity) → Bool
copyable card_id ally_id owner found = is_some_and found λ r.
    r.0 == hero_play_area
    && r.1.owner_position == some owner
    && is_some r.1.effect_rule_id
    && is_none r.1.copied_ally_id
    && not (card_id == ally_id)

abbrev pub copies : String → ℕ → EffectZone × EffectEntity → Bool
copies rule_id owner (z, card) =
    z == hero_play_area
    && card.owner_position == some owner
    && card.effect_rule_id == some rule_id
    && is_none card.copied_ally_id

unfoldable pub record_copy : String → String → String → ℕ → EffectWorld → Outcome EffectWorld
record_copy rule_id card_id ally_id owner w = do
  found ← ok_or (entity w card_id) invalid_definition
  ensure (copyable card_id ally_id owner (entity w ally_id) && copies rule_id owner found)
      invalid_definition
  ok (entity_mut card_id (λ e. record e { copied_ally_id = some ally_id }) w)

abbrev pub is_defeat : String → Bool
is_defeat rule_id = rule_id == "system:defeat-villain"

-- The guard of a recorded defeat; any other rule passes.
unfoldable pub defeat_is_valid : String → EffectEntity → Option ℕ → EffectZone → EffectZone → Bool
defeat_is_valid rule_id e position from to =
    not (is_defeat rule_id)
    || e.kind == villain
      && resource e health == 0
      && from == active_villains
      && to == villain_discard
      && is_none position

unfoldable pub apply_moved :
    String → String → Option ℕ → EffectZone → EffectZone → EffectWorld → Outcome EffectWorld
unfolding defeat_is_valid
apply_moved rule_id target_id position from to w = do
  found ← ok_or (entity w target_id) invalid_definition
  ensure (found.0 == from && not (from == to) && is_card_zone from && is_card_zone to)
      invalid_definition
  ensure (defeat_is_valid rule_id found.1 position from to) invalid_definition
  move_to_back target_id from to position w

unfoldable pub apply_resource_changed :
    String → Option ℕ → EffectResource → ℕ → ℕ → EffectWorld → Outcome EffectWorld
apply_resource_changed target_id position r before after w = do
  found ← ok_or (entity w target_id) invalid_definition
  ensure
      (found.1.owner_position == position
        && supports_resource found.0 r
        && resource found.1 r == before)
      invalid_definition
  ok (entity_mut target_id (with_resource r after) w)

abbrev pub is_hero_at : ℕ → EffectEntity → Bool
is_hero_at position e = e.kind == hero && e.owner_position == some position

unfoldable pub apply_drawing_blocked : String → ℕ → EffectWorld → Outcome EffectWorld
apply_drawing_blocked target_id position w = do
  found ← ok_or (entity w target_id) invalid_definition
  ensure (is_hero_at position found.1) invalid_definition
  ok (entity_mut target_id (λ e. record e { drawing_blocked = true }) w)

unfoldable pub apply_outcome : EffectOutcome → EffectWorld → Outcome EffectWorld
unfolding apply_turn_state validate_revealed_top record_copy apply_drawing_blocked apply_moved
    apply_resource_changed
apply_outcome (turn_state_changed rule_id id before after) w = apply_turn_state id before after w
apply_outcome (top_card_revealed rule_id card owner) w = validate_revealed_top card owner w
apply_outcome (ally_copied rule_id card ally owner) w = record_copy rule_id card ally owner w
apply_outcome (drawing_was_blocked rule_id id position) w = apply_drawing_blocked id position w
apply_outcome (moved rule_id id position from to) w = apply_moved rule_id id position from to w
apply_outcome (resource_changed rule_id id position r before after cause) w =
    apply_resource_changed id position r before after w
apply_outcome (random_sampled rule_id upper result) w = do
  ensure (not (upper == 0) && ltb result upper) invalid_definition
  ok w
apply_outcome (die_rolled rule_id die result) w = ok w
apply_outcome (no_op rule_id reason) w = ok w
apply_outcome (terminal rule_id outcome) w = ok w

unfoldable pub apply_effect_outcomes : List EffectOutcome → EffectWorld → Outcome EffectWorld
unfolding apply_outcome
apply_effect_outcomes [] w = ok w
apply_effect_outcomes (o ∷ os) w = do v ← apply_outcome o w; apply_effect_outcomes os v
