-- ===== src/World/WholeTable.antt =====
-- The validity of a whole table for the positions that play (crates/game-domain/src/effects.rs).
use Prim.Native.String.{len}
use rust_game_harry_potter.Base.{
  ℕ, String, Bool, false, ◌&&◌, ◌||◌, not, some, List, [], ◌∷◌, map, ◌==◌, nat_eq, string_eq,
  option_eq, if◌then◌else◌, ltb, is_some, is_none, is_some_and, is_none_or, is_empty, all, any,
  contains, count, length,
}
use rust_game_harry_potter.Effects.Zones.{
  EffectResource, attack, control, health, influence, EffectZone, zone_eq, active_location,
  hero_play_area, heroes, location_deck, supports_resource,
}
use rust_game_harry_potter.Effects.Resources
use rust_game_harry_potter.Effects.Entities.{kind_eq, location, EffectEntity}
use rust_game_harry_potter.Shuffling.Sorting.{sort}
use rust_game_harry_potter.World.Store.{EffectWorld, entities_in, entities, entity, owned_by}
use rust_game_harry_potter.World.Validity.{
  max_choice_value_length, valid_turn_state, entity_is_valid_in_zone,
}

abbrev pub resources : List EffectResource
resources = attack ∷ control ∷ health ∷ influence ∷ []

unfoldable pub valid_copied_ally : EffectWorld → EffectEntity → Bool
valid_copied_ally w card = is_none_or card.copied_ally_id λ id. is_some_and (entity w id) λ found.
    found.0 == hero_play_area
    && not (card.id == id)
    && found.1.owner_position == card.owner_position
    && is_none found.1.copied_ally_id
    && is_some found.1.effect_rule_id

-- `ids.windows(2).any(|pair| pair[0] == pair[1])`
abbrev pub adjacent_equal : List String → Bool
adjacent_equal [] = false
adjacent_equal (x ∷ []) = false
adjacent_equal (x ∷ y ∷ xs) = x == y || adjacent_equal (y ∷ xs)

-- A resource that the entity has and its zone does not support, or that is above its limit.
abbrev pub bad_resource : EffectZone → EffectEntity → EffectResource → Bool
bad_resource z e r = is_some_and (Resources.get e.resources r) λ value.
    not (supports_resource z r)
    || is_some_and (Resources.get e.resource_limits r) (λ limit. ltb limit value)

-- One disjunct of `entities().any(...)` per line of the source's closure.
unfoldable pub misplaced : EffectWorld → List ℕ → EffectZone × EffectEntity → Bool
misplaced w positions (z, e) =
    is_some_and e.owner_position (λ position. not (contains positions position))
    || z == heroes && is_none e.owner_position
    || any (bad_resource z e) resources
    || is_some_and e.turn_state (λ s. not (valid_turn_state e.kind s positions))
    || not (entity_is_valid_in_zone e z)
    || not (valid_copied_ally w e)

unfoldable pub locations_are_wrong : EffectWorld → Bool
locations_are_wrong w =
    let locations = count (λ (p : EffectZone × EffectEntity). p.1.kind == location) (entities w) in
    let active = length (entities_in w active_location) in
    ltb 0 locations && (ltb 1 active || active == 0 && not (is_empty (entities_in w location_deck)))

unfoldable pub is_valid_for_positions : EffectWorld → List ℕ → Bool
is_valid_for_positions w positions =
    let ids = sort (map (λ (p : EffectZone × EffectEntity). p.1.id) (entities w)) in
    if any (λ id. id == "" || ltb max_choice_value_length (len id)) ids
      || adjacent_equal ids
      || any (misplaced w positions) (entities w)
    then false
    else if locations_are_wrong w
    then false
    else all (λ position. count (owned_by (some position)) (entities_in w heroes) == 1) positions
