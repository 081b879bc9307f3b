-- ===== src/World/Validity.antt =====
-- When an entity may stand in a zone, and when a whole table is valid
-- (crates/game-domain/src/effects.rs, crates/game-domain/src/effects/game_three.rs).
use rust_game_harry_potter.Base.{
  ℕ, String, Bool, true, false, ◌&&◌, ◌||◌, not, Option, List, [], ◌∷◌, ◌==◌, nat_eq, string_eq,
  option_eq, if◌then◌else◌, ltb, leb, is_some, is_none, is_some_and, is_none_or, is_empty, all,
  contains,
}
use rust_game_harry_potter.Effects.Zones.{
  control, health, EffectZone, zone_eq, active_location, active_villains, dark_arts_deck,
  dark_arts_discard, hero_discard_pile, hero_draw_pile, hero_hand, hero_play_area, heroes,
  hogwarts_deck, location_deck, location_discard, market, villain_deck, villain_discard,
}
use rust_game_harry_potter.Effects.Resources.{ResourceMap, resource_map_eq}
use rust_game_harry_potter.Effects.Resources
use rust_game_harry_potter.Effects.Entities.{
  EffectEntityKind, kind_eq, dark_arts, generic, hero, hogwarts_card, location, starter_card,
  villain, EffectTurnState, EffectEntity, resource, resource_limit, hero_max_health,
}

abbrev pub max_choice_value_length : ℕ
max_choice_value_length = 256

-- `windows(2).all(|pair| pair[0] < pair[1])`
abbrev pub strictly_increasing : List ℕ → Bool
strictly_increasing [] = true
strictly_increasing (x ∷ []) = true
strictly_increasing (x ∷ y ∷ xs) = ltb x y && strictly_increasing (y ∷ xs)

abbrev pub valid_positions : List ℕ → List ℕ → Bool
valid_positions positions values =
    strictly_increasing values && all (λ v. contains positions v) values

unfoldable pub valid_state_for_kind : EffectEntityKind → EffectTurnState → Bool
valid_state_for_kind hero s = is_none s.attack_limit && is_empty s.suppressed_by
valid_state_for_kind villain s = not s.ability_used && is_empty s.healed_positions
valid_state_for_kind hogwarts_card s =
    is_empty s.healed_positions
    && s.attack_assigned == 0
    && is_none s.attack_limit
    && is_empty s.suppressed_by
valid_state_for_kind _ s = false

unfoldable pub valid_turn_state : EffectEntityKind → EffectTurnState → List ℕ → Bool
unfolding valid_state_for_kind
valid_turn_state kind s positions =
    valid_positions positions s.healed_positions
    && valid_positions positions s.suppressed_by
    && is_none_or s.attack_limit (λ limit. leb 1 limit && leb limit 16)
    && valid_state_for_kind kind s

-- `is_some_and(|id| !id.is_empty())`
abbrev pub named : Option String → Bool
named o = is_some_and o (λ id. not (id == ""))

abbrev pub hero_catalog : String → Bool
hero_catalog id = id == "hero:002" || id == "hero:005" || id == "hero:008" || id == "hero:011"

unfoldable pub valid_hero_entity : EffectEntity → EffectZone → Bool
valid_hero_entity e z =
    z == heroes
    && is_some e.owner_position
    && (if is_some e.turn_state
        then is_some_and e.catalog_id hero_catalog && named e.effect_rule_id
        else is_none e.catalog_id && is_none e.effect_rule_id)
    && is_none e.reward_rule_id
    && is_none e.influence_cost
    && is_none e.dark_arts_count
    && e.resource_limits == Resources.insert health hero_max_health Resources.empty

unfoldable pub valid_dark_arts_entity : EffectEntity → EffectZone → Bool
valid_dark_arts_entity e z =
    (z == dark_arts_deck || z == dark_arts_discard)
    && is_none e.owner_position
    && named e.catalog_id
    && named e.effect_rule_id
    && is_none e.reward_rule_id
    && is_none e.influence_cost
    && e.resources == Resources.empty
    && e.resource_limits == Resources.empty
    && is_none e.dark_arts_count

abbrev pub hero_pile : EffectZone → Bool
hero_pile hero_draw_pile = true
hero_pile hero_hand = true
hero_pile hero_play_area = true
hero_pile hero_discard_pile = true
hero_pile _ = false

abbrev pub shop : EffectZone → Bool
shop hogwarts_deck = true
shop market = true
shop _ = false

unfoldable pub valid_starter_card : EffectEntity → EffectZone → Bool
valid_starter_card e z =
    hero_pile z
    && is_some e.owner_position
    && named e.catalog_id
    && named e.effect_rule_id
    && is_none e.influence_cost
    && is_none e.reward_rule_id
    && e.resource_limits == Resources.empty
    && is_none e.dark_arts_count

abbrev pub bool_eq : Bool → Bool → Bool
bool_eq true b = b
bool_eq false b = not b

unfoldable pub valid_hogwarts_card : EffectEntity → EffectZone → Bool
valid_hogwarts_card e z =
    (shop z || hero_pile z)
    && named e.catalog_id
    && named e.effect_rule_id
    && is_some e.influence_cost
    && is_none e.reward_rule_id
    && bool_eq (shop z) (is_none e.owner_position)
    && e.resource_limits == Resources.empty
    && is_none e.dark_arts_count

unfoldable pub valid_location : EffectEntity → EffectZone → Bool
valid_location e z =
    (z == active_location || z == location_deck || z == location_discard)
    && is_none e.owner_position
    && named e.catalog_id
    && named e.effect_rule_id
    && is_none e.influence_cost
    && is_none e.reward_rule_id
    && Resources.size e.resources == 1
    && is_some (Resources.get e.resources control)
    && Resources.size e.resource_limits == 1
    && is_some_and (resource_limit e control) (λ limit. ltb 0 limit)
    && is_some_and e.dark_arts_count (λ n. ltb 0 n)

unfoldable pub valid_villain_entity : EffectEntity → EffectZone → Bool
valid_villain_entity e z =
    (z == villain_deck || z == active_villains || z == villain_discard)
    && is_none e.owner_position
    && named e.catalog_id
    && named e.effect_rule_id
    && is_none e.influence_cost
    && is_some (Resources.get e.resources health)
    && is_none_or e.reward_rule_id (λ id. not (id == ""))
    && (e.resource_limits == Resources.empty
        || Resources.size e.resource_limits == 1
          && is_some_and (resource_limit e health) (λ m. ltb 0 m && leb (resource e health) m))
    && is_none e.dark_arts_count

unfoldable pub valid_kind_in_zone : EffectEntityKind → EffectEntity → EffectZone → Bool
unfolding valid_dark_arts_entity valid_hero_entity valid_starter_card valid_hogwarts_card
    valid_location valid_villain_entity
valid_kind_in_zone dark_arts e z = valid_dark_arts_entity e z
valid_kind_in_zone generic e z = true
valid_kind_in_zone hero e z = valid_hero_entity e z
valid_kind_in_zone starter_card e z = valid_starter_card e z
valid_kind_in_zone hogwarts_card e z = valid_hogwarts_card e z
valid_kind_in_zone location e z = valid_location e z
valid_kind_in_zone villain e z = valid_villain_entity e z

-- The two early returns, then the `match` on the kind.
unfoldable pub entity_is_valid_in_zone : EffectEntity → EffectZone → Bool
unfolding valid_kind_in_zone
entity_is_valid_in_zone e z =
    if is_some e.copied_ally_id
      && (not (z == hero_play_area) || not (e.kind == starter_card || e.kind == hogwarts_card))
    then false
    else if e.drawing_blocked && not (e.kind == hero)
    then false
    else valid_kind_in_zone e.kind e z

unfoldable pub owner_transition_is_valid :
    EffectEntityKind → EffectZone → EffectZone → Option ℕ → Option ℕ → Bool
owner_transition_is_valid hogwarts_card from to current destination =
    if shop from && hero_pile to
    then is_none current && is_some destination
    else if shop from && shop to
    then is_none current && is_none destination
    else is_some current && current == destination
owner_transition_is_valid starter_card from to current destination =
    is_some current && current == destination
owner_transition_is_valid dark_arts from to current destination =
    is_none current && is_none destination
owner_transition_is_valid location from to current destination =
    is_none current && is_none destination
owner_transition_is_valid villain from to current destination =
    is_none current && is_none destination
owner_transition_is_valid generic from to current destination = current == destination
owner_transition_is_valid hero from to current destination = current == destination
