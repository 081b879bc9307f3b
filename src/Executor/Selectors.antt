-- ===== src/Executor/Selectors.antt =====
-- Selectors, conditions and the operations that a zone allows (crates/game-domain/src/effects.rs).
use rust_game_harry_potter.Base.{
  ℕ, zero, String, Bool, true, false, ◌&&◌, ◌||◌, not, some, List, map, ◌==◌, nat_eq, string_eq,
  option_eq, ltb, leb, length, all, any, keep, is_some_and, is_none_or,
}
use rust_game_harry_potter.Effects.Zones.{
  EffectResource, resource_eq, control, health, EffectZone, zone_eq, active_location,
  active_villains, heroes, hero_discard_pile, hero_draw_pile, hero_hand, hero_play_area,
  hogwarts_deck, market, villain_deck, villain_discard, is_card_zone, supports_resource,
}
use rust_game_harry_potter.Effects.Entities.{EffectEntity, resource}
use rust_game_harry_potter.Effects.Rules.{
  ℤ, pos, EffectTargetOwner, other, actor, any_owner, EffectEligibility, card_type_eq,
  EffectSelector, EffectCondition, EffectOperation, EffectRule,
}
use rust_game_harry_potter.World.Store.{EffectWorld, entities_in, entity, owned_by, id_of}
use rust_game_harry_potter.Executor.Abilities.{card_type, drawing_prevented}

-- `(low..=high).contains(&n)`
abbrev pub within : ℕ → ℕ → ℕ → Bool
within low high n = leb low n && leb n high

abbrev pub has_card_types : EffectZone → Bool
has_card_types hero_hand = true
has_card_types hero_draw_pile = true
has_card_types hero_discard_pile = true
has_card_types hero_play_area = true
has_card_types hogwarts_deck = true
has_card_types market = true
has_card_types _ = false

abbrev pub eligibility_is_valid : EffectZone → EffectEligibility → Bool
eligibility_is_valid z (EffectEligibility.resource_at_least r amount) =
    ltb 0 amount && supports_resource z r
eligibility_is_valid z (EffectEligibility.card_type t) = has_card_types z

unfoldable pub selector_is_valid : EffectSelector → Bool
selector_is_valid s =
    is_none_or s.id (λ id. not (id == ""))
    && leb s.min s.max
    && all (eligibility_is_valid s.zone) s.eligibility

unfoldable pub condition_is_valid : EffectCondition → Bool
unfolding selector_is_valid
condition_is_valid EffectCondition.drawing_allowed = true
condition_is_valid (EffectCondition.has_eligible_target s) = selector_is_valid s
condition_is_valid (EffectCondition.resource_at_least s r amount) =
    selector_is_valid s && ltb 0 amount && supports_resource s.zone r

abbrev pub is_zero : ℤ → Bool
is_zero (pos zero) = true
is_zero _ = false

abbrev pub out_of_play : EffectZone → Bool
out_of_play villain_deck = true
out_of_play villain_discard = true
out_of_play _ = false

unfoldable pub operation_is_valid_for_zone : EffectOperation → EffectZone → Bool
operation_is_valid_for_zone EffectOperation.suppress_villain z = z == active_villains
operation_is_valid_for_zone (EffectOperation.discard_for_spell_bonus influence) z =
    z == hero_hand && within 1 16 influence
operation_is_valid_for_zone (EffectOperation.gain_influence_and_draw influence cards) z =
    z == heroes && within 1 16 influence && within 1 16 cards
operation_is_valid_for_zone (EffectOperation.gain_influence_and_health influence healed) z =
    z == heroes && within 1 16 influence && within 1 10 healed
operation_is_valid_for_zone EffectOperation.copy_played_ally z = z == hero_play_area
operation_is_valid_for_zone EffectOperation.prevent_drawing z = z == heroes
operation_is_valid_for_zone (EffectOperation.draw amount) z = within 1 16 amount && z == heroes
operation_is_valid_for_zone (EffectOperation.gain_attack_per_ally_played amount) z =
    within 1 16 amount && z == heroes
operation_is_valid_for_zone EffectOperation.discard z = z == hero_hand
operation_is_valid_for_zone EffectOperation.discard_voluntarily z = z == hero_hand
operation_is_valid_for_zone (EffectOperation.modify_resource r amount) z =
    not (is_zero amount)
    && supports_resource z r
    && (not (r == control) || z == active_location)
    && (not (r == health) || not (out_of_play z))
operation_is_valid_for_zone (EffectOperation.move to) z =
    is_card_zone z && is_card_zone to && not (z == to)

abbrev pub is_target_of : EffectTargetOwner → ℕ → EffectEntity → Bool
is_target_of any_owner position e = true
is_target_of actor position e = owned_by (some position) e
is_target_of other position e = is_some_and e.owner_position (λ owner. not (owner == position))

abbrev pub meets : List EffectRule → EffectEntity → EffectEligibility → Bool
meets rules e (EffectEligibility.resource_at_least r amount) = leb amount (resource e r)
meets rules e (EffectEligibility.card_type t) = card_type e rules == some t

unfoldable pub eligible_entity_ids :
    EffectWorld → ℕ → EffectSelector → List EffectRule → List String
eligible_entity_ids w position s rules = map id_of (
    keep (λ e. all (meets rules e) s.eligibility)
      (keep (is_target_of s.owner position) (entities_in w s.zone)))

abbrev pub has_at_least : EffectWorld → EffectResource → ℕ → String → Bool
has_at_least w r amount id =
    is_some_and (entity w id)
      (λ (found : EffectZone × EffectEntity). leb amount (resource found.1 r))

unfoldable pub condition_is_true : EffectWorld → ℕ → EffectCondition → List EffectRule → Bool
unfolding eligible_entity_ids
condition_is_true w position EffectCondition.drawing_allowed rules =
    not (drawing_prevented w rules)
    && any (λ hero. owned_by (some position) hero && not hero.drawing_blocked)
        (entities_in w heroes)
condition_is_true w position (EffectCondition.has_eligible_target s) rules =
    leb s.min (length (eligible_entity_ids w position s rules))
condition_is_true w position (EffectCondition.resource_at_least s r amount) rules =
    let candidates = eligible_entity_ids w position s rules in
    leb s.min (length candidates) && any (has_at_least w r amount) candidates
