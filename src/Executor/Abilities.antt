-- ===== src/Executor/Abilities.antt =====
-- What the cards in play say about drawing, control and damage
-- (crates/game-domain/src/effects/reactions.rs).
use rust_game_harry_potter.Base.{
  ℕ, suc, ◌-◌, String, Bool, true, false, ◌&&◌, ◌||◌, not, Option, none, some, List, [], ◌∷◌, ◌==◌,
  nat_eq, string_eq, option_eq, if◌then◌else◌, ltb, any, find, keep, is_some_and,
}
use mathlib.Core.Option
use rust_game_harry_potter.Effects.Zones.{
  EffectZone, zone_eq, active_villains, dark_arts_discard, hero_hand, heroes,
}
use rust_game_harry_potter.Effects.Entities.{
  EffectEntityKind, kind_eq, EffectEntity, villain_ability_suppressed,
}
use rust_game_harry_potter.Effects.Entities
use rust_game_harry_potter.Effects.Rules.{
  ℤ, pos, negsuc, EffectCardType, EffectDefinition, EffectDefinitions, nil, cons, sequence,
  prevent_extra_drawing, prevent_control_removal, hand_damage_limit, has_card_type, EffectTrigger,
  trigger_eq, EffectRule,
}
use rust_game_harry_potter.World.Store.{EffectWorld, entities_in, entity, owned_by, entities}

-- `rules.iter().find(|rule| Some(rule.id) == card.effect_rule_id())`
abbrev pub rule_of : List EffectRule → EffectEntity → Option EffectRule
rule_of rules card = find (λ rule. some rule.id == card.effect_rule_id) rules

unfoldable mutual
  pub prevents_drawing : EffectDefinition → Bool
  prevents_drawing prevent_extra_drawing = true
  prevents_drawing (sequence effects) = any_prevents_drawing effects
  prevents_drawing _ = false

  pub any_prevents_drawing : EffectDefinitions → Bool
  any_prevents_drawing nil = false
  any_prevents_drawing (cons e es) = prevents_drawing e || any_prevents_drawing es

unfoldable mutual
  pub prevents : EffectDefinition → Bool
  prevents prevent_control_removal = true
  prevents (sequence effects) = any_prevents effects
  prevents _ = false

  pub any_prevents : EffectDefinitions → Bool
  any_prevents nil = false
  any_prevents (cons e es) = prevents e || any_prevents es

-- `Iterator::min` over `filter_map`
abbrev pub min_option : Option ℕ → Option ℕ → Option ℕ
min_option none b = b
min_option (some a) none = some a
min_option (some a) (some b) = some (if ltb b a then b else a)

unfoldable mutual
  pub damage_limit : EffectDefinition → Option ℕ
  damage_limit (hand_damage_limit maximum) = if ltb 0 maximum then some maximum else none
  damage_limit (sequence effects) = least_damage_limit effects
  damage_limit _ = none

  pub least_damage_limit : EffectDefinitions → Option ℕ
  least_damage_limit nil = none
  least_damage_limit (cons e es) = min_option (damage_limit e) (least_damage_limit es)

abbrev pub first_option : Option EffectCardType → Option EffectCardType → Option EffectCardType
first_option none b = b
first_option (some a) b = some a

unfoldable mutual
  pub definition_card_type : EffectDefinition → Option EffectCardType
  definition_card_type (has_card_type t) = some t
  definition_card_type (sequence effects) = first_card_type effects
  definition_card_type _ = none

  pub first_card_type : EffectDefinitions → Option EffectCardType
  first_card_type nil = none
  first_card_type (cons e es) = first_option (definition_card_type e) (first_card_type es)

unfoldable pub card_type : EffectEntity → List EffectRule → Option EffectCardType
unfolding definition_card_type
card_type card rules = Option.bind (rule_of rules card) (λ rule. definition_card_type rule.effect)

-- Whether the rule of some active villain that is not suppressed passes a test.
abbrev pub some_active_villain : (EffectDefinition → Bool) → EffectWorld → List EffectRule → Bool
some_active_villain test w rules =
    any (λ villain. is_some_and (rule_of rules villain) (λ rule. test rule.effect))
      (keep (λ villain. not (villain_ability_suppressed villain)) (entities_in w active_villains))

unfoldable pub drawing_prevented : EffectWorld → List EffectRule → Bool
unfolding prevents_drawing entities_in
drawing_prevented w rules = some_active_villain prevents_drawing w rules

unfoldable pub control_removal_prevented : EffectWorld → List EffectRule → Bool
unfolding prevents entities_in
control_removal_prevented w rules = some_active_villain prevents w rules

abbrev pub harmful_trigger : EffectTrigger → Bool
harmful_trigger EffectTrigger.dark_arts = true
harmful_trigger EffectTrigger.dark_arts_completed = true
harmful_trigger EffectTrigger.villains = true
harmful_trigger _ = false

abbrev pub harmful_place : EffectZone → EffectEntityKind → Bool
harmful_place dark_arts_discard Entities.dark_arts = true
harmful_place active_villains Entities.villain = true
harmful_place _ _ = false

unfoldable pub is_harmful_rule : EffectWorld → String → List EffectRule → Bool
unfolding entities
is_harmful_rule w rule_id rules =
    any (λ rule. rule.id == rule_id && harmful_trigger rule.trigger) rules
    || any
        (λ (p : EffectZone × EffectEntity).
          harmful_place p.0 p.1.kind && p.1.effect_rule_id == some rule_id)
        (entities w)

-- `loss.max(-i16::from(maximum))`, for a loss and the limits of the cards in hand.
abbrev pub limit_loss : ℤ → Option ℕ → ℤ
limit_loss loss none = loss
limit_loss (pos n) (some maximum) = pos n
limit_loss (negsuc n) (some maximum) =
    if ltb maximum (suc n) then (if maximum == 0 then pos 0 else negsuc (maximum - 1)) else negsuc n

unfoldable pub fold_limits : ℤ → List EffectRule → List EffectEntity → ℤ
unfolding damage_limit
fold_limits loss rules [] = loss
fold_limits loss rules (card ∷ cards) =
    fold_limits
      (limit_loss loss (Option.bind (rule_of rules card) (λ rule. damage_limit rule.effect))) rules
      cards

abbrev pub hero_in_heroes : Option (EffectZone × EffectEntity) → Option EffectEntity
hero_in_heroes (some (heroes, hero)) = some hero
hero_in_heroes _ = none

unfoldable pub protected_health_loss : EffectWorld → String → String → List EffectRule → ℤ → ℤ
unfolding is_harmful_rule fold_limits entities_in entity
protected_health_loss w hero_id rule_id rules amount = elim (hero_in_heroes (entity w hero_id)) [
  | none ↦ amount
  | some hero ↦
      if is_harmful_rule w rule_id rules
      then fold_limits amount rules (keep (owned_by hero.owner_position) (entities_in w hero_hand))
      else amount
]
