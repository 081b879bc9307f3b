-- ===== src/Executor/Cursors.antt =====
-- Cursors into the effects of a rule (`EffectCursor` and `effect_at_cursor` of
-- crates/game-domain/src/effects.rs).
use rust_game_harry_potter.Base.{
  ℕ, zero, suc, String, Option, none, some, List, [], ◌∷◌, ◌++◌, ◌==◌, string_eq, find,
}
use mathlib.Core.Option
use rust_game_harry_potter.Effects.Rules.{
  EffectDefinition, EffectDefinitions, OptionalEffect, EffectRule,
}
use rust_game_harry_potter.Effects.Choices.{EffectPathSegment, EffectCursor}

abbrev pub root : String → EffectCursor
root rule_id = record { rule_id = rule_id; path = [] }

abbrev pub child : EffectCursor → EffectPathSegment → EffectCursor
child cursor segment = record cursor { path = cursor.path ++ segment ∷ [] }

abbrev pub rule_named : String → List EffectRule → Option EffectRule
rule_named id rules = find (λ rule. rule.id == id) rules

unfoldable pub effect_count : EffectDefinitions → ℕ
effect_count EffectDefinitions.nil = 0
effect_count (EffectDefinitions.cons e es) = suc (effect_count es)

unfoldable pub effect_at : EffectDefinitions → ℕ → Option EffectDefinition
effect_at EffectDefinitions.nil i = none
effect_at (EffectDefinitions.cons e es) zero = some e
effect_at (EffectDefinitions.cons e es) (suc i) = effect_at es i

abbrev pub otherwise_of : OptionalEffect → Option EffectDefinition
otherwise_of OptionalEffect.absent = none
otherwise_of (OptionalEffect.present e) = some e

-- One segment of a path, from the effect that it starts at.
unfoldable pub descend : EffectDefinition → EffectPathSegment → Option EffectDefinition
unfolding effect_at
descend (EffectDefinition.hero_ability strategy effect) EffectPathSegment.hero_ability_effect =
    some effect
descend (EffectDefinition.reveal_top_card least effect) EffectPathSegment.revealed_card_effect =
    some effect
descend (EffectDefinition.reaction trigger effect) EffectPathSegment.reaction_effect = some effect
descend (EffectDefinition.repeat times effect) EffectPathSegment.repeat_effect = some effect
descend (EffectDefinition.for_each_target target effect) EffectPathSegment.repeat_effect =
    some effect
descend (EffectDefinition.choice audience options) (EffectPathSegment.choice_option i) =
    effect_at options i
descend (EffectDefinition.condition c then_effect otherwise) EffectPathSegment.condition_then =
    some then_effect
descend (EffectDefinition.condition c then_effect otherwise) EffectPathSegment.condition_otherwise =
    otherwise_of otherwise
descend (EffectDefinition.roll die outcomes) (EffectPathSegment.roll_outcome i) =
    effect_at outcomes i
descend (EffectDefinition.sequence effects) (EffectPathSegment.sequence_effect i) =
    effect_at effects i
descend _ _ = none

unfoldable pub follow : EffectDefinition → List EffectPathSegment → Option EffectDefinition
unfolding descend
follow effect [] = some effect
follow effect (segment ∷ path) = Option.bind (descend effect segment) (λ next. follow next path)

unfoldable pub effect_at_cursor : List EffectRule → EffectCursor → Option EffectDefinition
unfolding follow
effect_at_cursor rules cursor =
    Option.bind (rule_named cursor.rule_id rules) (λ rule. follow rule.effect cursor.path)
