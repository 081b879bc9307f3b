-- ===== src/Effects/Rules.antt =====
-- The language of card effects: selectors, conditions, operations, definitions and rules
-- (crates/game-domain/src/effects.rs). A `Vec<Self>` and an `Option<Box<Self>>` inside a
-- definition are types of their own.
use rust_game_harry_potter.Base.{ℕ, String, Bool, true, false, Option, List, Eq}
use rust_game_harry_potter.Effects.Zones.{EffectResource, EffectZone}

-- `i16`: `negsuc n` is -(n + 1).
pub data ℤ : Type 0 where
  pos : ℕ → ℤ
  negsuc : ℕ → ℤ

pub data EffectTargetOwner : Type 0 where
  other actor any_owner : EffectTargetOwner

pub data EffectCardType : Type 0 where
  ally item spell : EffectCardType

unfoldable pub EffectCardType-discrete : Discrete EffectCardType
EffectCardType-discrete = hlevel

instance abbrev pub card_type_eq : Eq EffectCardType
card_type_eq = record { dec = EffectCardType-discrete }

pub data EffectEligibility : Type 0 where
  card_type : EffectCardType → EffectEligibility
  resource_at_least : EffectResource → ℕ → EffectEligibility

pub record EffectSelector : Type 0 where
  pub id : Option String
  pub zone : EffectZone
  pub owner : EffectTargetOwner
  pub min : ℕ
  pub max : ℕ
  pub eligibility : List EffectEligibility

pub data EffectCondition : Type 0 where
  drawing_allowed : EffectCondition
  has_eligible_target : EffectSelector → EffectCondition
  resource_at_least : EffectSelector → EffectResource → ℕ → EffectCondition

-- The fields in the source's order: `gain_influence_and_draw influence cards`.
pub data EffectOperation : Type 0 where
  gain_influence_and_draw : ℕ → ℕ → EffectOperation
  suppress_villain : EffectOperation
  discard_for_spell_bonus : ℕ → EffectOperation
  gain_influence_and_health : ℕ → ℕ → EffectOperation
  discard_voluntarily : EffectOperation
  copy_played_ally : EffectOperation
  gain_attack_per_ally_played : ℕ → EffectOperation
  discard : EffectOperation
  prevent_drawing : EffectOperation
  draw : ℕ → EffectOperation
  modify_resource : EffectResource → ℤ → EffectOperation
  move : EffectZone → EffectOperation

pub data EffectDie : Type 0 where
  gryffindor_v1 hufflepuff_v1 ravenclaw_v1 slytherin_v1 d4 d6 d8 : EffectDie

abbrev pub is_house : EffectDie → Bool
is_house gryffindor_v1 = true
is_house hufflepuff_v1 = true
is_house ravenclaw_v1 = true
is_house slytherin_v1 = true
is_house _ = false

abbrev pub sides : EffectDie → ℕ
sides d4 = 4
sides d8 = 8
sides _ = 6

pub data EffectGameOutcome : Type 0 where
  lost won : EffectGameOutcome

pub data EffectReactionTrigger : Type 0 where
  morsmordre_revealed_v1 villain_revealed self_harmful_discard : EffectReactionTrigger
  owner_plays_ally control_added hero_forced_discard : EffectReactionTrigger
  self_forced_discard owner_defeats_villain : EffectReactionTrigger

pub data EffectChoiceAudience : Type 0 where
  choice_actor each_hero : EffectChoiceAudience

pub data EffectTrigger : Type 0 where
  dark_arts dark_arts_completed manual villain_reward villains : EffectTrigger

unfoldable pub EffectTrigger-discrete : Discrete EffectTrigger
EffectTrigger-discrete = hlevel

instance abbrev pub trigger_eq : Eq EffectTrigger
trigger_eq = record { dec = EffectTrigger-discrete }

pub data HeroAbilityStrategy : Type 0 where
  harry_game_three_v1 hermione_game_three_v1 neville_game_three_v1 : HeroAbilityStrategy
  ron_game_three_v1 : HeroAbilityStrategy

mutual
  pub data EffectDefinition : Type 0 where
    other_ally_bonus : ℕ → EffectDefinition
    limit_villain_attack : ℕ → EffectDefinition
    hero_ability : HeroAbilityStrategy → EffectDefinition → EffectDefinition
    reveal_top_card : ℕ → EffectDefinition → EffectDefinition
    for_each_target : EffectSelector → EffectDefinition → EffectDefinition
    prevent_extra_drawing : EffectDefinition
    prevent_control_removal : EffectDefinition
    top_deck_acquisition : EffectCardType → EffectDefinition
    has_card_type : EffectCardType → EffectDefinition
    hand_damage_limit : ℕ → EffectDefinition
    reaction : EffectReactionTrigger → EffectDefinition → EffectDefinition
    reveal_dark_arts : EffectDefinition
    reveal_extra_dark_arts : EffectDefinition
    apply : EffectSelector → EffectOperation → EffectDefinition
    choice : EffectChoiceAudience → EffectDefinitions → EffectDefinition
    condition : EffectCondition → EffectDefinition → OptionalEffect → EffectDefinition
    no_op : EffectDefinition
    repeat : ℕ → EffectDefinition → EffectDefinition
    roll : EffectDie → EffectDefinitions → EffectDefinition
    sequence : EffectDefinitions → EffectDefinition
    terminal : EffectGameOutcome → EffectDefinition

  pub data EffectDefinitions : Type 0 where
    nil : EffectDefinitions
    cons : EffectDefinition → EffectDefinitions → EffectDefinitions

  pub data OptionalEffect : Type 0 where
    absent : OptionalEffect
    present : EffectDefinition → OptionalEffect

pub record EffectResourceCost : Type 0 where
  pub resource : EffectResource
  pub amount : ℕ

pub record EffectRule : Type 0 where
  pub id : String
  pub trigger : EffectTrigger
  pub order : ℕ
  pub cost : List EffectResourceCost
  pub effect : EffectDefinition
