-- ===== src/Executor/Machine/Bonuses.antt =====
-- The bonus for playing another ally (crates/game-domain/src/effects/game_four.rs).
use rust_game_harry_potter.Base.{
  ℕ, String, Bool, true, ◌&&◌, ◌||◌, not, Option, none, some, List, [], ◌∷◌, ◌++◌, ◌==◌, nat_eq,
  string_eq, option_eq, if◌then◌else◌, ok, ◌>>=◌, ◌>>◌, ensure, ok_or, find_last, any, is_some_and,
}
use mathlib.Core.Option
use rust_game_harry_potter.Effects.Zones.{zone_eq, hero_hand, hero_play_area, health}
use rust_game_harry_potter.Effects.Entities.{EffectEntity}
use rust_game_harry_potter.Effects.Rules.{
  pos, EffectDefinition, EffectDefinitions, EffectRule, card_type_eq, ally,
}
use rust_game_harry_potter.Effects.Outcomes.{EffectOutcome, moved, invalid_definition}
use rust_game_harry_potter.World.Store.{EffectWorld, entity, entities_in, owned_by, hero_at}
use rust_game_harry_potter.World.Moves.{Outcome}
use rust_game_harry_potter.Executor.Abilities.{card_type}
use rust_game_harry_potter.Executor.Selectors.{within}
use rust_game_harry_potter.Executor.Cursors.{rule_named}
use rust_game_harry_potter.Executor.Stun.{Table, modify_entity_resource}
use rust_game_harry_potter.Executor.TurnStates.{change_turn_state}
use rust_game_harry_potter.Executor.Reactions.{play_card, is_ally, copied_rule}
use rust_game_harry_potter.Executor.Machine.{Context, Machine, since, with_table}

abbrev pub first_bonus : Option ℕ → Option ℕ → Option ℕ
first_bonus none b = b
first_bonus (some a) b = some a

unfoldable mutual
  pub ally_bonus : EffectDefinition → Option ℕ
  ally_bonus (EffectDefinition.other_ally_bonus amount) = some amount
  ally_bonus (EffectDefinition.sequence effects) = first_ally_bonus effects
  ally_bonus _ = none

  pub first_ally_bonus : EffectDefinitions → Option ℕ
  first_ally_bonus EffectDefinitions.nil = none
  first_ally_bonus (EffectDefinitions.cons e es) = first_bonus (ally_bonus e) (first_ally_bonus es)

abbrev pub or_else {ℓ} : {A : Type ℓ} → Option A → Option A → Option A
or_else none b = b
or_else (some a) b = some a

-- The rule of the ally that the card copies, or else the card's own.
unfoldable pub source_rule : EffectWorld → EffectEntity → List EffectRule → Option EffectRule
source_rule w card rules =
    Option.bind (or_else (copied_rule w card) card.effect_rule_id) (λ id. rule_named id rules)

abbrev pub another_ally : String → ℕ → List EffectRule → EffectEntity → Bool
another_ally card_id owner rules card =
    not (card.id == card_id) && owned_by (some owner) card && card_type card rules == some ally

-- A bonus that is due: the card, its rule, its owner and the health.
pub record Bonus : Type 0 where
  pub card_id : String
  pub rule_id : String
  pub owner : ℕ
  pub amount : ℕ

abbrev pub bonus_of : EffectRule → String → ℕ → List Bonus
bonus_of rule card_id owner = elim (ally_bonus rule.effect) [
  | none ↦ []
  | some amount ↦
      record { card_id = card_id; rule_id = rule.id; owner = owner; amount = amount } ∷ []
]

-- What the owner's other cards in play give for the ally that was played.
unfoldable pub bonuses_of_cards :
    EffectWorld → List EffectRule → String → ℕ → List EffectEntity → List Bonus
unfolding source_rule ally_bonus
bonuses_of_cards w rules target owner [] = []
bonuses_of_cards w rules target owner (card ∷ cards) =
    let rest = bonuses_of_cards w rules target owner cards in
    if card.id == target || not (owned_by (some owner) card)
    then rest
    else elim (source_rule w card rules) [
      | none ↦ rest
      | some rule ↦ bonus_of rule card.id owner ++ rest
    ]

unfoldable pub bonuses_of_outcome : EffectWorld → List EffectRule → EffectOutcome → List Bonus
unfolding bonuses_of_cards
bonuses_of_outcome w rules (moved rule_id target (some owner) from to) =
    if from == hero_hand && to == hero_play_area && rule_id == play_card && is_ally w rules target
    then bonuses_of_cards w rules target owner (entities_in w hero_play_area)
    else []
bonuses_of_outcome w rules _ = []

unfoldable pub bonuses_of : EffectWorld → List EffectRule → List EffectOutcome → List Bonus
unfolding bonuses_of_outcome
bonuses_of w rules [] = []
bonuses_of w rules (o ∷ os) = bonuses_of_outcome w rules o ++ bonuses_of w rules os

abbrev pub plays_rule : EffectWorld → List EffectRule → ℕ → String → EffectEntity → Bool
plays_rule w rules owner rule_id card =
    owned_by (some owner) card
    && is_some_and (source_rule w card rules) (λ rule. rule.id == rule_id)

module _ {S : Type 0} where
  -- Once a turn, and only beside another ally of the owner.
  unfoldable pub apply_other_ally_bonus : List EffectRule → Bonus → Table S → Outcome (Table S)
  apply_other_ally_bonus rules b t = do
    found ← ok_or (entity t.world b.card_id) invalid_definition
    state ← ok_or found.1.turn_state invalid_definition
    if state.ability_used
          || not (any (another_ally b.card_id b.owner rules) (entities_in t.world hero_play_area))
        then ok t
        else do
          u ← change_turn_state b.card_id b.rule_id (record state { ability_used = true }) t
          hero ← ok_or (hero_at u.world b.owner) invalid_definition
          healed ← modify_entity_resource hero.id b.rule_id health (pos b.amount) u
          ok healed.0

  unfoldable pub apply_bonuses : List EffectRule → List Bonus → Table S → Outcome (Table S)
  unfolding apply_other_ally_bonus
  apply_bonuses rules [] t = ok t
  apply_bonuses rules (b ∷ bs) t = do u ← apply_other_ally_bonus rules b t; apply_bonuses rules bs u

  unfoldable pub enqueue_other_ally_bonuses : Context → ℕ → Machine S → Outcome (Machine S)
  unfolding apply_bonuses bonuses_of
  enqueue_other_ally_bonuses c start m = do
    t ← apply_bonuses c.rules (bonuses_of m.table.world c.rules (since start m)) m.table
    ok (with_table m t)

  unfoldable pub execute_other_ally_bonus : Context → String → ℕ → ℕ → Table S → Outcome (Table S)
  unfolding apply_other_ally_bonus source_rule
  execute_other_ally_bonus c rule_id owner amount t = do
    ensure (within 1 10 amount) invalid_definition
    card ←
        ok_or
          (find_last (plays_rule t.world c.rules owner rule_id)
            (entities_in t.world hero_play_area))
          invalid_definition
    apply_other_ally_bonus c.rules
        (record { card_id = card.id; rule_id = rule_id; owner = owner; amount = amount }) t
