-- ===== src/Executor/Costs.antt =====
-- Paying what the selected rules cost (`pay_costs` and `RuleSelection` of
-- crates/game-domain/src/effects.rs).
pub mod Replay
pub mod Amounts
pub mod Payments
pub mod Affordable
use rust_game_harry_potter.Base.{
  ℕ, suc, ◌+◌, ◌-◌, String, Bool, true, false, ◌&&◌, not, Option, none, some, List, [], ◌∷◌, ◌++◌,
  map, ◌==◌, nat_eq, string_eq, if◌then◌else◌, ltb, Result, ok, err, ◌>>=◌, ◌>>◌, ensure, ok_or,
  contains, keep,
}
use rust_game_harry_potter.Effects.Zones.{heroes}
use rust_game_harry_potter.Effects.Entities.{resource, with_resource}
use rust_game_harry_potter.Effects.Rules.{
  EffectResourceCost, EffectRule, EffectTrigger, trigger_eq, villains,
}
use rust_game_harry_potter.Effects.Outcomes.{
  cost, EffectOutcome, resource_changed, invalid_definition, unaffordable_cost,
}
use rust_game_harry_potter.World.Store.{EffectWorld, entity, entity_mut, hero_at}
use rust_game_harry_potter.World.Moves.{Outcome}

pub data RuleSelection : Type 0 where
  no_rule : RuleSelection
  triggered : EffectTrigger → RuleSelection
  single : String → RuleSelection
  active_villains : List String → RuleSelection

abbrev pub selects : RuleSelection → EffectRule → Bool
selects no_rule rule = false
selects (triggered trigger) rule = rule.trigger == trigger
selects (single id) rule = rule.id == id
selects (active_villains ids) rule = rule.trigger == villains && contains ids rule.id

abbrev pub costs_of : EffectRule → List (String × EffectResourceCost)
costs_of rule = map (λ c. (rule.id, c)) rule.cost

-- The `filter` and the `flat_map` over the rules.
unfoldable pub selected_costs : RuleSelection → List EffectRule → List (String × EffectResourceCost)
selected_costs selection [] = []
selected_costs selection (rule ∷ rules) =
    let rest = selected_costs selection rules in
    if selects selection rule then costs_of rule ++ rest else rest

unfoldable pub pay_one :
    ℕ → String → EffectResourceCost → EffectWorld → Outcome (EffectOutcome × EffectWorld)
pay_one actor rule_id c w = do
  first ← ok_or (hero_at w actor) invalid_definition
  found ← ok_or (entity w first.id) invalid_definition
  let hero = found.1
  let before = resource hero c.resource
  ensure (not (ltb before c.amount)) unaffordable_cost
  ok (
    resource_changed rule_id hero.id hero.owner_position c.resource before (before - c.amount) cost,
    entity_mut first.id (with_resource c.resource (before - c.amount)) w,
  )

unfoldable pub pay_all :
    ℕ
    → List (String × EffectResourceCost)
    → EffectWorld
    → Outcome (List EffectOutcome × EffectWorld)
unfolding pay_one
pay_all actor [] w = ok ([], w)
pay_all actor ((rule_id, c) ∷ costs) w = do
  paid ← pay_one actor rule_id c w
  rest ← pay_all actor costs paid.1
  ok (paid.0 ∷ rest.0, rest.1)

unfoldable pub pay_costs :
    ℕ → List EffectRule → RuleSelection → EffectWorld → Outcome (List EffectOutcome × EffectWorld)
unfolding selected_costs pay_all
pay_costs actor rules selection w = pay_all actor (selected_costs selection rules) w
