-- ===== src/Executor/Rules.antt =====
-- The tests of rules and of their costs (`effect_rules_are_valid` and
-- `selected_costs_are_affordable` of crates/game-domain/src/effects.rs).
use Prim.Native.String.{len}
use rust_game_harry_potter.Base.{
  ℕ, ◌+◌, String, Bool, true, ◌&&◌, not, none, some, List, [], ◌∷◌, map, ◌==◌, nat_eq, string_eq,
  option_eq, ltb, leb, all, is_some_and,
}
use rust_game_harry_potter.Base.Sets.{all_distinct}
use rust_game_harry_potter.Effects.Zones.{zone_eq, EffectResource, resource_eq, control}
use rust_game_harry_potter.Effects.Resources
use rust_game_harry_potter.Effects.Resources.{ResourceMap}
use rust_game_harry_potter.Effects.Entities.{kind_eq}
use rust_game_harry_potter.Effects.Rules.{
  EffectRule, EffectResourceCost, EffectTrigger, trigger_eq, dark_arts_completed,
}
use rust_game_harry_potter.World.Store.{EffectWorld, hero_resource}
use rust_game_harry_potter.World.WholeTable.{resources}
use rust_game_harry_potter.World.Validity.{max_choice_value_length}
use rust_game_harry_potter.Executor.Costs.{RuleSelection, triggered, selected_costs}

abbrev pub max_runtime_rule_id_length : ℕ
max_runtime_rule_id_length = 244

-- `*costs.entry(resource).or_default() += amount`
abbrev pub add_cost : EffectResource → ℕ → ResourceMap → ResourceMap
add_cost r amount costs =
    Resources.insert r
      (elim (Resources.get costs r) [ none ↦ amount | some before ↦ before + amount ]) costs

unfoldable pub add_costs : List (String × EffectResourceCost) → ResourceMap → ResourceMap
add_costs [] costs = costs
add_costs ((id, c) ∷ cs) costs = add_costs cs (add_cost c.resource c.amount costs)

unfoldable pub combined_costs : List EffectRule → RuleSelection → ResourceMap
unfolding add_costs
combined_costs rules selection = add_costs (selected_costs selection rules) Resources.empty

abbrev pub affords : EffectWorld → ℕ → ResourceMap → EffectResource → Bool
affords w position costs r = elim (Resources.get costs r) [
  | none ↦ true
  | some amount ↦ is_some_and (hero_resource w position r) (λ available. leb amount available)
]

unfoldable pub selected_costs_are_affordable :
    EffectWorld → ℕ → List EffectRule → RuleSelection → Bool
unfolding combined_costs
selected_costs_are_affordable w position rules selection =
    all (affords w position (combined_costs rules selection)) resources

abbrev pub max_rule_id_length : EffectTrigger → ℕ
max_rule_id_length dark_arts_completed = max_runtime_rule_id_length
max_rule_id_length _ = max_choice_value_length

abbrev pub cost_is_valid : EffectResourceCost → Bool
cost_is_valid c = ltb 0 c.amount && not (c.resource == control)

abbrev pub rule_is_valid : EffectRule → Bool
rule_is_valid rule =
    not (rule.id == "")
    && leb (len rule.id) (max_rule_id_length rule.trigger)
    && all cost_is_valid rule.cost

abbrev pub rule_id_of : EffectRule → String
rule_id_of rule = rule.id

unfoldable pub effect_rules_are_valid : List EffectRule → Bool
effect_rules_are_valid rules = all rule_is_valid rules && all_distinct (map rule_id_of rules)

unfoldable pub effect_action_is_affordable :
    EffectWorld → ℕ → List EffectRule → EffectTrigger → Bool
unfolding effect_rules_are_valid selected_costs_are_affordable
effect_action_is_affordable w position rules trigger =
    effect_rules_are_valid rules
    && selected_costs_are_affordable w position rules (triggered trigger)
