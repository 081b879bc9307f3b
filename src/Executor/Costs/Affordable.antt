-- ===== src/Executor/Costs/Affordable.antt =====
-- The test of the costs against their payment (`selected_costs_are_affordable` and `pay_costs` of
-- crates/game-domain/src/effects.rs).
use rust_game_harry_potter.Base.{
  ℕ, ◌+◌, ◌≤◌, ◌≡◌, ◌↔◌, refl, ap, inl, inr, String, true, false, none, some, List, [], ◌∷◌, nat_eq,
  string_eq, option_eq, ok, err, all, Ensures, fails, Ensures-ok, arith, Option-cases, is_some,
}
use rust_game_harry_potter.Effects.Zones.{
  EffectResource, resource_eq, attack, control, health, influence,
}
use rust_game_harry_potter.Effects.Resources
use rust_game_harry_potter.Effects.Resources.{ResourceMap, get-insert_self}
use rust_game_harry_potter.Effects.Entities.{EffectEntity, resource}
use rust_game_harry_potter.Effects.Rules.{EffectResourceCost, EffectRule}
use rust_game_harry_potter.Effects.Outcomes.{EffectOutcome, EffectExecutionError, unaffordable_cost}
use rust_game_harry_potter.World.Store.{EffectWorld, hero_at}
use rust_game_harry_potter.World.WholeTable.{resources}
use rust_game_harry_potter.World.Lookup.{Unique}
use rust_game_harry_potter.Executor.Costs.{
  RuleSelection, selected_costs, pay_one, pay_all, pay_costs,
}
use rust_game_harry_potter.Executor.Rules.{
  add_cost, add_costs, combined_costs, affords, selected_costs_are_affordable,
}
use rust_game_harry_potter.Executor.Costs.Amounts.{
  due, value, added, value-add_costs, is_some-add_costs,
}
use rust_game_harry_potter.Executor.Costs.Payments.{
  all-resources, resources-all, paid-ok, pay_all-due, Short, pay_all-Short,
}

value-empty : (r : EffectResource) → value (Resources.get Resources.empty r) ≡ 0
value-empty attack = refl
value-empty control = refl
value-empty health = refl
value-empty influence = refl

-- With a hero at the position, the test compares what is due with what the hero has.
affords-due :
    (w : EffectWorld) (actor : ℕ) (rules : List EffectRule) (selection : RuleSelection)
    (r : EffectResource) {e : EffectEntity}
    → hero_at w actor ≡ some e
    → (affords w actor (combined_costs rules selection) r ≡ true)
      ↔ (due r (selected_costs selection rules) ≤ resource e r)
unfolding combined_costs
affords-due w actor rules selection r {e} here =
    let costs = combined_costs rules selection in
    let total : value (Resources.get costs r)
        ≡ due r (selected_costs selection rules) + value (Resources.get Resources.empty r) =
      value-add_costs (selected_costs selection rules) r Resources.empty in
    let nothing = value-empty r in
    elim (Option-cases (Resources.get costs r)) [
      | inl h ↦
          let free : due r (selected_costs selection rules) ≡ 0 =
            omega (arith, total, nothing, ap value h) in
          rw (affords, h) (λ x. omega (arith, free), λ x. refl)
      | inr (n, h) ↦
          let whole : due r (selected_costs selection rules) ≡ n =
            omega (arith, total, nothing, ap value h) in
          rw (affords, h, here, whole) (λ x. ground arith, λ x. ground arith)
    ]

-- Without one, a cost fails the test.
homeless :
    (w : EffectWorld) (actor : ℕ) (id : String) (c : EffectResourceCost)
    (cs : List (String × EffectResourceCost))
    → hero_at w actor ≡ none
    → affords w actor (add_costs ((id, c) ∷ cs) Resources.empty) c.resource ≡ false
unfolding add_costs added
homeless w actor id c cs gone =
    let costs = add_costs cs (add_cost c.resource c.amount Resources.empty) in
    let added_cost : is_some (Resources.get costs c.resource) ≡ true =
      is_some-add_costs cs c.resource (add_cost c.resource c.amount Resources.empty) (
        ap is_some (
          get-insert_self c.resource (added c.amount (Resources.get Resources.empty c.resource))
            Resources.empty)) in
    elim (Option-cases (Resources.get costs c.resource)) [
      | inl h ↦ absurd (ground (arith, added_cost, h))
      | inr (n, h) ↦ rw (affords, h, gone) refl
    ]

unpaid :
    (actor : ℕ) (id : String) (c : EffectResourceCost) (cs : List (String × EffectResourceCost))
    (w : EffectWorld)
    → hero_at w actor ≡ none
    → Ensures (λ r. ⊥) (pay_all actor ((id, c) ∷ cs) w)
unfolding pay_all pay_one
unpaid actor id c cs w gone = rw gone fails

-- Without a hero, the test passes exactly when there is nothing to pay.
homeless_lem :
    (actor : ℕ) (cs : List (String × EffectResourceCost)) (w : EffectWorld)
    → hero_at w actor ≡ none
    → (all (affords w actor (add_costs cs Resources.empty)) resources ≡ true)
      ↔ ((r : List EffectOutcome × EffectWorld) × (pay_all actor cs w ≡ ok r))
unfolding pay_all pay_one add_costs
homeless_lem actor [] w gone = (λ h. (([], w), refl), λ h. refl)
homeless_lem actor ((id, c) ∷ cs) w gone =
    let test = affords w actor (add_costs ((id, c) ∷ cs) Resources.empty) in
    (
      λ h. absurd (ground (arith, homeless w actor id c cs gone, all-resources test h c.resource)),
      λ (r, h). absurd (Ensures-ok (unpaid actor id c cs w gone) h),
    )

-- In a table without duplicate ids, the test of the costs passes exactly when paying them succeeds,
-- so a payment after the test never fails.
pub selected_costs_are_affordable-pay_costs :
    (actor : ℕ) (rules : List EffectRule) (selection : RuleSelection) (w : EffectWorld)
    → Unique w
    → (selected_costs_are_affordable w actor rules selection ≡ true)
      ↔ ((r : List EffectOutcome × EffectWorld) × (pay_costs actor rules selection w ≡ ok r))
unfolding selected_costs_are_affordable combined_costs pay_costs
selected_costs_are_affordable-pay_costs actor rules selection w one =
    elim (Option-cases (hero_at w actor)) [
      | inl gone ↦ homeless_lem actor (selected_costs selection rules) w gone
      | inr (e, here) ↦ (
        λ h. paid-ok actor (selected_costs selection rules) w one here λ r.
            (affords-due w actor rules selection r here).0
              (all-resources (affords w actor (combined_costs rules selection)) h r),
        λ (r, h). resources-all (affords w actor (combined_costs rules selection)) λ s.
            (affords-due w actor rules selection s here).1
              (Ensures-ok (pay_all-due actor (selected_costs selection rules) w one here) h s),
      )
    ]

-- In a table without duplicate ids and with a hero at the position, paying costs fails only with the
-- error for costs that cannot be afforded, and only if more of a resource is due, over all selected
-- costs, than the hero has.
pub pay_costs-Short :
    (actor : ℕ) (rules : List EffectRule) (selection : RuleSelection) (w : EffectWorld)
    {e : EffectEntity} {x : EffectExecutionError}
    → Unique w
    → hero_at w actor ≡ some e
    → pay_costs actor rules selection w ≡ err x
    → (x ≡ unaffordable_cost) × Short (selected_costs selection rules) e
unfolding pay_costs
pay_costs-Short actor rules selection w = pay_all-Short actor (selected_costs selection rules) w
