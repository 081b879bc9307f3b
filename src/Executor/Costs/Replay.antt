-- ===== src/Executor/Costs/Replay.antt =====
-- What is paid is recorded (`pay_costs` against `apply_effect_outcomes` of
-- crates/game-domain/src/effects.rs).
use rust_game_harry_potter.Base.{
  ℕ, ◌≡◌, refl, String, Bool, true, not, some, List, [], ◌∷◌, nat_eq, string_eq, option_eq, ltb, ok,
  ok_or, ok_or-eq-ok, all, Ensures, yields, Ensures-ok, Ensures->>=, Ensures-ensure, arith,
}
use rust_game_harry_potter.Effects.Zones.{EffectResource, resource_eq, heroes, supports_resource}
use rust_game_harry_potter.Effects.Entities.{EffectEntity, resource, with_resource}
use rust_game_harry_potter.Effects.Rules.{EffectResourceCost, EffectRule}
use rust_game_harry_potter.Effects.Outcomes.{
  EffectOutcome, resource_changed, cost, invalid_definition,
}
use rust_game_harry_potter.World.Store.{
  EffectWorld, entities_in, entity, entity_mut, hero_at, has_id, owned_by,
}
use rust_game_harry_potter.World.Named.{find-only}
use rust_game_harry_potter.World.Lookup.{Unique, entity-found, count-census, census-entity_mut}
use rust_game_harry_potter.Executor.Apply.{
  apply_resource_changed, apply_outcome, apply_effect_outcomes,
}
use rust_game_harry_potter.Executor.Costs.{
  RuleSelection, selected_costs, pay_one, pay_all, pay_costs,
}

-- Without duplicate ids, the hero at a position is the one that the hero's id reaches.
pub hero_at-entity :
    (position : ℕ) (w : EffectWorld) {e : EffectEntity}
    → Unique w
    → hero_at w position ≡ some e
    → entity w e.id ≡ some (heroes, e)
hero_at-entity position w {e} one h = entity-found e.id heroes w (one e.id) (
    find-only (owned_by (some position)) (entities_in w heroes)
      (count-census e.id heroes w (one e.id)) h)

-- Writing a resource that heroes have keeps the ids unique and is applied as recorded.
paid-Recorded :
    (rule_id : String) (r : EffectResource) (after : ℕ) (w : EffectWorld) (e : EffectEntity)
    → Unique w
    → supports_resource heroes r ≡ true
    → entity w e.id ≡ some (heroes, e)
    → (apply_outcome (resource_changed rule_id e.id e.owner_position r (resource e r) after cost) w
        ≡ ok (entity_mut e.id (with_resource r after) w))
      × Unique (entity_mut e.id (with_resource r after) w)
unfolding apply_outcome apply_resource_changed
paid-Recorded rule_id r after w e one can at = (
  ground arith,
  λ id. rw (census-entity_mut e.id (with_resource r after) w at (has_id id) (λ x. refl)) (one id),
)

pay_one-Recorded :
    (actor : ℕ) (rule_id : String) (c : EffectResourceCost) (w : EffectWorld)
    → Unique w
    → supports_resource heroes c.resource ≡ true
    → Ensures
        (λ (r : EffectOutcome × EffectWorld). (apply_outcome r.0 w ≡ ok r.1) × Unique r.1)
        (pay_one actor rule_id c w)
unfolding pay_one
pay_one-Recorded actor rule_id c w one can =
    Ensures->>= (ok_or (hero_at w actor) invalid_definition) _ λ first e.
      Ensures->>= (ok_or (entity w first.id) invalid_definition) _ λ found f.
        let at = hero_at-entity actor w one (ok_or-eq-ok _ _ e) in
        let same : found ≡ (heroes, first) = cc (at, ok_or-eq-ok _ _ f) in
        rw same (
          Ensures-ensure (not (ltb (resource first c.resource) c.amount)) _ _
            λ affordable. yields (paid-Recorded rule_id c.resource _ w first one can at))

abbrev pub payable : String × EffectResourceCost → Bool
payable c = supports_resource heroes c.1.resource

pay_all-Recorded :
    (actor : ℕ) (costs : List (String × EffectResourceCost)) (w : EffectWorld)
    → Unique w
    → all payable costs ≡ true
    → Ensures
        (λ (r : List EffectOutcome × EffectWorld). apply_effect_outcomes r.0 w ≡ ok r.1)
        (pay_all actor costs w)
unfolding pay_all apply_effect_outcomes
pay_all-Recorded actor [] w one can = yields refl
pay_all-Recorded actor ((rule_id, c) ∷ costs) w one can =
    Ensures->>= (pay_one actor rule_id c w) _ λ paid e.
      let (first, still) = Ensures-ok (pay_one-Recorded actor rule_id c w one (ground arith)) e in
      Ensures->>= (pay_all actor costs paid.1) _ λ rest f.
        yields (rw first (Ensures-ok (pay_all-Recorded actor costs paid.1 still (ground arith)) f))

-- In a table without duplicate ids, what paying costs records, each cost a resource that heroes
-- have, is applied to the table before the payment with the table after it as the result.
pub apply_effect_outcomes-pay_costs :
    (actor : ℕ) (rules : List EffectRule) (selection : RuleSelection) (w : EffectWorld)
    {r : List EffectOutcome × EffectWorld}
    → Unique w
    → all payable (selected_costs selection rules) ≡ true
    → pay_costs actor rules selection w ≡ ok r
    → apply_effect_outcomes r.0 w ≡ ok r.1
unfolding pay_costs
apply_effect_outcomes-pay_costs actor rules selection w one can =
    Ensures-ok (pay_all-Recorded actor (selected_costs selection rules) w one can)
