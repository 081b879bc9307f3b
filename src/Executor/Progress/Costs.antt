-- ===== src/Executor/Progress/Costs.antt =====
-- Costs, defeats and the follow-ups of an effect respect the cards and the record
-- (crates/game-domain/src/effects.rs, effects/game_three.rs).
use rust_game_harry_potter.Base.{
  ℕ, ◌+◌, ◌≡◌, refl, ap, String, false, not, Option, none, some, List, [], ◌∷◌, map, nat_eq, ok,
  ok_or, Ensures, yields, Ensures->>=, Ensures-ensure, Ensures-if, Ensures-weaken, Ensures-ok, any,
  ltb, arith, count, keep, inl, inr, Option-cases, string_eq, option_eq,
}
use rust_game_harry_potter.Base.Counting.{count-append}
use rust_game_harry_potter.Effects.Zones.{zone_eq, active_villains, villain_discard}
use rust_game_harry_potter.Effects.Entities.{resource}
use rust_game_harry_potter.Effects.Rules.{EffectRule, EffectResourceCost}
use rust_game_harry_potter.Effects.Outcomes.{
  EffectOutcome, moved, consumes_random_sample, invalid_definition, unaffordable_cost,
}
use rust_game_harry_potter.Effects.Choices.{QueuedEffect, definition}
use rust_game_harry_potter.World.Store.{EffectWorld, entity, hero_at, entities_in}
use rust_game_harry_potter.World.Moves.{move_to_back}
use rust_game_harry_potter.Executor.Cursors.{root}
use rust_game_harry_potter.Executor.Stun.{Table, apply_stun_resource_reset, finish_stun}
use rust_game_harry_potter.Executor.Costs.{
  RuleSelection, single, selected_costs, pay_one, pay_all, pay_costs,
}
use rust_game_harry_potter.Executor.Reactions.{defeat_villain}
use rust_game_harry_potter.Executor.Machine.{Context, Machine, push_front, with_table}
use rust_game_harry_potter.Executor.Machine.Defeats.{
  stunned_by, resolve_cost_stun, settle_costs, discard_defeated, is_reward, enqueue_rewards,
  enqueue_defeated_villains, is_defeated, defeated_of,
}
use rust_game_harry_potter.Executor.Progress.{
  SameCards, SameCards-refl, SameCards-trans, Advances, Advances-refl, Advances-trans, log-Advances,
  entity_mut-SameCards, move_to_back-SameCards, Advances->>=, Evolves, Evolves-refl, Evolves->>=,
}
use rust_game_harry_potter.Executor.Progress.Tables.{
  apply_stun_resource_reset-Advances, finish_stun-Advances,
}

-- Payments consume no random sample and leave the cards alone.
record Paid (w : EffectWorld) (r : List EffectOutcome × EffectWorld) : Type 0 where
  plain : count consumes_random_sample r.0 ≡ 0
  cards : SameCards w r.1

pay_one-Paid :
    (position : ℕ) (id : String) (c : EffectResourceCost) (w : EffectWorld)
    → Ensures
        (λ r. (consumes_random_sample r.0 ≡ false) × SameCards w r.1)
        (pay_one position id c w)
unfolding pay_one
pay_one-Paid position id c w =
    Ensures->>= (ok_or (hero_at w position) invalid_definition) _ λ first h.
      Ensures->>= (ok_or (entity w first.id) invalid_definition) _ λ found k.
        Ensures-ensure (not (ltb (resource found.1 c.resource) c.amount)) unaffordable_cost _
          λ enough. yields (refl, entity_mut-SameCards first.id _ w (λ e. refl))

pay_all-Paid :
    (position : ℕ) (costs : List (String × EffectResourceCost)) (w : EffectWorld)
    → Ensures (Paid w) (pay_all position costs w)
unfolding pay_all
pay_all-Paid position [] w = yields (record { plain = refl; cards = SameCards-refl w })
pay_all-Paid position ((id, c) ∷ costs) w = Ensures->>= (pay_one position id c w) _ λ paid h.
    let one = Ensures-ok (pay_one-Paid position id c w) h in
    Ensures->>= (pay_all position costs paid.1) _ λ rest k.
      let later = Ensures-ok (pay_all-Paid position costs paid.1) k in
      yields (record { plain = rw one.0 later.plain; cards = SameCards-trans one.1 later.cards })

module _ {S : Type 0} where
  resolve_cost_stun-Advances :
      (position : ℕ) (t : Table S) (queue : List QueuedEffect)
      → Ensures (λ r. Advances t r.0) (resolve_cost_stun position t queue)
  unfolding resolve_cost_stun
  resolve_cost_stun-Advances position t queue = elim (Option-cases (stunned_by t.outcomes)) [
    | inl e ↦ rw (e, resolve_cost_stun) (yields (Advances-refl t))
    | inr ((rule_id, id), e) ↦
        rw (e, resolve_cost_stun)
          (Advances->>= (apply_stun_resource_reset id position t) _
            (apply_stun_resource_reset-Advances id position t)
            λ reset h.
              Ensures-if reset.1 _ _ (λ x. yields (Advances-refl reset.0))
                λ x.
                  Advances->>= (finish_stun reset.0) _ (finish_stun-Advances reset.0)
                    λ u k. yields (Advances-refl u))
  ]

  -- Paying into a list of its own, which is recorded once the stun is settled.
  pub resolve_cost_stun-counted :
      (position : ℕ) (rules : List EffectRule) (selection : RuleSelection)
      (queue : List QueuedEffect) (t : Table S) {paid : List EffectOutcome × EffectWorld}
      {settled : Table S × List QueuedEffect}
      → pay_costs position rules selection t.world ≡ ok paid
      → resolve_cost_stun position (record t { world = paid.1; outcomes = paid.0 }) queue
        ≡ ok settled
      → (settled.0.rolls_consumed
          ≡ t.rolls_consumed + count consumes_random_sample settled.0.outcomes)
        × SameCards t.world settled.0.world
  unfolding pay_costs
  resolve_cost_stun-counted position rules selection queue t {paid} {settled} h k =
      let costs = Ensures-ok (pay_all-Paid position (selected_costs selection rules) t.world) h in
      let stun = Ensures-ok (resolve_cost_stun-Advances position _ queue) k in
      (
        omega (
          arith,
          stun.counted,
          costs.plain,
          ap (count consumes_random_sample) stun.recorded,
          count-append consumes_random_sample paid.0 stun.fresh,
        ),
        SameCards-trans costs.cards stun.cards,
      )

  settle_costs-Evolves :
      (position : ℕ) (rules : List EffectRule) (selection : RuleSelection) (m : Machine S)
      → Ensures (Evolves m) (settle_costs position rules selection m)
  unfolding settle_costs
  settle_costs-Evolves position rules selection m =
      Ensures->>= (pay_costs position rules selection m.table.world) _ λ paid h.
        Ensures->>=
          (resolve_cost_stun position (record m.table { world = paid.1; outcomes = paid.0 })
            m.queue)
          _
          λ settled k. yields (record {
            table =
                let settling =
                  resolve_cost_stun-counted position rules selection m.queue m.table h k in
                record {
                  fresh = settled.0.outcomes;
                  recorded = refl;
                  counted = settling.0;
                  cards = settling.1;
                };
            steps = refl;
          })

  discard_defeated-Advances :
      (rules : List EffectRule) (defeated : List (String × Option String)) (t : Table S)
      → Ensures (λ r. Advances t r.1) (discard_defeated rules defeated t)
  unfolding discard_defeated
  discard_defeated-Advances rules [] t = yields (Advances-refl t)
  discard_defeated-Advances rules ((id, none) ∷ defeated) t =
      Ensures->>= (move_to_back id active_villains villain_discard none t.world) _ λ w h.
        let cards = move_to_back-SameCards id active_villains villain_discard none t.world h in
        Ensures-weaken (discard_defeated-Advances rules defeated _)
          (λ r. Advances-trans (log-Advances _ w t refl cards))
  discard_defeated-Advances rules ((id, some reward) ∷ defeated) t =
      Ensures->>= (move_to_back id active_villains villain_discard none t.world) _ λ w h.
        let cards = move_to_back-SameCards id active_villains villain_discard none t.world h in
        let gone =
          log-Advances (moved defeat_villain id none active_villains villain_discard ∷ []) w t refl
            cards in
        Ensures-ensure (any (is_reward reward) rules) _ _ λ fits.
          Ensures->>= (discard_defeated rules defeated _) _ λ rest k.
            yields (Advances-trans gone (Ensures-ok (discard_defeated-Advances rules defeated _) k))

  enqueue_rewards-Evolves :
      (position : ℕ) (rules : List EffectRule) (rewards : List String) (m : Machine S)
      → Ensures (Evolves m) (enqueue_rewards position rules rewards m)
  unfolding enqueue_rewards
  enqueue_rewards-Evolves position rules [] m = yields (Evolves-refl m)
  enqueue_rewards-Evolves position rules (reward ∷ rewards) m =
      Evolves->>= (enqueue_rewards position rules rewards m) _
        (enqueue_rewards-Evolves position rules rewards m)
        λ later h.
          Ensures-weaken
            (settle_costs-Evolves position rules (single reward)
              (push_front (definition (root reward) position) later))
            (λ n e. record { table = e.table; steps = e.steps })

  pub enqueue_defeated_villains-Evolves :
      (c : Context) (position : ℕ) (m : Machine S)
      → Ensures (Evolves m) (enqueue_defeated_villains c position m)
  unfolding enqueue_defeated_villains
  enqueue_defeated_villains-Evolves c position m =
      let defeated =
        map defeated_of (keep is_defeated (entities_in m.table.world active_villains)) in
      Ensures->>= (discard_defeated c.rules defeated m.table) _ λ done h.
        let gone = Ensures-ok (discard_defeated-Advances c.rules defeated m.table) h in
        Ensures-weaken (enqueue_rewards-Evolves position c.rules done.0 (with_table m done.1))
          (λ n e. record { table = Advances-trans gone e.table; steps = e.steps })
