-- ===== src/Executor/Machine/Defeats.antt =====
-- Defeated villains, the stun that a cost brings and the revealed Dark Arts event
-- (crates/game-domain/src/effects.rs).
use rust_game_harry_potter.Base.{
  ℕ, zero, suc, String, Bool, ◌&&◌, Option, none, some, List, [], ◌∷◌, ◌++◌, map, ◌==◌, nat_eq,
  string_eq, option_eq, if◌then◌else◌, ok, ◌>>=◌, ◌>>◌, ensure, ok_or, keep, any, is_empty, find,
  first,
}
use mathlib.Core.Option
use rust_game_harry_potter.Effects.Zones.{
  zone_eq, resource_eq, health, active_villains, villain_discard, dark_arts_deck, dark_arts_discard,
}
use rust_game_harry_potter.Effects.Entities.{EffectEntity, kind_eq, villain, resource}
use rust_game_harry_potter.Effects.Rules.{EffectRule, trigger_eq, villain_reward}
use rust_game_harry_potter.Effects.Outcomes.{
  EffectOutcome, moved, resource_changed, EffectRoller, invalid_definition,
}
use rust_game_harry_potter.Effects.Choices.{
  EffectCursor, QueuedEffect, definition, stun_choice, EffectStop,
}
use rust_game_harry_potter.World.Store.{entities_in}
use rust_game_harry_potter.World.Moves.{Outcome, move_to_back}
use rust_game_harry_potter.Executor.Cursors.{root}
use rust_game_harry_potter.Executor.Costs.{RuleSelection, single, pay_costs}
use rust_game_harry_potter.Executor.Stun.{Table, apply_stun_resource_reset, finish_stun}
use rust_game_harry_potter.Executor.Reactions.{defeat_villain}
use rust_game_harry_potter.Executor.Draw.{log}
use rust_game_harry_potter.Executor.Machine.{Context, Machine, with_table, push_front}
use rust_game_harry_potter.Executor.Machine.Reveals.{refill_if}

-- The first recorded loss of all health: its rule and the hero.
unfoldable pub stunned_by : List EffectOutcome → Option (String × String)
stunned_by [] = none
stunned_by (resource_changed rule_id id position health (suc before) zero cause ∷ os) =
    some (rule_id, id)
stunned_by (_ ∷ os) = stunned_by os

abbrev pub is_defeated : EffectEntity → Bool
is_defeated e = e.kind == villain && resource e health == 0

abbrev pub defeated_of : EffectEntity → String × Option String
defeated_of e = (e.id, e.reward_rule_id)

abbrev pub is_reward : String → EffectRule → Bool
is_reward id rule = rule.id == id && rule.trigger == villain_reward

-- The rules of the Dark Arts deck: found by the card and free of cost.
abbrev pub free_rule : List EffectRule → String → Option EffectRule
free_rule rules id = find (λ rule. rule.id == id && is_empty rule.cost) rules

module _ {S : Type 0} where
  unfoldable pub resolve_cost_stun :
      ℕ → Table S → List QueuedEffect → Outcome (Table S × List QueuedEffect)
  unfolding stunned_by
  resolve_cost_stun position t queue = elim (stunned_by t.outcomes) [
    | none ↦ ok (t, queue)
    | some (rule_id, hero_id) ↦ do
      reset ← apply_stun_resource_reset hero_id position t
      if reset.1
          then ok (reset.0, stun_choice (root rule_id) position ∷ queue)
          else do done ← finish_stun reset.0; ok (done, queue)
  ]

  -- `pay_costs`, `resolve_cost_stun` and `outcomes.extend(costs)`.
  unfoldable pub settle_costs :
      ℕ → List EffectRule → RuleSelection → Machine S → Outcome (Machine S)
  unfolding resolve_cost_stun
  settle_costs position rules selection m = do
    paid ← pay_costs position rules selection m.table.world
    settled ←
        resolve_cost_stun position (record m.table { world = paid.1; outcomes = paid.0 }) m.queue
    ok (record m {
      table = record settled.0 { outcomes = m.table.outcomes ++ settled.0.outcomes };
      queue = settled.1;
    })

  -- The defeated villains leave; the ids of their rewards' rules.
  unfoldable pub discard_defeated :
      List EffectRule → List (String × Option String) → Table S → Outcome (List String × Table S)
  discard_defeated rules [] t = ok ([], t)
  discard_defeated rules ((id, reward) ∷ defeated) t = do
    w ← move_to_back id active_villains villain_discard none t.world
    let gone =
        log (moved defeat_villain id none active_villains villain_discard ∷ [])
          (record t { world = w })
    elim reward [
      | none ↦ discard_defeated rules defeated gone
      | some rule_id ↦ do
        ensure (any (is_reward rule_id) rules) invalid_definition
        rest ← discard_defeated rules defeated gone
        ok (rule_id ∷ rest.0, rest.1)
    ]

  -- `for reward in rewards.into_iter().rev()`
  unfoldable pub enqueue_rewards :
      ℕ → List EffectRule → List String → Machine S → Outcome (Machine S)
  unfolding settle_costs
  enqueue_rewards position rules [] m = ok m
  enqueue_rewards position rules (reward ∷ rewards) m = do
    later ← enqueue_rewards position rules rewards m
    settle_costs position rules (single reward)
        (push_front (definition (root reward) position) later)

  unfoldable pub enqueue_defeated_villains : Context → ℕ → Machine S → Outcome (Machine S)
  unfolding discard_defeated enqueue_rewards
  enqueue_defeated_villains c position m = do
    done ←
        discard_defeated c.rules
          (map defeated_of (keep is_defeated (entities_in m.table.world active_villains))) m.table
    enqueue_rewards position c.rules done.0 (with_table m done.1)

  unfoldable pub reveal_dark_arts :
      EffectRoller S
      → Context
      → EffectCursor
      → ℕ
      → Machine S
      → Outcome (Machine S × Option EffectStop)
  reveal_dark_arts random c cursor position m = do
    t ←
        refill_if random (is_empty (entities_in m.table.world dark_arts_deck)) none
          dark_arts_discard dark_arts_deck cursor.rule_id m.table
    card ← ok_or (first (entities_in t.world dark_arts_deck)) invalid_definition
    rule ← ok_or (Option.bind card.effect_rule_id (free_rule c.rules)) invalid_definition
    w ← move_to_back card.id dark_arts_deck dark_arts_discard none t.world
    ok (
      push_front (definition (root rule.id) position) (
          with_table m (
            log (moved cursor.rule_id card.id none dark_arts_deck dark_arts_discard ∷ [])
              (record t { world = w }))),
      none,
    )
