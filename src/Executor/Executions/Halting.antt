-- ===== src/Executor/Executions/Halting.antt =====
-- Every effect of the queue stops, if it does, at a choice that can be resumed
-- (`execute_definition` of crates/game-domain/src/effects.rs).
use mathlib.Core.Option
use rust_game_harry_potter.Base.{
  ℕ, ◌+◌, ◌≡◌, ap, true, ◌||◌, not, none, some, map, ◌==◌, nat_eq, ok_or, ok_or-eq-ok, Ensures,
  yields, Ensures->>=, Ensures-ensure, Ensures-if, length, ltb, leb, is_some, is_none, is_empty,
  first, inl, inr, Option-cases, string_eq, option_eq,
}
use rust_game_harry_potter.Effects.Zones.{
  hero_draw_pile, hero_discard_pile, dark_arts_deck, dark_arts_discard, active_villains,
}
use rust_game_harry_potter.Effects.Rules.{EffectDefinition, sides, trigger_eq}
use rust_game_harry_potter.Effects.Outcomes.{EffectRoller, invalid_definition, invalid_roll}
use rust_game_harry_potter.Effects.Choices.{
  EffectCursor, finish_stun, QueuedEffect, definition, queued_choice, stun_choice,
}
use rust_game_harry_potter.World.Store.{entity, entities_in, top_card_id, id_of}
use rust_game_harry_potter.World.Moves.{move_to_back}
use rust_game_harry_potter.Executor.Selectors.{
  within, selector_is_valid, condition_is_valid, eligible_entity_ids,
}
use rust_game_harry_potter.Executor.Cursors.{effect_count, effect_at_cursor}
use rust_game_harry_potter.Executor.Stun
use rust_game_harry_potter.Executor.Draw.{move_entity}
use rust_game_harry_potter.Executor.Machine.{Context, Machine}
use rust_game_harry_potter.Executor.Machine.Bonuses.{execute_other_ally_bonus}
use rust_game_harry_potter.Executor.Machine.Reveals.{cost_of}
use rust_game_harry_potter.Executor.Machine.Reveals.{
  limit_villains, limit_villain_attack, refill_if, reveal_top_card,
}
use rust_game_harry_potter.Executor.Machine.Defeats.{free_rule, reveal_dark_arts}
use rust_game_harry_potter.Executor.Machine.Definitions.{
  target_positions, execute_for_each_target, execute_roll, execute_definition,
}
use rust_game_harry_potter.Executor.Machine.Run.{options_of, execute_queued}
use rust_game_harry_potter.Executor.Executions.Stops.{
  Halts, goes_on, ends, execute_choice-Halts, execute_choice_audience-Halts,
  execute_stun_choice-Halts, execute_apply-Halts,
}

module _ {S : Type 0} (random : EffectRoller S) where
  reveal_top_card-Halts :
      (c : Context) (cursor : EffectCursor) (position least : ℕ) (m : Machine S)
      → Ensures (λ r. Halts c m.steps r.1) (reveal_top_card random cursor position least m)
  unfolding reveal_top_card
  reveal_top_card-Halts c cursor position least m =
      let missing = is_none (top_card_id m.table.world position hero_draw_pile) in
      let refill =
        refill_if random missing (some position) hero_discard_pile hero_draw_pile cursor.rule_id
          m.table in
      Ensures->>= refill _ λ t h.
        elim (Option-cases (top_card_id t.world position hero_draw_pile)) [
          | inl e ↦ rw e (yields goes_on)
          | inr (id, e) ↦ rw e (
              Ensures-if (ltb (cost_of (entity t.world id)) least) _ _ (λ x. yields goes_on)
                λ x.
                  Ensures->>= (move_entity id cursor.rule_id hero_discard_pile _) _
                    λ gone k. yields goes_on)
        ]

  reveal_dark_arts-Halts :
      (c : Context) (cursor : EffectCursor) (position : ℕ) (m : Machine S)
      → Ensures (λ r. Halts c m.steps r.1) (reveal_dark_arts random c cursor position m)
  unfolding reveal_dark_arts
  reveal_dark_arts-Halts c cursor position m =
      let missing = is_empty (entities_in m.table.world dark_arts_deck) in
      let refill =
        refill_if random missing none dark_arts_discard dark_arts_deck cursor.rule_id m.table in
      Ensures->>= refill _ λ t h.
        Ensures->>= (ok_or (first (entities_in t.world dark_arts_deck)) invalid_definition) _
          λ card i.
            Ensures->>=
              (ok_or (Option.bind card.effect_rule_id (free_rule c.rules)) invalid_definition) _
              λ rule j.
                Ensures->>= (move_to_back card.id dark_arts_deck dark_arts_discard none t.world) _
                  λ w k. yields goes_on

  execute_definition-Halts :
      (c : Context) (cursor : EffectCursor) (position : ℕ) (effect : EffectDefinition)
      (m : Machine S)
      → is_some (effect_at_cursor c.rules cursor) ≡ true
      → Ensures (λ r. Halts c m.steps r.1) (execute_definition random c cursor position effect m)
  unfolding execute_definition limit_villain_attack reveal_top_card reveal_dark_arts
      execute_for_each_target execute_roll
  execute_definition-Halts c cursor position (EffectDefinition.other_ally_bonus amount) m known =
      Ensures->>= (execute_other_ally_bonus c cursor.rule_id position amount m.table) _
        λ t h. yields goes_on
  execute_definition-Halts c cursor position (EffectDefinition.limit_villain_attack maximum) m
        known =
      Ensures-ensure (within 1 16 maximum) _ _ λ fits.
        Ensures->>=
          (limit_villains cursor.rule_id maximum
            (map id_of (entities_in m.table.world active_villains)) m.table)
          _ λ t h. yields goes_on
  execute_definition-Halts c cursor position (EffectDefinition.reveal_top_card least revealed) m
        known =
      reveal_top_card-Halts c cursor position least m
  execute_definition-Halts c cursor position EffectDefinition.reveal_dark_arts m known =
      reveal_dark_arts-Halts c cursor position m
  execute_definition-Halts c cursor position EffectDefinition.reveal_extra_dark_arts m known =
      reveal_dark_arts-Halts c cursor position m
  execute_definition-Halts c cursor position (EffectDefinition.apply target operation) m known =
      execute_apply-Halts random c cursor position target operation m known
  execute_definition-Halts c cursor position (EffectDefinition.choice audience options) m known =
      execute_choice_audience-Halts c cursor position audience (effect_count options) m known
  execute_definition-Halts c cursor position (EffectDefinition.condition test then_effect otherwise)
        m known =
      Ensures-ensure (condition_is_valid test) _ _ λ valid. yields goes_on
  execute_definition-Halts c cursor position EffectDefinition.no_op m known = yields goes_on
  execute_definition-Halts c cursor position (EffectDefinition.for_each_target target repeated) m
        known =
      let targets = eligible_entity_ids m.table.world position target c.rules in
      Ensures-ensure (selector_is_valid target) _ _ λ valid.
        Ensures-ensure (not (ltb target.max (length targets))) _ _ λ few.
          Ensures->>= (target_positions m.table.world target.zone position targets) _
            λ positions h. yields goes_on
  execute_definition-Halts c cursor position (EffectDefinition.repeat times repeated) m known =
      Ensures-ensure (not (times == 0)) _ _ λ some_times. yields goes_on
  execute_definition-Halts c cursor position (EffectDefinition.roll die outcomes) m known =
      Ensures-ensure (effect_count outcomes == sides die) _ _ λ as_many.
        Ensures->>= (ok_or (random.roll m.table.roller die).0 invalid_roll) _ λ result h.
          Ensures-ensure (not (result == 0 || ltb (sides die) result)) _ _ λ fits.
            Ensures-ensure (ltb (m.table.rolls_consumed + 1) 18446744073709551616) _ _
              λ small. yields goes_on
  execute_definition-Halts c cursor position (EffectDefinition.sequence effects) m known =
      Ensures-ensure (not (effect_count effects == 0)) _ _
        λ some_effects. Ensures-ensure (leb (effect_count effects) 65536) _ _ λ few. yields goes_on
  execute_definition-Halts c cursor position (EffectDefinition.terminal outcome) m known =
      yields ends
  execute_definition-Halts c cursor position (EffectDefinition.hero_ability strategy benefit) m
        known =
      yields goes_on
  execute_definition-Halts c cursor position EffectDefinition.prevent_extra_drawing m known =
      yields goes_on
  execute_definition-Halts c cursor position EffectDefinition.prevent_control_removal m known =
      yields goes_on
  execute_definition-Halts c cursor position (EffectDefinition.top_deck_acquisition t) m known =
      yields goes_on
  execute_definition-Halts c cursor position (EffectDefinition.has_card_type t) m known =
      yields goes_on
  execute_definition-Halts c cursor position (EffectDefinition.hand_damage_limit maximum) m known =
      yields goes_on
  execute_definition-Halts c cursor position (EffectDefinition.reaction trigger reacted) m known =
      yields goes_on

  pub execute_queued-Halts :
      (c : Context) (queued : QueuedEffect) (m : Machine S)
      → Ensures (λ r. Halts c m.steps r.1) (execute_queued random c queued m)
  unfolding execute_queued
  execute_queued-Halts c (definition cursor position) m =
      Ensures->>= (ok_or (effect_at_cursor c.rules cursor) invalid_definition) _ λ effect h.
        execute_definition-Halts c cursor position effect m
          (ap is_some (ok_or-eq-ok (effect_at_cursor c.rules cursor) invalid_definition h))
  execute_queued-Halts c (queued_choice cursor position) m =
      Ensures->>= (ok_or (effect_at_cursor c.rules cursor) invalid_definition) _ λ effect h.
        Ensures->>= (ok_or (options_of effect) invalid_definition) _ λ count k.
          execute_choice-Halts c cursor position count m
            (ap is_some (ok_or-eq-ok (effect_at_cursor c.rules cursor) invalid_definition h))
  execute_queued-Halts c (finish_stun cursor position) m =
      Ensures->>= (Stun.finish_stun m.table) _ λ t h. yields goes_on
  execute_queued-Halts c (stun_choice cursor position) m =
      execute_stun_choice-Halts c cursor position m
