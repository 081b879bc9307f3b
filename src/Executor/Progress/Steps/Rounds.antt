-- ===== src/Executor/Progress/Steps/Rounds.antt =====
-- One round of the executor's loop, for every effect definition
-- (crates/game-domain/src/effects.rs).
use rust_game_harry_potter.Base.{
  ℕ, ◌≤◌, refl, not, Option, none, some, ◌==◌, nat_eq, ok_or, Ensures, yields, Ensures->>=,
  Ensures-ensure, Ensures-ok, length, ltb, leb, arith,
}
use rust_game_harry_potter.Effects.Rules.{EffectDefinition}
use rust_game_harry_potter.Effects.Outcomes.{EffectRoller, invalid_definition}
use rust_game_harry_potter.Effects.Choices.{
  EffectPathSegment, EffectCursor, QueuedEffect, definition, queued_choice, finish_stun,
  stun_choice,
}
use rust_game_harry_potter.Executor.Selectors.{condition_is_valid}
use rust_game_harry_potter.Executor.Cursors.{effect_count, effect_at_cursor}
use rust_game_harry_potter.Executor.Stun
use rust_game_harry_potter.Executor.Machine.{
  Context, Machine, max_execution_steps, max_effect_outcomes, enqueue_copied_effects,
  enqueue_reactions,
}
use rust_game_harry_potter.Executor.Machine.Bonuses.{
  execute_other_ally_bonus, enqueue_other_ally_bonuses,
}
use rust_game_harry_potter.Executor.Machine.Abilities.{enqueue_hero_abilities}
use rust_game_harry_potter.Executor.Machine.Defeats.{enqueue_defeated_villains}
use rust_game_harry_potter.Executor.Machine.Definitions.{execute_definition, enqueue_branch}
use rust_game_harry_potter.Executor.Machine.Run.{
  options_of, position_of, execute_queued, follow_up, round, start,
}
use rust_game_harry_potter.Executor.Progress.{
  SameCards-refl, log-Advances, Evolves, Evolves-refl, Evolves-trans, Evolves->>=, enqueue-Evolves,
  table-Evolves,
}
use rust_game_harry_potter.Executor.Progress.Tables.{finish_stun-Advances}
use rust_game_harry_potter.Executor.Progress.Operations.{execute_other_ally_bonus-Advances}
use rust_game_harry_potter.Executor.Progress.Costs.{enqueue_defeated_villains-Evolves}
use rust_game_harry_potter.Executor.Progress.Machines.{
  enqueue_copied_effects-Evolves, enqueue_reactions-Evolves, enqueue_other_ally_bonuses-Evolves,
  enqueue_hero_abilities-Evolves, limit_villain_attack-Evolves, reveal_top_card-Evolves,
  reveal_dark_arts-Evolves,
}
use rust_game_harry_potter.Executor.Progress.Steps.{
  execute_choice-Evolves, execute_choice_audience-Evolves, execute_stun_choice-Evolves,
  nothing_done-Evolves, execute_for_each_target-Evolves, execute_apply-Evolves,
  execute_roll-Evolves,
}

module _ {S : Type 0} where
  enqueue_branch-Evolves :
      (c : EffectCursor) (position : ℕ) (b : Option EffectPathSegment) (m : Machine S)
      → Evolves m (enqueue_branch c position b m)
  enqueue_branch-Evolves c position none m = Evolves-refl m
  enqueue_branch-Evolves c position (some segment) m = enqueue-Evolves _ m

  execute_definition-Evolves :
      (random : EffectRoller S) (c : Context) (cursor : EffectCursor) (position : ℕ)
      (effect : EffectDefinition) (m : Machine S)
      → Ensures (λ r. Evolves m r.0) (execute_definition random c cursor position effect m)
  unfolding execute_definition
  execute_definition-Evolves random c cursor position (EffectDefinition.other_ally_bonus amount) m =
      Ensures->>= (execute_other_ally_bonus c cursor.rule_id position amount m.table) _ λ t h.
        yields (
          table-Evolves m m.queue (
            Ensures-ok (execute_other_ally_bonus-Advances c cursor.rule_id position amount m.table)
              h))
  execute_definition-Evolves random c cursor position
        (EffectDefinition.limit_villain_attack maximum) m =
      limit_villain_attack-Evolves cursor maximum m
  execute_definition-Evolves random c cursor position
        (EffectDefinition.reveal_top_card least revealed) m =
      reveal_top_card-Evolves random cursor position least m
  execute_definition-Evolves random c cursor position EffectDefinition.reveal_dark_arts m =
      reveal_dark_arts-Evolves random c cursor position m
  execute_definition-Evolves random c cursor position EffectDefinition.reveal_extra_dark_arts m =
      reveal_dark_arts-Evolves random c cursor position m
  execute_definition-Evolves random c cursor position (EffectDefinition.apply target operation) m =
      execute_apply-Evolves random c cursor position target operation m
  execute_definition-Evolves random c cursor position (EffectDefinition.choice audience options) m =
      execute_choice_audience-Evolves c cursor position audience (effect_count options) m
  execute_definition-Evolves random c cursor position
        (EffectDefinition.condition test yes_effect otherwise) m =
      Ensures-ensure (condition_is_valid test) _ _
        λ valid. yields (enqueue_branch-Evolves cursor position _ m)
  execute_definition-Evolves random c cursor position EffectDefinition.no_op m =
      nothing_done-Evolves cursor _ m
  execute_definition-Evolves random c cursor position
        (EffectDefinition.for_each_target target repeated) m =
      execute_for_each_target-Evolves c cursor position target m
  execute_definition-Evolves random c cursor position (EffectDefinition.repeat times repeated) m =
      Ensures-ensure (not (times == 0)) _ _ λ some_times. yields (enqueue-Evolves _ m)
  execute_definition-Evolves random c cursor position (EffectDefinition.roll die outcomes) m =
      execute_roll-Evolves random cursor position die outcomes m
  execute_definition-Evolves random c cursor position (EffectDefinition.sequence effects) m =
      Ensures-ensure (not (effect_count effects == 0)) _ _ λ some_effects.
        Ensures-ensure (leb (effect_count effects) 65536) _ _ λ few. yields (enqueue-Evolves _ m)
  execute_definition-Evolves random c cursor position (EffectDefinition.terminal outcome) m =
      yields (
        table-Evolves m m.queue
          (log-Advances _ m.table.world m.table refl (SameCards-refl m.table.world)))
  execute_definition-Evolves random c cursor position
        (EffectDefinition.hero_ability strategy benefit) m =
      yields (Evolves-refl m)
  execute_definition-Evolves random c cursor position EffectDefinition.prevent_extra_drawing m =
      yields (Evolves-refl m)
  execute_definition-Evolves random c cursor position EffectDefinition.prevent_control_removal m =
      yields (Evolves-refl m)
  execute_definition-Evolves random c cursor position (EffectDefinition.top_deck_acquisition t) m =
      yields (Evolves-refl m)
  execute_definition-Evolves random c cursor position (EffectDefinition.has_card_type t) m =
      yields (Evolves-refl m)
  execute_definition-Evolves random c cursor position (EffectDefinition.hand_damage_limit maximum)
        m =
      yields (Evolves-refl m)
  execute_definition-Evolves random c cursor position (EffectDefinition.reaction trigger reacted)
        m =
      yields (Evolves-refl m)

  execute_queued-Evolves :
      (random : EffectRoller S) (c : Context) (queued : QueuedEffect) (m : Machine S)
      → Ensures (λ r. Evolves m r.0) (execute_queued random c queued m)
  unfolding execute_queued
  execute_queued-Evolves random c (definition cursor position) m =
      Ensures->>= (ok_or (effect_at_cursor c.rules cursor) invalid_definition) _
        λ effect h. execute_definition-Evolves random c cursor position effect m
  execute_queued-Evolves random c (queued_choice cursor position) m =
      Ensures->>= (ok_or (effect_at_cursor c.rules cursor) invalid_definition) _ λ effect h.
        Ensures->>= (ok_or (options_of effect) invalid_definition) _
          λ count k. execute_choice-Evolves c cursor position count m
  execute_queued-Evolves random c (finish_stun cursor position) m =
      Ensures->>= (Stun.finish_stun m.table) _
        λ t h. yields (table-Evolves m m.queue (Ensures-ok (finish_stun-Advances m.table) h))
  execute_queued-Evolves random c (stun_choice cursor position) m =
      execute_stun_choice-Evolves c cursor position m

  -- What a follow-up leaves: no more outcomes than the limit.
  pub follow_up-Evolves :
      (c : Context) (from position : ℕ) (m : Machine S)
      → Ensures
          (λ n. Evolves m n × (length n.table.outcomes ≤ max_effect_outcomes))
          (follow_up c from position m)
  unfolding follow_up
  follow_up-Evolves c from position m =
      Ensures->>= (enqueue_defeated_villains c position m) _ λ m1 h1.
        Ensures->>= (enqueue_copied_effects from m1) _ λ m2 h2.
          Ensures->>= (enqueue_reactions c from m2) _ λ m3 h3.
            Ensures->>= (enqueue_other_ally_bonuses c from m3) _ λ m4 h4.
              Ensures->>= (enqueue_hero_abilities c from m4) _ λ m5 h5.
                Ensures-ensure (not (ltb max_effect_outcomes (length m5.table.outcomes))) _ _ λ few.
                  let e1 = Ensures-ok (enqueue_defeated_villains-Evolves c position m) h1 in
                  let e2 = Ensures-ok (enqueue_copied_effects-Evolves from m1) h2 in
                  let e3 = Ensures-ok (enqueue_reactions-Evolves c from m2) h3 in
                  let e4 = Ensures-ok (enqueue_other_ally_bonuses-Evolves c from m3) h4 in
                  let e5 = Ensures-ok (enqueue_hero_abilities-Evolves c from m4) h5 in
                  yields (
                    Evolves-trans e1 (Evolves-trans e2 (Evolves-trans e3 (Evolves-trans e4 e5))),
                    ground arith,
                  )

  -- A round that succeeds takes no more steps than the limit and records no more outcomes.
  pub round-Evolves :
      (random : EffectRoller S) (c : Context) (queued : QueuedEffect) (m : Machine S)
      → Ensures
          (λ r.
            Evolves m r.0
            × (m.steps ≤ max_execution_steps)
            × (length r.0.table.outcomes ≤ max_effect_outcomes))
          (round random c queued m)
  unfolding round
  round-Evolves random c queued m =
      Ensures-ensure (not (ltb max_execution_steps m.steps)) _ _ λ few.
        Ensures->>= (execute_queued random c queued m) _ λ done h.
          let did = Ensures-ok (execute_queued-Evolves random c queued m) h in
          Ensures->>= (follow_up c (length m.table.outcomes) (position_of queued) done.0) _
            λ next k.
              let followed =
                Ensures-ok
                  (follow_up-Evolves c (length m.table.outcomes) (position_of queued) done.0) k in
              yields (Evolves-trans did followed.0, ground arith, followed.1)

  pub start-Evolves : (c : Context) (m : Machine S) → Ensures (Evolves m) (start c m)
  unfolding start
  start-Evolves c m =
      Evolves->>= (enqueue_copied_effects 0 m) _ (enqueue_copied_effects-Evolves 0 m) λ m1 h1.
        Evolves->>= (enqueue_reactions c 0 m1) _ (enqueue_reactions-Evolves c 0 m1) λ m2 h2.
          Evolves->>= (enqueue_other_ally_bonuses c 0 m2) _
            (enqueue_other_ally_bonuses-Evolves c 0 m2)
            λ m3 h3.
              Evolves->>= (enqueue_hero_abilities c 0 m3) _ (enqueue_hero_abilities-Evolves c 0 m3)
                λ m4 h4. enqueue_defeated_villains-Evolves c c.actor_position m4
