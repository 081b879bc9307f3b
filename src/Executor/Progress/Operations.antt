-- ===== src/Executor/Progress/Operations.antt =====
-- All operations of a card effect, on all targets, respect the cards and the record
-- (crates/game-domain/src/effects.rs, effects/game_two.rs, effects/game_three.rs,
-- effects/game_four.rs).
use rust_game_harry_potter.Base.{
  ℕ, refl, String, Bool, true, ◌&&◌, ◌||◌, not, Option, some, List, [], ◌∷◌, ◌==◌, nat_eq, ok_or,
  Ensures, yields, Ensures->>=, Ensures-ensure, Ensures-if, Ensures-ok, any, find_last, string_eq,
  option_eq,
}
use rust_game_harry_potter.Base.Text.{join, decimal}
use rust_game_harry_potter.Effects.Zones.{
  EffectZone, zone_eq, influence, health, hero_discard_pile, hero_play_area,
}
use rust_game_harry_potter.Effects.Rules.{
  pos, card_type_eq, ally, spell, EffectRule, EffectOperation,
}
use rust_game_harry_potter.Effects.Outcomes.{EffectRoller, invalid_definition}
use rust_game_harry_potter.World.Store.{EffectWorld, entity, entities_in, hero_at}
use rust_game_harry_potter.Executor.Abilities.{card_type}
use rust_game_harry_potter.Executor.Selectors.{within}
use rust_game_harry_potter.Executor.Stun.{Table, modify_entity_resource}
use rust_game_harry_potter.Executor.Apply.{record_copy, copyable, copies}
use rust_game_harry_potter.Executor.TurnStates.{change_turn_state}
use rust_game_harry_potter.Executor.Draw.{EffectSource, move_entity, refill_shuffled_pile}
use rust_game_harry_potter.Executor.Operations.{
  voluntary_discard, may_copy, copy_played_ally, discard_for_spell_bonus, apply_operation,
}
use rust_game_harry_potter.Executor.Machine.{Context}
use rust_game_harry_potter.Executor.Machine.Bonuses.{
  Bonus, apply_other_ally_bonus, another_ally, apply_bonuses, plays_rule, execute_other_ally_bonus,
}
use rust_game_harry_potter.Executor.Machine.Abilities.{least_limit}
use rust_game_harry_potter.Executor.Machine.Reveals.{limit_villains, refill_if}
use rust_game_harry_potter.Executor.Machine.Definitions.Applying.{apply_each}
use rust_game_harry_potter.Executor.Progress.{
  SameCards, Advances, Advances-refl, log-Advances, entity_mut-SameCards, Advances->>=,
}
use rust_game_harry_potter.Executor.Progress.Tables.{
  modify_entity_resource-Advances, suppress_villain-Advances, change_turn_state-Advances,
}
use rust_game_harry_potter.Executor.Progress.Effects.{
  move_entity-Advances, refill_shuffled_pile-Advances, draw_cards-Advances,
  gain_influence_and_draw-Advances, modify_resource-Advances, gain_influence_and_health-Advances,
  prevent_drawing-Advances, gain_attack_per_ally-Advances,
}

record_copy-SameCards :
    (rule_id card_id ally_id : String) (owner : ℕ) (w : EffectWorld)
    → Ensures (SameCards w) (record_copy rule_id card_id ally_id owner w)
unfolding record_copy
record_copy-SameCards rule_id card_id ally_id owner w =
    Ensures->>= (ok_or (entity w card_id) invalid_definition) _ λ found h.
      Ensures-ensure
        (copyable card_id ally_id owner (entity w ally_id) && copies rule_id owner found) _ _
        λ fits. yields (entity_mut-SameCards card_id _ w (λ e. refl))

module _ {S : Type 0} where
  copy_played_ally-Advances :
      (id : String) (source : EffectSource) (t : Table S)
      → Ensures (λ r. Advances t r.0) (copy_played_ally id source t)
  unfolding copy_played_ally
  copy_played_ally-Advances id source t =
      Ensures->>= (ok_or (entity t.world id) invalid_definition) _ λ found h.
        Ensures-ensure (found.0 == hero_play_area && card_type found.1 source.rules == some ally) _
          _
          λ fits. Ensures->>= (ok_or found.1.owner_position invalid_definition) _ λ owner i.
            Ensures->>=
              (ok_or
                (find_last (may_copy owner source.rule_id) (entities_in t.world hero_play_area))
                invalid_definition)
              _
              λ card j. Ensures->>= (record_copy source.rule_id card.id id owner t.world) _ λ w k.
                yields (
                  log-Advances _ w t refl
                    (Ensures-ok (record_copy-SameCards source.rule_id card.id id owner t.world) k))

  discard_for_spell_bonus-Advances :
      (id : String) (source : EffectSource) (bonus : ℕ) (t : Table S)
      → Ensures (λ r. Advances t r.0) (discard_for_spell_bonus id source bonus t)
  unfolding discard_for_spell_bonus
  discard_for_spell_bonus-Advances id source bonus t =
      Ensures->>= (ok_or (entity t.world id) invalid_definition) _ λ found h.
        Ensures->>= (ok_or found.1.owner_position invalid_definition) _ λ owner i.
          Advances->>= (move_entity id voluntary_discard hero_discard_pile t) _
            (move_entity-Advances id voluntary_discard hero_discard_pile t)
            λ gone j.
              Ensures-if (card_type found.1 source.rules == some spell) _ _
                (λ e.
                  let change =
                    modify_entity_resource (join "hero:" (decimal owner)) source.rule_id influence
                      (pos bonus) gone.0 in
                  Advances->>= change _
                    (modify_entity_resource-Advances (join "hero:" (decimal owner)) source.rule_id
                      influence (pos bonus) gone.0)
                    λ u k. yields (Advances-refl u.0))
                (λ e. yields (Advances-refl gone.0))

  pub apply_operation-Advances :
      (random : EffectRoller S) (id : String) (source : EffectSource) (operation : EffectOperation)
      (t : Table S)
      → Ensures (λ r. Advances t r.0) (apply_operation random id source operation t)
  unfolding apply_operation
  apply_operation-Advances random id source (EffectOperation.gain_influence_and_draw gained cards)
        t =
      gain_influence_and_draw-Advances random id source gained cards t
  apply_operation-Advances random id source EffectOperation.suppress_villain t =
      suppress_villain-Advances id source t
  apply_operation-Advances random id source (EffectOperation.discard_for_spell_bonus bonus) t =
      discard_for_spell_bonus-Advances id source bonus t
  apply_operation-Advances random id source
        (EffectOperation.gain_influence_and_health gained healed) t =
      gain_influence_and_health-Advances id source gained healed t
  apply_operation-Advances random id source EffectOperation.discard_voluntarily t =
      move_entity-Advances id voluntary_discard hero_discard_pile t
  apply_operation-Advances random id source EffectOperation.copy_played_ally t =
      copy_played_ally-Advances id source t
  apply_operation-Advances random id source (EffectOperation.gain_attack_per_ally_played amount) t =
      gain_attack_per_ally-Advances id source amount t
  apply_operation-Advances random id source EffectOperation.prevent_drawing t =
      prevent_drawing-Advances id source.rule_id t
  apply_operation-Advances random id source (EffectOperation.draw amount) t =
      draw_cards-Advances random id source amount t
  apply_operation-Advances random id source EffectOperation.discard t =
      move_entity-Advances id source.rule_id hero_discard_pile t
  apply_operation-Advances random id source (EffectOperation.modify_resource r amount) t =
      modify_resource-Advances id source r amount t
  apply_operation-Advances random id source (EffectOperation.move to) t =
      move_entity-Advances id source.rule_id to t

  pub apply_each-Advances :
      (random : EffectRoller S) (ids : List String) (source : EffectSource)
      (operation : EffectOperation) (t : Table S)
      → Ensures (λ r. Advances t r.1) (apply_each random ids source operation t)
  unfolding apply_each
  apply_each-Advances random [] source operation t = yields (Advances-refl t)
  apply_each-Advances random (id ∷ ids) source operation t =
      Advances->>= (apply_operation random id source operation t) _
        (apply_operation-Advances random id source operation t)
        λ first h.
          Advances->>= (apply_each random ids source operation first.0) _
            (apply_each-Advances random ids source operation first.0)
            λ rest k. yields (Advances-refl rest.1)

  apply_other_ally_bonus-Advances :
      (rules : List EffectRule) (b : Bonus) (t : Table S)
      → Ensures (Advances t) (apply_other_ally_bonus rules b t)
  unfolding apply_other_ally_bonus
  apply_other_ally_bonus-Advances rules b t =
      Ensures->>= (ok_or (entity t.world b.card_id) invalid_definition) _ λ found h.
        Ensures->>= (ok_or found.1.turn_state invalid_definition) _ λ state i.
          Ensures-if
            (state.ability_used
              || not
                  (any (another_ally b.card_id b.owner rules) (entities_in t.world hero_play_area)))
            _ _ (λ e. yields (Advances-refl t))
            λ e.
              let used = record state { ability_used = true } in
              Advances->>= (change_turn_state b.card_id b.rule_id used t) _
                (change_turn_state-Advances b.card_id b.rule_id used t)
                λ u j. Ensures->>= (ok_or (hero_at u.world b.owner) invalid_definition) _ λ hero k.
                  Advances->>= (modify_entity_resource hero.id b.rule_id health (pos b.amount) u) _
                    (modify_entity_resource-Advances hero.id b.rule_id health (pos b.amount) u)
                    λ healed l. yields (Advances-refl healed.0)

  pub apply_bonuses-Advances :
      (rules : List EffectRule) (bs : List Bonus) (t : Table S)
      → Ensures (Advances t) (apply_bonuses rules bs t)
  unfolding apply_bonuses
  apply_bonuses-Advances rules [] t = yields (Advances-refl t)
  apply_bonuses-Advances rules (b ∷ bs) t =
      Advances->>= (apply_other_ally_bonus rules b t) _ (apply_other_ally_bonus-Advances rules b t)
        λ u h. apply_bonuses-Advances rules bs u

  pub execute_other_ally_bonus-Advances :
      (c : Context) (rule_id : String) (owner amount : ℕ) (t : Table S)
      → Ensures (Advances t) (execute_other_ally_bonus c rule_id owner amount t)
  unfolding execute_other_ally_bonus
  execute_other_ally_bonus-Advances c rule_id owner amount t =
      Ensures-ensure (within 1 10 amount) _ _ λ fits.
        Ensures->>=
          (ok_or
            (find_last (plays_rule t.world c.rules owner rule_id)
              (entities_in t.world hero_play_area))
            invalid_definition)
          _ λ card h. apply_other_ally_bonus-Advances c.rules _ t

  pub limit_villains-Advances :
      (rule_id : String) (maximum : ℕ) (ids : List String) (t : Table S)
      → Ensures (Advances t) (limit_villains rule_id maximum ids t)
  unfolding limit_villains
  limit_villains-Advances rule_id maximum [] t = yields (Advances-refl t)
  limit_villains-Advances rule_id maximum (id ∷ ids) t =
      Ensures->>= (ok_or (entity t.world id) invalid_definition) _ λ found h.
        Ensures->>= (ok_or found.1.turn_state invalid_definition) _ λ state i.
          let limited = record state {
            attack_limit = some (least_limit state.attack_limit maximum);
          } in
          Advances->>= (change_turn_state id rule_id limited t) _
            (change_turn_state-Advances id rule_id limited t)
            λ u j. limit_villains-Advances rule_id maximum ids u

  pub refill_if-Advances :
      (random : EffectRoller S) (empty : Bool) (owner : Option ℕ) (from to : EffectZone)
      (rule_id : String) (t : Table S)
      → Ensures (Advances t) (refill_if random empty owner from to rule_id t)
  unfolding refill_if
  refill_if-Advances random empty owner from to rule_id t =
      Ensures-if (not empty) _ _ (λ e. yields (Advances-refl t))
        λ e. Ensures->>= (refill_shuffled_pile random owner from to rule_id t) _ λ run h.
          yields (Ensures-ok (refill_shuffled_pile-Advances random owner from to rule_id t) h)
