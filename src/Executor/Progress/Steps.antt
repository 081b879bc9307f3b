-- ===== src/Executor/Progress/Steps.antt =====
-- A step of the executor respects the cards and the record (crates/game-domain/src/effects.rs).
pub mod Rounds
use rust_game_harry_potter.Base.{
  ℕ, zero, suc, ◌+◌, ◌-◌, ◌/◌, ◌≡◌, refl, sym, ap, ◌∙◌, String, Bool, true, false, ◌&&◌, ◌||◌, not,
  Option, none, some, List, [], ◌∷◌, ◌++◌, map, ◌==◌, nat_eq, ok, err, ok_or, ok_or-eq-ok, ensure,
  ◌>>=◌, ◌>>◌, Ensures, yields, fails, Ensures->>=, Ensures-ensure, Ensures-if, Ensures-weaken,
  Ensures-of, Ensures-ok, any, length, ltb, leb, arith, is_some, inl, inr, Option-cases,
  if◌then◌else◌, string_eq, option_eq,
}
use rust_game_harry_potter.Effects.Zones.{hero_hand}
use rust_game_harry_potter.Effects.Rules.{
  EffectDefinition, EffectDefinitions, EffectSelector, EffectOperation, EffectDie, sides,
  EffectChoiceAudience, trigger_eq,
}
use rust_game_harry_potter.Effects.Outcomes.{
  EffectRoller, EffectOutcome, EffectNoOpReason, die_rolled, invalid_definition, invalid_roll,
  invalid_target_selection, step_limit_exceeded,
}
use rust_game_harry_potter.Effects.Outcomes
use rust_game_harry_potter.Effects.Choices.{EffectCursor, finish_stun, PendingEffectChoiceKind}
use rust_game_harry_potter.World.Store.{cards_in_zone}
use rust_game_harry_potter.Executor.Selectors.{
  selector_is_valid, condition_is_valid, operation_is_valid_for_zone, eligible_entity_ids,
}
use rust_game_harry_potter.Executor.Cursors.{effect_count}
use rust_game_harry_potter.Executor.Stun
use rust_game_harry_potter.Executor.Draw.{EffectSource}
use rust_game_harry_potter.Executor.Machine.{Context, Machine, push_front, push_front_all}
use rust_game_harry_potter.Executor.Machine.Bonuses.{execute_other_ally_bonus}
use rust_game_harry_potter.Executor.Machine.Definitions.{
  target_positions, execute_for_each_target, execute_roll, execute_definition,
}
use rust_game_harry_potter.Executor.Machine.Definitions.Applying.{
  apply_each, apply_to, nothing_done, apply_unbound, binding_of, binding_is_valid, is_manual,
  execute_apply,
}
use rust_game_harry_potter.Executor.Machine.Definitions.Choosing.{
  pending_choice_id, stop_for, execute_choice, hero_positions, execute_choice_audience,
  execute_stun_choice, waiting_choices, numbered_options,
}
use rust_game_harry_potter.Executor.Progress.{
  SameCards-refl, Advances, Advances-refl, Advances-trans, log-Advances, Evolves, Evolves-refl,
  Evolves-trans, enqueue-Evolves, table-Evolves,
}
use rust_game_harry_potter.Executor.Progress.Tables.{finish_stun-Advances}
use rust_game_harry_potter.Executor.Progress.Operations.{
  apply_each-Advances, execute_other_ally_bonus-Advances,
}
use rust_game_harry_potter.Executor.Progress.Machines.{
  limit_villain_attack-Evolves, reveal_top_card-Evolves, reveal_dark_arts-Evolves,
}

module _ {S : Type 0} where
  stop_for-Evolves :
      (c : Context) (cursor : EffectCursor) (kind : PendingEffectChoiceKind) (position : ℕ)
      (options : List String) (min max : ℕ) (m : Machine S)
      → Ensures (λ r. Evolves m r.0) (stop_for c cursor kind position options min max m)
  unfolding stop_for
  stop_for-Evolves c cursor kind position options min max m =
      Ensures->>= (pending_choice_id c cursor kind m) _ λ id h. yields (Evolves-refl m)

  pub execute_choice-Evolves :
      (c : Context) (cursor : EffectCursor) (position count : ℕ) (m : Machine S)
      → Ensures (λ r. Evolves m r.0) (execute_choice c cursor position count m)
  unfolding execute_choice
  execute_choice-Evolves c cursor position count m = Ensures-ensure (not (ltb count 2)) _ _ λ fits.
      stop_for-Evolves c cursor PendingEffectChoiceKind.effect position (numbered_options count 1) 1
        1 m

  pub execute_choice_audience-Evolves :
      (c : Context) (cursor : EffectCursor) (position : ℕ) (audience : EffectChoiceAudience)
      (count : ℕ) (m : Machine S)
      → Ensures (λ r. Evolves m r.0) (execute_choice_audience c cursor position audience count m)
  unfolding execute_choice_audience
  execute_choice_audience-Evolves c cursor position EffectChoiceAudience.choice_actor count m =
      execute_choice-Evolves c cursor position count m
  execute_choice_audience-Evolves c cursor position EffectChoiceAudience.each_hero count m =
      elim (hero_positions m.table.world)
        as (λ ps.
          Ensures (λ r. Evolves m r.0)
            (elim ps [
              | [] ↦ err invalid_definition
              | first ∷ remaining ↦
                  execute_choice c cursor first count
                    (push_front_all (waiting_choices cursor remaining) m)
            ])) [
              | [] ↦ fails
              | first ∷ remaining ↦
                  Ensures-weaken
                    (execute_choice-Evolves c cursor first count
                      (push_front_all (waiting_choices cursor remaining) m))
                    (λ r e. record { table = e.table; steps = e.steps })
            ]

  pub execute_stun_choice-Evolves :
      (c : Context) (cursor : EffectCursor) (position : ℕ) (m : Machine S)
      → Ensures (λ r. Evolves m r.0) (execute_stun_choice c cursor position m)
  unfolding execute_stun_choice
  execute_stun_choice-Evolves c cursor position m =
      let options = cards_in_zone m.table.world position hero_hand in
      Ensures-if (length options / 2 == 0) _ _
        (λ x.
          Ensures->>= (Stun.finish_stun m.table) _
            λ t h. yields (table-Evolves m m.queue (Ensures-ok (finish_stun-Advances m.table) h)))
        (λ x. Ensures-ensure (ltb (length options / 2) 65536) _ _ λ fits.
          Ensures-weaken
            (stop_for-Evolves c cursor PendingEffectChoiceKind.stun_discard position options
              (length options / 2) (length options / 2)
              (push_front (finish_stun cursor position) m))
            (λ r e. record { table = e.table; steps = e.steps }))

  pub nothing_done-Evolves :
      (cursor : EffectCursor) (reason : EffectNoOpReason) (m : Machine S)
      → Ensures (λ r. Evolves m r.0) (nothing_done cursor reason m)
  nothing_done-Evolves cursor reason m = yields (
      table-Evolves m m.queue
        (log-Advances _ m.table.world m.table refl (SameCards-refl m.table.world)))

  pub execute_for_each_target-Evolves :
      (c : Context) (cursor : EffectCursor) (position : ℕ) (target : EffectSelector) (m : Machine S)
      → Ensures (λ r. Evolves m r.0) (execute_for_each_target c cursor position target m)
  unfolding execute_for_each_target
  execute_for_each_target-Evolves c cursor position target m =
      let targets = eligible_entity_ids m.table.world position target c.rules in
      Ensures-ensure (selector_is_valid target) _ _ λ valid.
        Ensures-ensure (not (ltb target.max (length targets))) _ _ λ few.
          Ensures->>= (target_positions m.table.world target.zone position targets) _
            λ positions h. yields (enqueue-Evolves _ m)

module _ {S : Type 0} (random : EffectRoller S) where
  apply_to-Evolves :
      (c : Context) (cursor : EffectCursor) (position : ℕ) (operation : EffectOperation)
      (ids : List String) (m : Machine S)
      → Ensures (λ r. Evolves m r.0) (apply_to random c cursor position operation ids m)
  unfolding apply_to
  apply_to-Evolves c cursor position operation ids m =
      let source : EffectSource = record {
        actor_position = position;
        rule_id = cursor.rule_id;
        rules = c.rules;
      } in
      Ensures->>= (apply_each random ids source operation m.table) _ λ done h.
        yields (
          table-Evolves m _
            (Ensures-ok (apply_each-Advances random ids source operation m.table) h))

  apply_unbound-Evolves :
      (c : Context) (cursor : EffectCursor) (position : ℕ) (target : EffectSelector)
      (operation : EffectOperation) (candidates : List String) (m : Machine S)
      → Ensures
          (λ r. Evolves m r.0)
          (apply_unbound random c cursor position target operation candidates m)
  unfolding apply_unbound
  apply_unbound-Evolves c cursor position target operation candidates m =
      Ensures-if
        (is_some target.id
          && c.require_named_target_bindings
          && any (is_manual cursor.rule_id) c.rules)
        _ _ (λ x. fails)
        λ x.
          Ensures-if (ltb target.max (length candidates)) _ _
            (λ y.
              stop_for-Evolves c cursor PendingEffectChoiceKind.target position candidates
                target.min target.max m)
            (λ y. apply_to-Evolves c cursor position operation candidates m)

  pub execute_apply-Evolves :
      (c : Context) (cursor : EffectCursor) (position : ℕ) (target : EffectSelector)
      (operation : EffectOperation) (m : Machine S)
      → Ensures (λ r. Evolves m r.0) (execute_apply random c cursor position target operation m)
  unfolding execute_apply
  execute_apply-Evolves c cursor position target operation m =
      let candidates = eligible_entity_ids m.table.world position target c.rules in
      Ensures-ensure (selector_is_valid target && operation_is_valid_for_zone operation target.zone)
        _ _
        λ valid.
          Ensures-if (target.max == 0) _ _ (λ x. nothing_done-Evolves cursor _ m)
            λ x.
              Ensures-if (ltb (length candidates) target.min) _ _
                (λ y. nothing_done-Evolves cursor _ m)
                λ y. elim (Option-cases (binding_of c cursor.rule_id target)) [
                  | inl e ↦
                      rw e (apply_unbound-Evolves c cursor position target operation candidates m)
                  | inr (binding, e) ↦ rw e (
                      Ensures-ensure (binding_is_valid target candidates binding.target_ids) _ _
                        λ fits. apply_to-Evolves c cursor position operation binding.target_ids m)
                ]

  pub execute_roll-Evolves :
      (cursor : EffectCursor) (position : ℕ) (die : EffectDie) (outcomes : EffectDefinitions)
      (m : Machine S)
      → Ensures (λ r. Evolves m r.0) (execute_roll random cursor position die outcomes m)
  unfolding execute_roll
  execute_roll-Evolves cursor position die outcomes m =
      let rolled = random.roll m.table.roller die in
      Ensures-ensure (effect_count outcomes == sides die) _ _ λ as_many.
        Ensures->>= (ok_or rolled.0 invalid_roll) _ λ result h.
          Ensures-ensure (not (result == 0 || ltb (sides die) result)) _ _ λ fits.
            Ensures-ensure (ltb (m.table.rolls_consumed + 1) 18446744073709551616) _ _ λ small.
              yields (
                table-Evolves m _ (record {
                  fresh = die_rolled cursor.rule_id die result ∷ [];
                  recorded = refl;
                  counted = refl;
                  cards = SameCards-refl m.table.world;
                }))
