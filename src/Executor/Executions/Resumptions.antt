-- ===== src/Executor/Executions/Resumptions.antt =====
-- Resuming an execution ends, leaves the same cards and counts the samples
-- (`resume_effects` of crates/game-domain/src/effects.rs).
use rust_game_harry_potter.Base.{
  ℕ, ◌≡◌, ◌≢◌, ◌≤◌, ap, ◌∙◌, inl, inr, false, not, some, List, [], String, ok, err, ensure, ok_or,
  raise, out_of_fuel, map_err-eq-ok, Ensures, yields, fails, Ensures->>=, Ensures-ok,
  Ensures-weaken, Ensures-ensure, length, keep, contains, count, arith, ltb, ◌==◌, string_eq,
  nat_eq, option_eq, list_eq,
}
use rust_game_harry_potter.Base.Termination.{
  Terminates, Terminates-ne, Terminates->>=, Terminates-raise_as,
}
use rust_game_harry_potter.Effects.Zones.{health, hero_hand, hero_discard_pile}
use rust_game_harry_potter.Effects.Rules.{EffectRule, EffectDefinition}
use rust_game_harry_potter.Effects.Outcomes.{
  EffectRoller, consumes_random_sample, invalid_definition, invalid_choice, step_limit_exceeded,
}
use rust_game_harry_potter.Effects.Choices.{PendingEffectChoice, PendingEffectChoiceKind}
use rust_game_harry_potter.World.Store.{EffectWorld, cards_in_zone, hero_resource}
use rust_game_harry_potter.World.Moves.{Outcome}
use rust_game_harry_potter.Executor.Selectors.{eligible_entity_ids}
use rust_game_harry_potter.Executor.Cursors.{effect_count, effect_at_cursor}
use rust_game_harry_potter.Executor.Stun.{Table, stun_rule_id}
use rust_game_harry_potter.Executor.Draw.{EffectSource}
use rust_game_harry_potter.Executor.Machine.{
  Context, Machine, max_execution_steps, max_effect_outcomes,
}
use rust_game_harry_potter.Executor.Machine.Definitions.Applying.{apply_each}
use rust_game_harry_potter.Executor.Machine.Run.{EffectResolution}
use rust_game_harry_potter.Executor.Rules.{effect_rules_are_valid}
use rust_game_harry_potter.Executor.Resume.{
  index_of, sole, cursor_of, discard_stunned_hand, choose_effect, choose_targets, choose,
  resumption_is_valid, resume_effects,
}
use rust_game_harry_potter.Executor.Progress.{
  Advances, Advances-trans, Evolves, enqueue-Evolves, table-Evolves,
}
use rust_game_harry_potter.Executor.Progress.Effects.{move_all-Advances}
use rust_game_harry_potter.Executor.Progress.Operations.{apply_each-Advances}
use rust_game_harry_potter.Executor.Executions.{Bounded, run-Executed, run-Terminates}
use rust_game_harry_potter.Executor.Executions.Entries.{Reported}

-- The machine that a choice is resumed with.
abbrev resumed : {S : Type 0} → PendingEffectChoice → EffectWorld → S → Machine S
resumed pending w roller = record {
  table = record { world = w; outcomes = []; roller = roller; rolls_consumed = 0 };
  queue = pending.continuation.queue;
  steps = pending.continuation.steps_completed;
}

abbrev pub resumed_context : ℕ → List EffectRule → Context
resumed_context position rules = record {
  actor_position = position;
  rules = rules;
  target_bindings = [];
  require_named_target_bindings = false;
}

module _ {S : Type 0} where
  choose_effect-Evolves :
      (pending : PendingEffectChoice) (selected : List String) (count : ℕ) (m : Machine S)
      → Ensures (Evolves m) (choose_effect pending selected count m)
  unfolding choose_effect
  choose_effect-Evolves pending selected count m =
      Ensures-ensure (length pending.options == count) _ _ λ as_many.
        Ensures->>= (ok_or (sole selected) invalid_choice) _ λ option h.
          Ensures->>= (ok_or (index_of option pending.options) invalid_choice) _
            λ index k. Ensures-ensure (ltb index 65536) _ _ λ small. yields (enqueue-Evolves _ m)

  discard_stunned_hand-Advances :
      (pending : PendingEffectChoice) (selected : List String) (t : Table S)
      → Ensures (Advances t) (discard_stunned_hand pending selected t)
  unfolding discard_stunned_hand
  discard_stunned_hand-Advances pending selected t =
      Ensures-ensure
        (list_eq (cards_in_zone t.world pending.responsible_position hero_hand) pending.options) _ _
        λ same. move_all-Advances selected hero_hand hero_discard_pile _ stun_rule_id t

module _ {S : Type 0} (random : EffectRoller S) where
  choose_targets-Evolves :
      (pending : PendingEffectChoice) (selected : List String) (rules : List EffectRule)
      (effect : EffectDefinition) (m : Machine S)
      → Ensures (Evolves m) (choose_targets random pending selected rules effect m)
  unfolding choose_targets
  choose_targets-Evolves pending selected rules (EffectDefinition.apply target operation) m =
      let source : EffectSource = record {
        actor_position = pending.responsible_position;
        rule_id = pending.cause;
        rules = rules;
      } in
      let ids = keep (contains selected) pending.options in
      Ensures-ensure
        (list_eq (eligible_entity_ids m.table.world pending.responsible_position target rules)
          pending.options)
        _ _
        λ same. Ensures->>= (apply_each random ids source operation m.table) _ λ done h. yields (
          table-Evolves m _
            (Ensures-ok (apply_each-Advances random ids source operation m.table) h))
  choose_targets-Evolves pending selected rules _ m = fails

  choose-Evolves :
      (kind : PendingEffectChoiceKind) (pending : PendingEffectChoice) (selected : List String)
      (rules : List EffectRule) (effect : EffectDefinition) (m : Machine S)
      → Ensures (Evolves m) (choose random kind pending selected rules effect m)
  unfolding choose
  choose-Evolves PendingEffectChoiceKind.effect pending selected rules
        (EffectDefinition.choice audience options) m =
      choose_effect-Evolves pending selected (effect_count options) m
  choose-Evolves PendingEffectChoiceKind.target pending selected rules effect m =
      choose_targets-Evolves pending selected rules effect m
  choose-Evolves PendingEffectChoiceKind.stun_discard pending selected rules effect m =
      Ensures-ensure (hero_resource m.table.world pending.responsible_position health == some 0) _ _
        λ down. Ensures->>= (discard_stunned_hand pending selected m.table) _ λ t h. yields (
          table-Evolves m m.queue
            (Ensures-ok (discard_stunned_hand-Advances pending selected m.table) h))
  choose-Evolves kind pending selected rules effect m = fails

-- The two tests of a resumption.
abbrev valid_rules : List EffectRule → Outcome (Unit {0})
valid_rules rules = ensure (effect_rules_are_valid rules) invalid_definition

abbrev valid_resumption : PendingEffectChoice → List String → Outcome (Unit {0})
valid_resumption pending selected = ensure (resumption_is_valid pending selected) invalid_choice

resumption-within :
    (pending : PendingEffectChoice) (selected : List String) {a : Unit {0}}
    → valid_resumption pending selected ≡ ok a
    → pending.continuation.steps_completed ≤ max_execution_steps
resumption-within pending selected h = ground arith

module _ {S : Type 0} (random : EffectRoller S) (position : ℕ) (pending : PendingEffectChoice)
    (selected : List String) (rules : List EffectRule) (w : EffectWorld) (roller : S) where
  resume_effects-Terminates :
      Terminates (resume_effects random position pending selected rules w roller)
  unfolding resume_effects
  resume_effects-Terminates =
      Terminates->>= (raise (valid_rules rules)) _
        (Terminates-raise_as (λ x. x) (valid_rules rules))
        λ a h.
          Terminates->>= (raise (valid_resumption pending selected)) _
            (Terminates-raise_as (λ x. x) (valid_resumption pending selected))
            λ b i.
              let effect = ok_or (effect_at_cursor rules (cursor_of pending)) invalid_choice in
              Terminates->>= (raise effect) _ (Terminates-raise_as (λ x. x) effect) λ found j.
                let chosen =
                  choose random pending.kind pending selected rules found
                    (resumed pending w roller) in
                Terminates->>= (raise chosen) _ (Terminates-raise_as (λ x. x) chosen) λ m k.
                  let limit : Outcome (Unit {0}) =
                    ensure (not (ltb max_effect_outcomes (length m.table.outcomes)))
                      step_limit_exceeded in
                  Terminates->>= (raise limit) _ (Terminates-raise_as (λ x. x) limit)
                    λ c l. run-Terminates random (resumed_context position rules) m

  resume_effects-Reported :
      Ensures
        (Reported (resumed_context position rules) 0 w)
        (resume_effects random position pending selected rules w roller)
  unfolding resume_effects Bounded
  resume_effects-Reported = Ensures->>= (raise (valid_rules rules)) _ λ a h.
      Ensures->>= (raise (valid_resumption pending selected)) _ λ b i.
        Ensures->>= (raise (ok_or (effect_at_cursor rules (cursor_of pending)) invalid_choice)) _
          λ found j.
            let chosen =
              choose random pending.kind pending selected rules found (resumed pending w roller) in
            Ensures->>= (raise chosen) _ λ m k.
              Ensures->>=
                (raise (
                  ensure (not (ltb max_effect_outcomes (length m.table.outcomes)))
                    step_limit_exceeded))
                _
                λ c l.
                  let did =
                    Ensures-ok
                      (choose-Evolves random pending.kind pending selected rules found
                        (resumed pending w roller))
                      (map_err-eq-ok _ chosen k) in
                  let valid =
                    resumption-within pending selected
                      (map_err-eq-ok _ (valid_resumption pending selected) i) in
                  Ensures-weaken (run-Executed random (resumed_context position rules) m) λ r done.
                    let all = Advances-trans did.table done.0.work in
                    record {
                      cards = all.cards;
                      counted = omega (
                        arith,
                        all.counted,
                        done.0.rolled,
                        ap (count consumes_random_sample) (done.0.reported ∙ all.recorded),
                      );
                      few = elim done.1 [
                        | inl e ↦ omega (arith, e, did.steps, valid)
                        | inr e ↦ e.0
                      ];
                      stopped = done.0.stopped;
                      left = done.0.left;
                    }

  -- Resuming a choice ends: it returns a resolution or one of the source's errors.
  pub resume_effects_ends :
      resume_effects random position pending selected rules w roller ≢ err out_of_fuel
  resume_effects_ends = Terminates-ne resume_effects-Terminates

  -- A resumption that succeeds leaves every card on the table as often as it was there, reports as many
  -- consumed samples as it recorded, stays within the limit of steps and stops in order again.
  pub resume_effects_lem :
      {r : EffectResolution × Machine S}
      → resume_effects random position pending selected rules w roller ≡ ok r
      → Reported (resumed_context position rules) 0 w r
  resume_effects_lem h = Ensures-ok resume_effects-Reported h
