-- ===== src/Executor/Executions/Entries.antt =====
-- The ways into the executor: every execution ends, leaves the same cards and reports what it did
-- (`execute_effects_with_targets` and `resume_effects` of crates/game-domain/src/effects.rs).
use mathlib.Core.List.{append_assoc}
use rust_game_harry_potter.Base.{
  ℕ, ◌+◌, ◌≡◌, ◌≢◌, ◌≤◌, refl, ap, ◌∙◌, inl, inr, Bool, not, ◌&&◌, List, ◌++◌, ok, err, ensure,
  raise, out_of_fuel, map_err-eq-ok, Ensures, yields, Ensures->>=, Ensures-ok, Ensures-weaken,
  Ensures-ensure, Ensures-if, length, count, arith, ltb, if◌then◌else◌,
}
use rust_game_harry_potter.Base.Counting.{count-append}
use rust_game_harry_potter.Base.Termination.{
  Terminates, Terminates-ne, Terminates->>=, Terminates-raise_as,
}
use rust_game_harry_potter.Effects.Entities.{EffectEntity}
use rust_game_harry_potter.Effects.Rules.{EffectRule}
use rust_game_harry_potter.Effects.Outcomes.{
  EffectRoller, consumes_random_sample, invalid_definition, unaffordable_cost,
}
use rust_game_harry_potter.World.Store.{EffectWorld}
use rust_game_harry_potter.World.Moves.{Outcome}
use rust_game_harry_potter.World.Census.{census}
use rust_game_harry_potter.Executor.Costs.{pay_costs}
use rust_game_harry_potter.Executor.Stun.{Table}
use rust_game_harry_potter.Executor.TurnStates.{begin_turn}
use rust_game_harry_potter.Executor.Machine.{
  Context, Machine, max_execution_steps, max_effect_outcomes,
}
use rust_game_harry_potter.Executor.Machine.Defeats.{resolve_cost_stun}
use rust_game_harry_potter.Executor.Machine.Run.{EffectResolution}
use rust_game_harry_potter.Executor.Rules.{effect_rules_are_valid, selected_costs_are_affordable}
use rust_game_harry_potter.Executor.Plan.{
  EffectExecutionPlan, bindings_are_valid, selected_queue, opens_turn, prepare_execution,
  execute_effects_with_targets,
}
use rust_game_harry_potter.Executor.Progress.{
  SameCards, SameCards-trans, Advances, Advances-refl, Advances-trans, printed,
}
use rust_game_harry_potter.Executor.Progress.Tables.{begin_turn-Advances}
use rust_game_harry_potter.Executor.Progress.Costs.{resolve_cost_stun-counted}
use rust_game_harry_potter.Executor.Executions.{Stopped, Bounded, run-Executed, run-Terminates}

-- The context that a plan runs in.
abbrev pub context_of : List EffectRule → EffectExecutionPlan → Context
context_of rules plan = record {
  actor_position = plan.actor_position;
  rules = rules;
  target_bindings = plan.target_bindings;
  require_named_target_bindings = plan.require_named_target_bindings;
}

-- The two tests of a plan.
abbrev admitted : List EffectRule → EffectExecutionPlan → Outcome (Unit {0})
admitted rules plan =
    ensure (effect_rules_are_valid rules && bindings_are_valid plan.target_bindings)
      invalid_definition

abbrev affordable : EffectWorld → List EffectRule → EffectExecutionPlan → Outcome (Unit {0})
affordable w rules plan =
    ensure (selected_costs_are_affordable w plan.actor_position rules plan.selection)
      unaffordable_cost

-- The table before anything is paid.
abbrev before : {S : Type 0} → EffectExecutionPlan → EffectWorld → S → Table S
before plan w roller = record {
  world = w;
  outcomes = plan.initial_outcomes;
  roller = roller;
  rolls_consumed = 0;
}

module _ {S : Type 0} where
  opened-Advances :
      (b : Bool) (position : ℕ) (t : Table S)
      → Ensures (Advances t) (if b then begin_turn position t else ok t)
  opened-Advances b position t =
      Ensures-if b _ _ (λ e. begin_turn-Advances position t) (λ e. yields (Advances-refl t))

  prepare_execution-Advances :
      (rules : List EffectRule) (plan : EffectExecutionPlan) (w : EffectWorld) (roller : S)
      → Ensures
          (λ m. Advances (before plan w roller) m.table × (m.steps ≡ 0))
          (prepare_execution rules plan w roller)
  unfolding prepare_execution
  prepare_execution-Advances rules plan w roller =
      let t0 = before plan w roller in
      let queue = plan.initial_queue ++ selected_queue w plan.actor_position plan.selection rules in
      Ensures->>= (pay_costs plan.actor_position rules plan.selection w) _ λ paid h.
        Ensures->>=
          (resolve_cost_stun plan.actor_position (record t0 { world = paid.1; outcomes = paid.0 })
            queue)
          _
          λ settled k.
            let paying =
              resolve_cost_stun-counted plan.actor_position rules plan.selection queue t0 h k in
            let t1 = record settled.0 { outcomes = plan.initial_outcomes } in
            Ensures->>=
              (if opens_turn plan.selection then begin_turn plan.actor_position t1 else ok t1) _
              λ t i.
                let opened =
                  Ensures-ok (opened-Advances (opens_turn plan.selection) plan.actor_position t1)
                    i in
                Ensures-ensure
                  (not (ltb max_effect_outcomes (length (t.outcomes ++ settled.0.outcomes)))) _ _
                  λ few. yields (
                    record {
                      fresh = opened.fresh ++ settled.0.outcomes;
                      recorded =
                          ap (λ os. os ++ settled.0.outcomes) opened.recorded
                          ∙ append_assoc plan.initial_outcomes opened.fresh settled.0.outcomes;
                      counted = omega (
                        arith,
                        opened.counted,
                        paying.0,
                        count-append consumes_random_sample opened.fresh settled.0.outcomes,
                      );
                      cards = SameCards-trans paying.1 opened.cards;
                    },
                    refl,
                  )

-- What an execution reports, and what it leaves of the table it was given.
pub record Reported {S : Type 0} (c : Context) (sampled : ℕ) (w : EffectWorld)
    (r : EffectResolution × Machine S) : Type 0 where
  pub cards : SameCards w r.1.table.world
  pub counted : count consumes_random_sample r.0.outcomes ≡ sampled + r.0.rolls_consumed
  pub few : r.1.steps ≤ max_execution_steps
  pub stopped : Stopped c r.0.stop r.1
  pub left : r.0.queue ≡ r.1.queue

module _ {S : Type 0} (random : EffectRoller S) (rules : List EffectRule)
    (plan : EffectExecutionPlan) (w : EffectWorld) (roller : S) where
  execute_effects_with_targets-Terminates :
      Terminates (execute_effects_with_targets random rules plan w roller)
  unfolding execute_effects_with_targets
  execute_effects_with_targets-Terminates =
      Terminates->>= (raise (admitted rules plan)) _
        (Terminates-raise_as (λ x. x) (admitted rules plan))
        λ a h.
          Terminates->>= (raise (affordable w rules plan)) _
            (Terminates-raise_as (λ x. x) (affordable w rules plan))
            λ b k.
              Terminates->>= (raise (prepare_execution rules plan w roller)) _
                (Terminates-raise_as (λ x. x) (prepare_execution rules plan w roller))
                λ m i. run-Terminates random (context_of rules plan) m

  execute_effects_with_targets-Reported :
      Ensures
        (Reported (context_of rules plan) (count consumes_random_sample plan.initial_outcomes) w)
        (execute_effects_with_targets random rules plan w roller)
  unfolding execute_effects_with_targets Bounded
  execute_effects_with_targets-Reported = Ensures->>= (raise (admitted rules plan)) _ λ a h.
      Ensures->>= (raise (affordable w rules plan)) _ λ b k.
        Ensures->>= (raise (prepare_execution rules plan w roller)) _ λ m i.
          let ready =
            Ensures-ok (prepare_execution-Advances rules plan w roller) (map_err-eq-ok _ _ i) in
          Ensures-weaken (run-Executed random (context_of rules plan) m) λ r done.
            let all = Advances-trans ready.0 done.0.work in
            record {
              cards = all.cards;
              counted = omega (
                arith,
                all.counted,
                done.0.rolled,
                ap (count consumes_random_sample) (done.0.reported ∙ all.recorded),
                count-append consumes_random_sample plan.initial_outcomes all.fresh,
              );
              few = elim done.1 [ inl e ↦ omega (arith, e, ready.1) | inr e ↦ e.0 ];
              stopped = done.0.stopped;
              left = done.0.left;
            }

module _ {S : Type 0} (random : EffectRoller S) (rules : List EffectRule)
    (plan : EffectExecutionPlan) (w : EffectWorld) (roller : S) where
  -- An execution of a plan ends: it returns a resolution or one of the source's errors, so the 4096
  -- steps that bound the loop are always enough to end it.
  pub execute_effects_with_targets_ends :
      execute_effects_with_targets random rules plan w roller ≢ err out_of_fuel
  execute_effects_with_targets_ends =
      Terminates-ne (execute_effects_with_targets-Terminates random rules plan w roller)

  -- An execution that succeeds leaves every card on the table as often as it was there: whatever is
  -- asked of what is printed on a card (all but its owner, resources and state), as many entities pass.
  pub census-execute_effects_with_targets :
      {r : EffectResolution × Machine S} (q : EffectEntity → Bool)
      → execute_effects_with_targets random rules plan w roller ≡ ok r
      → census (λ e. q (printed e)) r.1.table.world ≡ census (λ e. q (printed e)) w
  census-execute_effects_with_targets q h =
      (Ensures-ok (execute_effects_with_targets-Reported random rules plan w roller) h).cards.same q

  -- An execution that succeeds counts the random samples it consumed: as many of the outcomes are dice
  -- and shuffle samples as it reports to have consumed and as there were among the initial outcomes.
  pub rolls_consumed-execute_effects_with_targets :
      {r : EffectResolution × Machine S}
      → execute_effects_with_targets random rules plan w roller ≡ ok r
      → count consumes_random_sample r.0.outcomes
        ≡ count consumes_random_sample plan.initial_outcomes + r.0.rolls_consumed
  rolls_consumed-execute_effects_with_targets h =
      (Ensures-ok (execute_effects_with_targets-Reported random rules plan w roller) h).counted

  -- An execution that succeeds stops in order. Its steps are within the limit. If it stops at a choice,
  -- the choice holds the queue that is left and passes what a resumption asks of it: its cause is the
  -- rule of its cursor, its steps are those taken, no more options have to be selected than there are,
  -- and an effect stands at its cursor unless a stun is the reason. If it is stable, the queue is empty.
  pub execute_effects_with_targets-Stopped :
      {r : EffectResolution × Machine S}
      → execute_effects_with_targets random rules plan w roller ≡ ok r
      → (r.1.steps ≤ max_execution_steps)
        × (r.0.queue ≡ r.1.queue)
        × Stopped (context_of rules plan) r.0.stop r.1
  execute_effects_with_targets-Stopped h =
      let done = Ensures-ok (execute_effects_with_targets-Reported random rules plan w roller) h in
      (done.few, done.left, done.stopped)
