-- ===== src/Executor/Executions.antt =====
-- A whole run of the executor: it ends, it takes a limited number of steps, and it leaves a record of
-- what it did to the same cards (`EffectExecutor::run` of crates/game-domain/src/effects.rs).
pub mod Stops
pub mod Halting
pub mod Entries
pub mod Resumptions
use rust_game_harry_potter.Base.{
  ℕ, zero, suc, ◌+◌, ◌-◌, ◌≡◌, ◌≢◌, ◌≤◌, ◌<◌, ◌⊎◌, refl, sym, ap, ◌∙◌, inl, inr, Option, none, some,
  List, [], ◌∷◌, ◌++◌, ok, err, raise, map_err-eq-ok, ◌>>=◌, Ensures, yields, fails, Ensures->>=,
  Ensures-ok, Ensures-weaken, Ensures-ensure, not, ltb, subst, length, count, arith, Option-cases,
}
use rust_game_harry_potter.Base.Termination.{
  Terminates, finishes, raises, Terminates->>=, Terminates-raise_as,
}
use rust_game_harry_potter.Effects.Outcomes.{EffectRoller, EffectOutcome, consumes_random_sample}
use rust_game_harry_potter.Effects.Choices.{QueuedEffect, EffectStop, PendingEffectChoice}
use rust_game_harry_potter.Executor.Machine.{
  Context, Machine, max_execution_steps, max_effect_outcomes,
}
use rust_game_harry_potter.Executor.Machine.Run.{
  EffectResolution, position_of, execute_queued, follow_up, with_queue, finish, round, run_loop,
  start, run,
}
use rust_game_harry_potter.Executor.Progress.{
  Advances, Advances-refl, Advances-trans, Evolves, Evolves-refl,
}
use rust_game_harry_potter.Executor.Executions.Stops.{Resumable, Halts, chooses, ends}
use rust_game_harry_potter.Executor.Executions.Halting.{execute_queued-Halts}
use rust_game_harry_potter.Executor.Progress.Steps.Rounds.{round-Evolves, start-Evolves}

-- What a stop says of the machine that is left.
pub record Stopped {S : Type 0} (c : Context) (stop : EffectStop) (m : Machine S) : Type 0 where
  pub resumable : (p : PendingEffectChoice) → stop ≡ EffectStop.choice p → Resumable c m.steps p
  pub waiting :
      (p : PendingEffectChoice) → stop ≡ EffectStop.choice p → p.continuation.queue ≡ m.queue
  pub ended : stop ≡ EffectStop.stable → m.queue ≡ []

choice_inj : {p q : PendingEffectChoice} → EffectStop.choice p ≡ EffectStop.choice q → p ≡ q
choice_inj h = cc

module _ {S : Type 0} where
  halted-Stopped :
      (c : Context) (steps : ℕ) (stop : EffectStop) (m : Machine S)
      → m.steps ≡ steps
      → Halts c steps (some stop)
      → Stopped c (with_queue m.queue stop) m
  halted-Stopped c steps (EffectStop.choice p) m h (chooses r) = record {
    resumable = λ q e. subst (Resumable c m.steps) (choice_inj e) (record {
      cause = r.cause;
      taken = r.taken ∙ sym h;
      ordered = r.ordered;
      enough = r.enough;
      known = r.known;
    });
    waiting = λ q e. ap (λ (x : PendingEffectChoice). x.continuation.queue) (sym (choice_inj e));
    ended = λ e. cc;
  }
  halted-Stopped c steps (EffectStop.terminal o) m h ends = record {
    resumable = λ q e. cc;
    waiting = λ q e. cc;
    ended = λ e. cc;
  }
  halted-Stopped c steps EffectStop.stable m h x = elim x [ ]

  stable-Stopped : (c : Context) (m : Machine S) → m.queue ≡ [] → Stopped c EffectStop.stable m
  stable-Stopped c m h = record { resumable = λ q e. cc; waiting = λ q e. cc; ended = λ e. h }

-- What a run that succeeds returns.
pub record Executed {S : Type 0} (c : Context) (m : Machine S) (r : EffectResolution × Machine S)
    : Type 0 where
  pub work : Advances m.table r.1.table
  pub reported : r.0.outcomes ≡ r.1.table.outcomes
  pub rolled : r.0.rolls_consumed ≡ r.1.table.rolls_consumed
  pub left : r.0.queue ≡ r.1.queue
  pub stopped : Stopped c r.0.stop r.1

-- The limits hold unless no step was taken.
unfoldable pub Bounded : {S : Type 0} → Machine S → EffectResolution × Machine S → Type 0
Bounded m r =
    (r.1.steps ≡ m.steps)
    ⊎ ((r.1.steps ≤ max_execution_steps) × (length r.1.table.outcomes ≤ max_effect_outcomes))

List-cases : {A : Type 0} (xs : List A) → (xs ≡ []) ⊎ ((x : A) × (ys : List A) × (xs ≡ x ∷ ys))
List-cases [] = inl refl
List-cases (x ∷ xs) = inr (x, xs, refl)

-- The machine of a round: the effect is off the queue and the step is counted.
abbrev stepped : {S : Type 0} → Machine S → List QueuedEffect → Machine S
stepped m queue = record m { queue = queue; steps = suc m.steps }

module _ {S : Type 0} (random : EffectRoller S) (c : Context) where
  run_loop-Terminates :
      (fuel : ℕ) (m : Machine S)
      → 0 < fuel
      → max_execution_steps < fuel + m.steps
      → Terminates (run_loop random fuel c m)
  unfolding run_loop
  run_loop-Terminates zero m some_fuel enough = absurd (omega arith)
  run_loop-Terminates (suc fuel) m some_fuel enough = elim (List-cases m.queue) [
    | inl e ↦ rw (e, run_loop) finishes
    | inr (queued, queue, e) ↦
        rw (e, run_loop)
          (Terminates->>= (raise (round random c queued (stepped m queue))) _
            (Terminates-raise_as (λ x. x) _)
            λ done h.
              let did =
                Ensures-ok (round-Evolves random c queued (stepped m queue))
                  (map_err-eq-ok _ _ h) in
              elim (Option-cases done.1) [
                | inl x ↦ rw x (
                    run_loop-Terminates fuel done.0 (omega (arith, did.1, enough))
                      (omega (arith, did.0.steps, enough)))
                | inr (stop, x) ↦ rw x finishes
              ])
  ]

  round-Halts :
      (queued : QueuedEffect) (m : Machine S)
      → Ensures (λ r. Halts c m.steps r.1) (round random c queued m)
  unfolding round
  round-Halts queued m = Ensures-ensure (not (ltb max_execution_steps m.steps)) _ _ λ few.
      Ensures->>= (execute_queued random c queued m) _ λ done h.
        Ensures->>= (follow_up c (length m.table.outcomes) (position_of queued) done.0) _
          λ next k. yields (Ensures-ok (execute_queued-Halts random c queued m) h)

  run_loop-empty :
      (fuel : ℕ) (m : Machine S)
      → m.queue ≡ []
      → run_loop random (suc fuel) c m ≡ ok (finish EffectStop.stable m)
  unfolding run_loop
  run_loop-empty fuel m e = rw e refl

  run_loop-Executed :
      (fuel : ℕ) (m : Machine S)
      → Ensures
          (λ r.
            Executed c m r
            × ((r.1 ≡ m)
                ⊎ ((r.1.steps ≤ max_execution_steps)
                    × (length r.1.table.outcomes ≤ max_effect_outcomes))))
          (run_loop random fuel c m)
  unfolding run_loop finish
  run_loop-Executed zero m = fails
  run_loop-Executed (suc fuel) m = elim (List-cases m.queue) [
    | inl e ↦ subst (Ensures _) (sym (run_loop-empty fuel m e)) (
        yields (
          record {
            work = Advances-refl m.table;
            reported = refl;
            rolled = refl;
            left = refl;
            stopped = stable-Stopped c m e;
          },
          inl refl,
        ))
    | inr (queued, queue, e) ↦
        rw (e, run_loop)
          (Ensures->>= (raise (round random c queued (stepped m queue))) _ λ done h.
            let ran = map_err-eq-ok _ (round random c queued (stepped m queue)) h in
            let did = Ensures-ok (round-Evolves random c queued (stepped m queue)) ran in
            let halts = Ensures-ok (round-Halts queued (stepped m queue)) ran in
            let few : done.0.steps ≤ max_execution_steps = omega (arith, did.0.steps, did.1) in
            elim (Option-cases done.1) [
              | inl x ↦ rw x (
                  Ensures-weaken (run_loop-Executed fuel done.0) λ r later. (
                    record {
                      work = Advances-trans did.0.table later.0.work;
                      reported = later.0.reported;
                      rolled = later.0.rolled;
                      left = later.0.left;
                      stopped = later.0.stopped;
                    },
                    inr (elim later.1 [
                      | inl y ↦
                          subst
                            (λ n.
                              (n.steps ≤ max_execution_steps)
                              × (length n.table.outcomes ≤ max_effect_outcomes))
                            (sym y) (few, did.2)
                      | inr y ↦ y
                    ]),
                  ))
              | inr (stop, x) ↦
                  rw (x, finish)
                    (yields (
                      record {
                        work = did.0.table;
                        reported = refl;
                        rolled = refl;
                        left = refl;
                        stopped =
                            halted-Stopped c (suc m.steps) stop done.0 did.0.steps
                              (subst (Halts c (suc m.steps)) x halts);
                      },
                      inr (few, did.2),
                    ))
            ])
  ]

  -- A run never stops for want of fuel: it returns a resolution or an error of the source.
  pub run-Terminates : (m : Machine S) → Terminates (run random c m)
  unfolding run
  run-Terminates m =
      Terminates->>= (raise (start c m)) _ (Terminates-raise_as (λ x. x) _) λ begun h.
        run_loop-Terminates (suc (max_execution_steps - begun.steps)) begun (omega arith)
          (omega arith)

  pub run-Executed : (m : Machine S) → Ensures (λ r. Executed c m r × Bounded m r) (run random c m)
  unfolding run Bounded
  run-Executed m = Ensures->>= (raise (start c m)) _ λ begun h.
      let did = Ensures-ok (start-Evolves c m) (map_err-eq-ok _ (start c m) h) in
      Ensures-weaken (run_loop-Executed (suc (max_execution_steps - begun.steps)) begun) λ r later.
        (
          record {
            work = Advances-trans did.table later.0.work;
            reported = later.0.reported;
            rolled = later.0.rolled;
            left = later.0.left;
            stopped = later.0.stopped;
          },
          elim later.1 [
            | inl y ↦ inl (ap (λ (n : Machine S). n.steps) y ∙ did.steps)
            | inr y ↦ inr y
          ],
        )
