-- ===== src/Effects/Outcomes.antt =====
-- What executing effects records, the choices that stop it, and the random source
-- (crates/game-domain/src/effects.rs, crates/game-domain/src/shuffling.rs).
use rust_game_harry_potter.Base.{ℕ, String, Bool, true, false, Option}
use rust_game_harry_potter.Effects.Zones.{EffectResource, EffectZone}
use rust_game_harry_potter.Effects.Entities.{EffectTurnState}
use rust_game_harry_potter.Effects.Rules.{EffectDie, EffectGameOutcome}

pub data EffectChangeCause : Type 0 where
  cost effect : EffectChangeCause

pub data EffectNoOpReason : Type 0 where
  control_removal_blocked drawing_blocked explicit no_eligible_target : EffectNoOpReason
  zero_cardinality : EffectNoOpReason

-- The fields in the source's order, `rule_id` first.
pub data EffectOutcome : Type 0 where
  turn_state_changed : String → String → EffectTurnState → EffectTurnState → EffectOutcome
  top_card_revealed : String → String → ℕ → EffectOutcome
  ally_copied : String → String → String → ℕ → EffectOutcome
  drawing_was_blocked : String → String → ℕ → EffectOutcome
  random_sampled : String → ℕ → ℕ → EffectOutcome
  die_rolled : String → EffectDie → ℕ → EffectOutcome
  moved : String → String → Option ℕ → EffectZone → EffectZone → EffectOutcome
  no_op : String → EffectNoOpReason → EffectOutcome
  resource_changed :
      String → String → Option ℕ → EffectResource → ℕ → ℕ → EffectChangeCause → EffectOutcome
  terminal : String → EffectGameOutcome → EffectOutcome

pub data EffectExecutionError : Type 0 where
  invalid_choice invalid_definition invalid_roll : EffectExecutionError
  invalid_target_selection step_limit_exceeded unaffordable_cost : EffectExecutionError

-- The trait `EffectRoller`: its implementations are the caller's, so it is a parameter, with the
-- state of the source passed on.
pub record EffectRoller (S : Type 0) : Type 0 where
  pub roll : S → EffectDie → Option ℕ × S
  pub sample_below : S → ℕ → Option ℕ × S

pub record ShuffleSample : Type 0 where
  pub upper_exclusive : ℕ
  pub result : ℕ

abbrev pub consumes_random_sample : EffectOutcome → Bool
consumes_random_sample (die_rolled _ _ _) = true
consumes_random_sample (random_sampled _ _ _) = true
consumes_random_sample _ = false
