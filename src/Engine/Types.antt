-- ===== src/Engine/Types.antt =====
-- The engine's data: phases, statuses, players, end-of-turn outcomes and errors
-- (crates/game-domain/src/lib.rs).
use rust_game_harry_potter.Base.{ℕ, String, Option, List, Eq, ℕ_discrete, String-discrete}
use rust_game_harry_potter.Effects.Zones.{
  EffectResource, EffectZone, EffectZone-discrete, EffectResource-discrete,
}
use rust_game_harry_potter.Effects.Outcomes.{ShuffleSample}

pub data GameIntentError : Type 0 where
  stale_state_version actor_not_responsible actor_not_choice_responsible : GameIntentError
  intent_not_legal effect_execution_failed random_source_failed : GameIntentError
  version_overflow : GameIntentError

pub data GameEventError : Type 0 where
  actor_not_active actor_not_choice_responsible event_not_applicable : GameEventError
  effect_transition_invalid sequence_mismatch state_version_mismatch : GameEventError
  turn_mismatch version_overflow : GameEventError

unfoldable pub ShuffleSample-discrete : Discrete ShuffleSample
ShuffleSample-discrete = hlevel ℕ_discrete

-- The fields in the source's order.
pub data EndTurnOutcome : Type 0 where
  drawing_restored : ℕ → EndTurnOutcome
  location_advanced : String → Option String → EndTurnOutcome
  villain_revealed : String → EndTurnOutcome
  card_moved : String → EffectZone → EffectZone → EndTurnOutcome
  pile_shuffled : ℕ → EffectZone → List String → List ShuffleSample → EndTurnOutcome
  resource_reset : EffectResource → ℕ → EndTurnOutcome
  hero_recovered : ℕ → ℕ → ℕ → EndTurnOutcome

unfoldable pub EndTurnOutcome-discrete : Discrete EndTurnOutcome
EndTurnOutcome-discrete = hlevel (
  ℕ_discrete, String-discrete, EffectZone-discrete, EffectResource-discrete, ShuffleSample-discrete,
)

instance abbrev pub end_turn_outcome_eq : Eq EndTurnOutcome
end_turn_outcome_eq = record { dec = EndTurnOutcome-discrete }
