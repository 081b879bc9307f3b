-- ===== src/Engine/Control/Records.antt =====
-- The controls that events record, and the tests of them (`EngineControl`,
-- `choice_control_matches_steps` and `event_control_matches_steps` of
-- crates/game-domain/src/lib.rs).
use rust_game_harry_potter.Base.{
  ℕ, Bool, false, not, ◌&&◌, ◌||◌, Option, none, some, List, [], ◌∷◌, ◌==◌, nat_eq, string_eq,
  option_eq, list_eq, is_empty, length,
}
use rust_game_harry_potter.Effects.Choices.{QueuedEffect, PendingEffectChoice, EffectStop}
use rust_game_harry_potter.Effects.Validity.{choice_is_valid}
use rust_game_harry_potter.Engine.Control.{
  GameStatus, in_progress, game_lost, game_won, GamePhase, phase_eq, dark_arts, villains,
  hero_actions, end_turn, DecisionPoint, player_intent, effect_choice, GameControl,
  finish_terminal_state, queued_phases_match_phase,
}
use rust_game_harry_potter.Engine.Control.Commands.{queued_effect_eq}

-- The control that an event records.
pub record EngineControl : Type 0 where
  pub status : GameStatus
  pub turn : ℕ
  pub phase : GamePhase
  pub active_position : ℕ
  pub queued_phases : List GamePhase
  pub queued_effects : List QueuedEffect
  pub decision_point : Option DecisionPoint

-- `EngineControl::from_state`
abbrev pub from_state : GameControl → EngineControl
from_state state = record {
  status = state.status;
  turn = state.turn;
  phase = state.phase;
  active_position = state.active_position;
  queued_phases = state.queued_phases;
  queued_effects = state.queued_effects;
  decision_point = state.decision_point;
}

abbrev pub choice_of : Option DecisionPoint → Option PendingEffectChoice
choice_of (some (effect_choice c)) = some c
choice_of _ = none

unfoldable pub apply_engine_control : EngineControl → GameControl → GameControl
apply_engine_control control state = record state {
  status = control.status;
  turn = control.turn;
  phase = control.phase;
  active_position = control.active_position;
  queued_phases = control.queued_phases;
  queued_effects = control.queued_effects;
  decision_point = control.decision_point;
  pending_choice = choice_of control.decision_point;
}

unfoldable pub apply_legacy_effect_stop : EffectStop → GameControl → GameControl
unfolding finish_terminal_state
apply_legacy_effect_stop (EffectStop.choice c) state = record state {
  queued_phases = villains ∷ hero_actions ∷ end_turn ∷ [];
  queued_effects = c.continuation.queue;
  pending_choice = some c;
  decision_point = some (effect_choice c);
}
apply_legacy_effect_stop EffectStop.stable state = record state {
  phase = hero_actions;
  queued_phases = end_turn ∷ [];
  queued_effects = [];
  pending_choice = none;
  decision_point = some (player_intent state.active_position);
}
apply_legacy_effect_stop (EffectStop.terminal outcome) state = finish_terminal_state outcome state

abbrev pub last_is : List GamePhase → GamePhase → Bool
last_is [] phase = false
last_is (p ∷ []) phase = p == phase
last_is (p ∷ q ∷ ps) phase = last_is (q ∷ ps) phase

-- A choice that the event stopped at.
abbrev pub choice_matches : EngineControl → List GamePhase → List ℕ → PendingEffectChoice → Bool
choice_matches control phases positions c =
    last_is phases control.phase
    && queued_phases_match_phase control.phase control.queued_phases
    && choice_is_valid positions c
    && list_eq control.queued_effects c.continuation.queue

abbrev pub waits_for_actions : EngineControl → ℕ → Bool
waits_for_actions control responsible =
    control.phase == hero_actions
    && list_eq control.queued_phases (end_turn ∷ [])
    && is_empty control.queued_effects
    && responsible == control.active_position

abbrev pub game_over : EngineControl → List GamePhase → Bool
game_over control phases =
    last_is phases control.phase
    && is_empty control.queued_phases
    && is_empty control.queued_effects

abbrev pub choice_decision :
    GameStatus → Option DecisionPoint → EngineControl → List GamePhase → List ℕ → Bool
choice_decision in_progress (some (player_intent responsible)) control phases positions =
    waits_for_actions control responsible
    && (list_eq phases (hero_actions ∷ [])
        || list_eq phases (villains ∷ [])
        || list_eq phases (dark_arts ∷ villains ∷ [])
        || list_eq phases (end_turn ∷ dark_arts ∷ villains ∷ []))
choice_decision in_progress (some (effect_choice c)) control phases positions =
    choice_matches control phases positions c
choice_decision game_lost none control phases positions = game_over control phases
choice_decision game_won none control phases positions = game_over control phases
choice_decision _ _ control phases positions = false

unfoldable pub choice_control_matches_steps : EngineControl → List GamePhase → List ℕ → Bool
unfolding queued_phases_match_phase choice_is_valid
choice_control_matches_steps control phases positions =
    choice_decision control.status control.decision_point control phases positions

abbrev pub event_decision :
    GameStatus → Option DecisionPoint → EngineControl → List GamePhase → List ℕ → Bool
event_decision in_progress (some (player_intent responsible)) control phases positions =
    length phases == 3 && waits_for_actions control responsible
event_decision in_progress (some (effect_choice c)) control phases positions =
    choice_matches control phases positions c
event_decision game_lost none control phases positions =
    game_over control phases && not (control.phase == hero_actions)
event_decision game_won none control phases positions =
    game_over control phases && not (control.phase == hero_actions)
event_decision _ _ control phases positions = false

unfoldable pub event_control_matches_steps : EngineControl → List GamePhase → List ℕ → Bool
unfolding queued_phases_match_phase choice_is_valid
event_control_matches_steps control phases positions =
    event_decision control.status control.decision_point control phases positions
