-- ===== src/Engine/Control/Replays.antt =====
-- The controls that events may record (`choice_control_matches_steps` and
-- `event_control_matches_steps` of crates/game-domain/src/lib.rs).
use rust_game_harry_potter.Base.{
  and-left, and-right, is_empty-eq, ℕ, ◌≡◌, refl, sym, subst, ap, string_eq, true, Option, none,
  some, List, [], ◌∷◌, nat_eq, list_eq→eq, arith,
}
use rust_game_harry_potter.Effects.Choices.{PendingEffectChoice}
use rust_game_harry_potter.Engine.Control.{
  GameStatus, in_progress, game_lost, game_won, GamePhase, phase_eq, hero_actions, end_turn,
  DecisionPoint, automatic, player_intent, effect_choice, GameControl,
}
use rust_game_harry_potter.Engine.Control.Commands.{queued_effect_eq}
use rust_game_harry_potter.Engine.Control.Records.{
  EngineControl, choice_of, apply_engine_control, choice_matches, waits_for_actions, game_over,
  choice_decision, event_decision,
}
use rust_game_harry_potter.Engine.Control.Agreement.{
  Coherent, DecisionAgrees, StatusAgrees, Over, Active,
}

waits-agrees :
    (control : EngineControl) (position : ℕ)
    → waits_for_actions control position ≡ true
    → (control.phase ≡ hero_actions)
      × (control.queued_phases ≡ end_turn ∷ [])
      × (position ≡ control.active_position)
      × (control.queued_effects ≡ [])
waits-agrees control position h = (
  ground arith,
  list_eq→eq control.queued_phases (end_turn ∷ []) (ground arith),
  ground arith,
  is_empty-eq control.queued_effects (ground arith),
)

-- What a control that passes a test agrees with: `d` is its decision point.
replayed_wait :
    (control : EngineControl) (state : GameControl) (position : ℕ)
    → waits_for_actions control position ≡ true
    → control.decision_point ≡ some (player_intent position)
    → DecisionAgrees (some (player_intent position)) (apply_engine_control control state)
unfolding apply_engine_control
replayed_wait control state position h d =
    let w = waits-agrees control position h in (w.0, w.1, w.2, ap choice_of d, w.3)

replayed_choice :
    (control : EngineControl) (state : GameControl) (phases : List GamePhase) (positions : List ℕ)
    (c : PendingEffectChoice)
    → choice_matches control phases positions c ≡ true
    → control.decision_point ≡ some (effect_choice c)
    → DecisionAgrees (some (effect_choice c)) (apply_engine_control control state)
unfolding apply_engine_control
replayed_choice control state phases positions c h d = (
  ground arith,
  ap choice_of d,
  list_eq→eq control.queued_effects c.continuation.queue (ground arith),
)

replayed_end :
    (control : EngineControl) (state : GameControl) (phases : List GamePhase)
    → game_over control phases ≡ true
    → control.decision_point ≡ none
    → Over (apply_engine_control control state)
unfolding apply_engine_control
replayed_end control state phases h d = (
  d,
  is_empty-eq control.queued_phases (ground arith),
  ap choice_of d,
  is_empty-eq control.queued_effects (ground arith),
)

-- A decision that a control in progress may have, whichever event records it.
pub data Allowed (control : EngineControl) (phases : List GamePhase) (positions : List ℕ)
    : GameStatus → Option DecisionPoint → Type 0 where
  waits :
      (position : ℕ)
      → waits_for_actions control position ≡ true
      → Allowed control phases positions in_progress (some (player_intent position))
  chooses :
      (c : PendingEffectChoice)
      → choice_matches control phases positions c ≡ true
      → Allowed control phases positions in_progress (some (effect_choice c))
  loses : game_over control phases ≡ true → Allowed control phases positions game_lost none
  wins : game_over control phases ≡ true → Allowed control phases positions game_won none

pub choice_decision-Allowed :
    (status : GameStatus) (d : Option DecisionPoint) (control : EngineControl)
    (phases : List GamePhase) (positions : List ℕ)
    → choice_decision status d control phases positions ≡ true
    → Allowed control phases positions status d
choice_decision-Allowed in_progress none control phases positions h = cc
choice_decision-Allowed in_progress (some automatic) control phases positions h = cc
choice_decision-Allowed in_progress (some (player_intent p)) control phases positions h =
    waits p (and-left _ _ h)
choice_decision-Allowed in_progress (some (effect_choice c)) control phases positions h =
    chooses c h
choice_decision-Allowed game_lost none control phases positions h = loses h
choice_decision-Allowed game_won none control phases positions h = wins h
choice_decision-Allowed game_lost (some d) control phases positions h = cc
choice_decision-Allowed game_won (some d) control phases positions h = cc

pub event_decision-Allowed :
    (status : GameStatus) (d : Option DecisionPoint) (control : EngineControl)
    (phases : List GamePhase) (positions : List ℕ)
    → event_decision status d control phases positions ≡ true
    → Allowed control phases positions status d
event_decision-Allowed in_progress none control phases positions h = cc
event_decision-Allowed in_progress (some automatic) control phases positions h = cc
event_decision-Allowed in_progress (some (player_intent p)) control phases positions h =
    waits p (and-right _ _ h)
event_decision-Allowed in_progress (some (effect_choice c)) control phases positions h = chooses c h
event_decision-Allowed game_lost none control phases positions h = loses (and-left _ _ h)
event_decision-Allowed game_won none control phases positions h = wins (and-left _ _ h)
event_decision-Allowed game_lost (some d) control phases positions h = cc
event_decision-Allowed game_won (some d) control phases positions h = cc

Allowed-agrees :
    (control : EngineControl) (phases : List GamePhase) (positions : List ℕ) (state : GameControl)
    {status : GameStatus} {d : Option DecisionPoint}
    → Allowed control phases positions status d
    → control.decision_point ≡ d
    → StatusAgrees status (apply_engine_control control state)
unfolding apply_engine_control
Allowed-agrees control phases positions state (waits p h) e =
    subst (λ x. DecisionAgrees x (apply_engine_control control state)) (sym e)
      (replayed_wait control state p h e)
Allowed-agrees control phases positions state (chooses c h) e =
    subst (λ x. DecisionAgrees x (apply_engine_control control state)) (sym e)
      (replayed_choice control state phases positions c h e)
Allowed-agrees control phases positions state (loses h) e = replayed_end control state phases h e
Allowed-agrees control phases positions state (wins h) e = replayed_end control state phases h e

pub apply_engine_control-Coherent :
    (control : EngineControl) (phases : List GamePhase) (positions : List ℕ) (state : GameControl)
    → Allowed control phases positions control.status control.decision_point
    → Active (apply_engine_control control state)
    → Coherent (apply_engine_control control state)
unfolding apply_engine_control
apply_engine_control-Coherent control phases positions state allowed active = record {
  agrees = Allowed-agrees control phases positions state allowed refl;
  active = active;
}
