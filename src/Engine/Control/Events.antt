-- ===== src/Engine/Control/Events.antt =====
-- What the events do to the control of turns when they are applied again (`apply_game_event` of
-- crates/game-domain/src/lib.rs): their tests of the control and the control that they set. The
-- phases of an event are those of its steps; the numbers of sequence and version are left out.
use rust_game_harry_potter.Base.{
  ℕ, ◌+◌, ◌%◌, String, Bool, true, false, not, ◌&&◌, ◌||◌, List, [], ◌∷◌, map, ◌==◌, nat_eq,
  string_eq, option_eq, list_eq, if◌then◌else◌, ltb, Result, ok, ◌>>=◌, ◌>>◌, ensure, ok_or,
  map_err, is_none, length, get_elem?,
}
use rust_game_harry_potter.Effects.Choices.{EffectStop}
use rust_game_harry_potter.Executor.Resume.{normalize_effect_choice_selection}
use rust_game_harry_potter.Engine.Types.{GameEventError}
use rust_game_harry_potter.Engine.Control.{
  GameStatus, game_lost, GamePhase, phase_eq, dark_arts, villains, hero_actions, end_turn,
  InitialPlayer, GameControl, index_of, u32_max, start_next_turn, apply_effect_stop,
}
use rust_game_harry_potter.Engine.Control.Commands.{
  is_in_progress, awaits, waiting_choice, queued_effect_eq,
}
use rust_game_harry_potter.Engine.Control.Records.{
  EngineControl, apply_engine_control, apply_legacy_effect_stop, choice_control_matches_steps,
  event_control_matches_steps,
}

abbrev pub positions_of : GameControl → List ℕ
positions_of state = map (λ (p : InitialPlayer). p.position) state.players

abbrev pub Applied : Type 0
Applied = Result GameEventError GameControl

abbrev pub choice_phases : Bool → GamePhase → List GamePhase → Bool
choice_phases game_four dark_arts phases =
    list_eq phases (dark_arts ∷ []) || list_eq phases (dark_arts ∷ villains ∷ [])
choice_phases game_four villains phases = list_eq phases (villains ∷ [])
choice_phases game_four hero_actions phases = list_eq phases (hero_actions ∷ [])
choice_phases game_four end_turn phases =
    game_four
    && (list_eq phases (end_turn ∷ [])
        || list_eq phases (end_turn ∷ dark_arts ∷ [])
        || list_eq phases (end_turn ∷ dark_arts ∷ villains ∷ []))

-- The control whose turn and hero a choice's event must have.
unfoldable pub expected_control : EngineControl → GameControl → Applied
unfolding start_next_turn
expected_control control state =
    if state.phase == end_turn && not (control.phase == end_turn)
    then map_err (λ e. GameEventError.effect_transition_invalid) (start_next_turn state)
    else ok state

unfoldable pub validate_choice_steps :
    Bool → List GamePhase → EngineControl → GameControl → Result GameEventError (Unit {0})
unfolding expected_control choice_control_matches_steps
validate_choice_steps game_four phases control state = do
  expected ← expected_control control state
  ensure
      (choice_phases game_four state.phase phases
        && control.turn == expected.turn
        && control.active_position == expected.active_position)
      GameEventError.effect_transition_invalid
  ensure (choice_control_matches_steps control phases (positions_of state))
      GameEventError.effect_transition_invalid

-- `ChoiceResolved`: the fields of the event are the arguments.
pub record ChoiceResolved : Type 0 where
  pub turn : ℕ
  pub actor_position : ℕ
  pub choice_id : String
  pub choice_cause : String
  pub selected_options : List String
  pub phases : List GamePhase
  pub control : EngineControl

unfoldable pub apply_choice_resolved : Bool → ChoiceResolved → GameControl → Applied
unfolding waiting_choice normalize_effect_choice_selection validate_choice_steps
    apply_engine_control
apply_choice_resolved game_four event state = do
  ensure (is_in_progress state.status) GameEventError.event_not_applicable
  pending ← ok_or (waiting_choice state) GameEventError.event_not_applicable
  ensure (event.actor_position == pending.responsible_position)
      GameEventError.actor_not_choice_responsible
  normalized ←
      ok_or (normalize_effect_choice_selection pending event.selected_options)
        GameEventError.effect_transition_invalid
  ensure
      (event.choice_id == pending.id
        && event.choice_cause == pending.cause
        && list_eq normalized event.selected_options)
      GameEventError.effect_transition_invalid
  ensure (event.turn == state.turn) GameEventError.turn_mismatch
  checked ← validate_choice_steps game_four event.phases event.control state
  ok (apply_engine_control event.control state)

-- `TurnCompleted`
pub record TurnCompleted : Type 0 where
  pub turn : ℕ
  pub actor_position : ℕ
  pub phases : List GamePhase
  pub control : EngineControl

-- The turn and the hero after the end of the turn.
unfoldable pub turn_is_expected : TurnCompleted → GameControl → Result GameEventError (Unit {0})
unfolding index_of
turn_is_expected event state =
    if not (event.control.phase == end_turn)
    then (do
      ensure (ltb state.turn u32_max) GameEventError.version_overflow
      index ← ok_or (index_of event.actor_position 0 state.players) GameEventError.actor_not_active
      next ←
          ok_or (get_elem? state.players ((index + 1) % length state.players))
            GameEventError.actor_not_active
      ensure
          (event.control.turn == state.turn + 1 && event.control.active_position == next.position)
          GameEventError.effect_transition_invalid)
    else ensure
        (event.control.turn == state.turn && event.control.active_position == event.actor_position)
        GameEventError.effect_transition_invalid

unfoldable pub validate_turn_event_metadata :
    TurnCompleted → GameControl → Result GameEventError (Unit {0})
unfolding turn_is_expected
validate_turn_event_metadata event state = do
  ensure
      (is_in_progress state.status
        && state.phase == hero_actions
        && is_none state.pending_choice
        && awaits state.decision_point event.actor_position)
      GameEventError.event_not_applicable
  ensure (event.actor_position == state.active_position) GameEventError.actor_not_active
  ensure (event.turn == state.turn) GameEventError.turn_mismatch
  turn_is_expected event state

unfoldable pub validate_turn_steps :
    Bool → TurnCompleted → GameControl → Result GameEventError (Unit {0})
unfolding event_control_matches_steps
validate_turn_steps game_four event state = do
  ensure
      (list_eq event.phases (end_turn ∷ dark_arts ∷ [])
        || list_eq event.phases (end_turn ∷ dark_arts ∷ villains ∷ [])
        || ((game_four || not (is_in_progress event.control.status))
            && list_eq event.phases (end_turn ∷ [])))
      GameEventError.effect_transition_invalid
  ensure (event_control_matches_steps event.control event.phases (positions_of state))
      GameEventError.effect_transition_invalid

abbrev pub is_lost : GameStatus → Bool
is_lost game_lost = true
is_lost _ = false

-- `table_lost` tells whether the table after the end of the turn is a lost game.
unfoldable pub apply_turn_completed : Bool → Bool → TurnCompleted → GameControl → Applied
unfolding validate_turn_event_metadata validate_turn_steps apply_engine_control
apply_turn_completed game_four table_lost event state = do
  known ← validate_turn_event_metadata event state
  checked ← validate_turn_steps game_four event state
  ensure
      (not (
        event.control.phase == end_turn
        && not (game_four && is_in_progress event.control.status)
        && (not (is_lost event.control.status) || not table_lost)))
      GameEventError.effect_transition_invalid
  ok (apply_engine_control event.control state)

-- The metadata of an event in a phase without a pending choice.
abbrev pub in_phase : GamePhase → ℕ → ℕ → GameControl → Result GameEventError (Unit {0})
in_phase phase turn actor state = do
  ensure (is_in_progress state.status && state.phase == phase && is_none state.pending_choice)
      GameEventError.event_not_applicable
  ensure (actor == state.active_position) GameEventError.actor_not_active
  ensure (turn == state.turn) GameEventError.turn_mismatch

-- `CardPlayed` and `AttackAssigned`
unfoldable pub apply_action : ℕ → ℕ → EffectStop → GameControl → Applied
unfolding apply_effect_stop
apply_action turn actor stop state = do
  known ← in_phase hero_actions turn actor state
  ok (apply_effect_stop stop state)

unfoldable pub apply_dark_arts_completed : ℕ → ℕ → EffectStop → GameControl → Applied
unfolding apply_legacy_effect_stop
apply_dark_arts_completed turn actor stop state = do
  known ← in_phase dark_arts turn actor state
  ok (apply_legacy_effect_stop stop state)

-- An event leaves the control of a card that was acquired as it was.
unfoldable pub apply_card_acquired : ℕ → ℕ → GameControl → Applied
apply_card_acquired turn actor state = do known ← in_phase hero_actions turn actor state; ok state

-- The fields that the control depends on, in the source's order of the events.
pub data GameEvent : Type 0 where
  choice_resolved : ChoiceResolved → GameEvent
  turn_completed : TurnCompleted → GameEvent
  dark_arts_completed : ℕ → ℕ → EffectStop → GameEvent
  card_played : ℕ → ℕ → EffectStop → GameEvent
  attack_assigned : ℕ → ℕ → EffectStop → GameEvent
  card_acquired : ℕ → ℕ → GameEvent

unfoldable pub apply_game_event : Bool → Bool → GameEvent → GameControl → Applied
unfolding apply_choice_resolved apply_turn_completed apply_dark_arts_completed apply_action
    apply_card_acquired
apply_game_event game_four table_lost (choice_resolved event) state =
    apply_choice_resolved game_four event state
apply_game_event game_four table_lost (turn_completed event) state =
    apply_turn_completed game_four table_lost event state
apply_game_event game_four table_lost (dark_arts_completed turn actor stop) state =
    apply_dark_arts_completed turn actor stop state
apply_game_event game_four table_lost (card_played turn actor stop) state =
    apply_action turn actor stop state
apply_game_event game_four table_lost (attack_assigned turn actor stop) state =
    apply_action turn actor stop state
apply_game_event game_four table_lost (card_acquired turn actor) state =
    apply_card_acquired turn actor state
