-- ===== src/Engine/Control/Seats.antt =====
-- What the tests of the events ensure of the controls that they record
-- (`validate_choice_steps`, `validate_turn_event_metadata` and `validate_turn_steps` of
-- crates/game-domain/src/lib.rs).
use rust_game_harry_potter.Base.{
  is_none, ensure-true, Ensures-map_err, ℕ, ◌+◌, ◌%◌, ◌≡◌, sym, ap, ◌∙◌, string_eq, Ensures-weaken,
  ◌||◌, Bool, not, ◌&&◌, some, List, [], ◌∷◌, ◌==◌, nat_eq, list_eq, ltb, ok_or, ok_or-eq-ok,
  length, get_elem?, Ensures, yields, Ensures-ok, Ensures->>=, Ensures-ensure, Ensures-if,
  Ensures-of, arith, ensure,
}
use rust_game_harry_potter.Engine.Types.{GameEventError}
use rust_game_harry_potter.Engine.Control.{
  in_progress, GamePhase, phase_eq, dark_arts, villains, hero_actions, end_turn, InitialPlayer,
  GameControl, index_of, u32_max,
}
use rust_game_harry_potter.Engine.Control.Commands.{is_in_progress, awaits, queued_effect_eq}
use rust_game_harry_potter.Engine.Control.Records.{
  EngineControl, apply_engine_control, choice_control_matches_steps, event_control_matches_steps,
}
use rust_game_harry_potter.Engine.Control.Events.{
  positions_of, choice_phases, expected_control, validate_choice_steps, TurnCompleted,
  turn_is_expected, validate_turn_event_metadata, validate_turn_steps,
}
use rust_game_harry_potter.Engine.Control.Agreement.{Coherent, Active, start_next_turn-Going}
use rust_game_harry_potter.Engine.Control.Replays.{
  Allowed, choice_decision-Allowed, event_decision-Allowed, apply_engine_control-Coherent,
}

-- One of the players is at the position.
abbrev pub Seated : GameControl → ℕ → Type 0
Seated state position =
    (i : ℕ) × (p : InitialPlayer) × (get_elem? state.players i ≡ some p) × (p.position ≡ position)

expected_control-Seated :
    (control : EngineControl) (state : GameControl)
    → state.status ≡ in_progress
    → Active state
    → Ensures
        (λ (expected : GameControl). Seated state expected.active_position)
        (expected_control control state)
unfolding expected_control
expected_control-Seated control state playing active =
    Ensures-if (state.phase == end_turn && not (control.phase == end_turn)) _ _
      (λ _. Ensures-map_err _ (
        Ensures-weaken (start_next_turn-Going state playing) λ next (g, same).
          let (i, p, at, here) = g.coherent.active in
          (i, p, ap (λ ps. get_elem? ps i) (sym same) ∙ at, here)))
      λ _. yields active

pub validate_choice_steps-Coherent :
    (game_four : Bool) (phases : List GamePhase) (control : EngineControl) (state : GameControl)
    → state.status ≡ in_progress
    → Active state
    → Ensures
        (λ (u : Unit {0}). Coherent (apply_engine_control control state))
        (validate_choice_steps game_four phases control state)
unfolding validate_choice_steps choice_control_matches_steps apply_engine_control
validate_choice_steps-Coherent game_four phases control state playing active =
    Ensures->>= (expected_control control state) _ λ expected e.
      let (i, p, at, here) = Ensures-ok (expected_control-Seated control state playing active) e in
      Ensures-ensure
        (choice_phases game_four state.phase phases
          && control.turn == expected.turn
          && control.active_position == expected.active_position)
        _ _
        λ h.
          Ensures-of
            (ensure (choice_control_matches_steps control phases (positions_of state))
              GameEventError.effect_transition_invalid)
            λ u f.
              let same : control.active_position ≡ expected.active_position = ground arith in
              apply_engine_control-Coherent control phases (positions_of state) state
                (choice_decision-Allowed control.status control.decision_point control phases
                  (positions_of state) (ensure-true _ _ f))
                (i, p, at, here ∙ sym same)

-- The hero whom a turn's event makes active is a player.
turn_is_expected-Seated :
    (event : TurnCompleted) (state : GameControl)
    → Active state
    → event.actor_position ≡ state.active_position
    → Ensures
        (λ (u : Unit {0}). Seated state event.control.active_position)
        (turn_is_expected event state)
unfolding turn_is_expected
turn_is_expected-Seated event state (i, p, at, here) actor =
    Ensures-if (not (event.control.phase == end_turn)) _ _
      (λ _. Ensures-ensure (ltb state.turn u32_max) _ _ λ _.
        Ensures->>=
          (ok_or (index_of event.actor_position 0 state.players) GameEventError.actor_not_active) _
          λ index e.
            Ensures->>=
              (ok_or (get_elem? state.players ((index + 1) % length state.players))
                GameEventError.actor_not_active)
              _
              λ next f.
                Ensures-of
                  (ensure
                    (event.control.turn == state.turn + 1
                      && event.control.active_position == next.position)
                    GameEventError.effect_transition_invalid)
                  λ u g.
                    let h =
                      ensure-true
                        (event.control.turn == state.turn + 1
                          && event.control.active_position == next.position)
                        _ g in
                    let same : event.control.active_position ≡ next.position = ground arith in
                    ((index + 1) % length state.players, next, ok_or-eq-ok _ _ f, sym same))
      λ _.
        Ensures-of
          (ensure
            (event.control.turn == state.turn
              && event.control.active_position == event.actor_position)
            GameEventError.effect_transition_invalid)
          λ u g.
            let h =
              ensure-true
                (event.control.turn == state.turn
                  && event.control.active_position == event.actor_position)
                _ g in
            let same : event.control.active_position ≡ event.actor_position = ground arith in
            (i, p, at, here ∙ sym (same ∙ actor))

pub validate_turn_event_metadata-Seated :
    (event : TurnCompleted) (state : GameControl)
    → Active state
    → Ensures
        (λ (u : Unit {0}). Seated state event.control.active_position)
        (validate_turn_event_metadata event state)
unfolding validate_turn_event_metadata
validate_turn_event_metadata-Seated event state active =
    Ensures-ensure
      (is_in_progress state.status
        && state.phase == hero_actions
        && is_none state.pending_choice
        && awaits state.decision_point event.actor_position)
      _ _
      λ _. Ensures-ensure (event.actor_position == state.active_position) _ _ λ mine.
        Ensures-ensure (event.turn == state.turn) _ _
          λ _. turn_is_expected-Seated event state active (ground arith)

pub validate_turn_steps-Allowed :
    (game_four : Bool) (event : TurnCompleted) (state : GameControl)
    → Ensures
        (λ (u : Unit {0}).
          Allowed event.control event.phases
            (positions_of state)
            event.control.status
            event.control.decision_point)
        (validate_turn_steps game_four event state)
unfolding validate_turn_steps event_control_matches_steps
validate_turn_steps-Allowed game_four event state =
    Ensures-ensure
      (list_eq event.phases (end_turn ∷ dark_arts ∷ [])
        || list_eq event.phases (end_turn ∷ dark_arts ∷ villains ∷ [])
        || ((game_four || not (is_in_progress event.control.status))
            && list_eq event.phases (end_turn ∷ [])))
      _ _
      λ _.
        Ensures-of
          (ensure (event_control_matches_steps event.control event.phases (positions_of state))
            GameEventError.effect_transition_invalid)
          λ u f.
            event_decision-Allowed event.control.status event.control.decision_point event.control
              event.phases (positions_of state) (ensure-true _ _ f)
