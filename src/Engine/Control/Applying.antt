-- ===== src/Engine/Control/Applying.antt =====
-- The events keep the parts of the turn control in agreement (`apply_game_event` of
-- crates/game-domain/src/lib.rs).
use rust_game_harry_potter.Base.{
  is_none, and-left, ℕ, ◌≡◌, refl, string_eq, ◌||◌, Bool, not, ◌&&◌, ◌==◌, nat_eq, list_eq, ok_or,
  Ensures, yields, Ensures-ok, Ensures->>=, Ensures-ensure, Ensures-of, arith, ensure,
}
use rust_game_harry_potter.Effects.Choices.{EffectStop, choice, stable, terminal}
use rust_game_harry_potter.Executor.Resume.{normalize_effect_choice_selection}
use rust_game_harry_potter.Engine.Types.{GameEventError}
use rust_game_harry_potter.Engine.Control.{
  in_progress, GamePhase, GamePhase-discrete, phase_eq, dark_arts, hero_actions, end_turn,
  GameControl, queued_phases_match_phase,
}
use rust_game_harry_potter.Engine.Control.Commands.{
  is_in_progress, waiting_choice, queued_effect_eq,
}
use rust_game_harry_potter.Engine.Control.Records.{apply_engine_control, apply_legacy_effect_stop}
use rust_game_harry_potter.Engine.Control.Events.{
  positions_of, validate_choice_steps, ChoiceResolved, apply_choice_resolved, TurnCompleted,
  validate_turn_event_metadata, validate_turn_steps, apply_turn_completed, is_lost, in_phase,
  apply_action, apply_dark_arts_completed, apply_card_acquired, choice_resolved, turn_completed,
  dark_arts_completed, card_played, attack_assigned, card_acquired, GameEvent, apply_game_event,
}
use rust_game_harry_potter.Engine.Control.Agreement.{
  in_progress-playing, Coherent, Active, finish_terminal_state-Coherent, in_progress-Coherent,
  apply_effect_stop-Coherent,
}
use rust_game_harry_potter.Engine.Control.Seats.{
  validate_choice_steps-Coherent, validate_turn_event_metadata-Seated, validate_turn_steps-Allowed,
}
use rust_game_harry_potter.Engine.Control.Replays.{apply_engine_control-Coherent}

apply_choice_resolved-Coherent :
    (game_four : Bool) (event : ChoiceResolved) (state : GameControl)
    → Coherent state
    → Ensures Coherent (apply_choice_resolved game_four event state)
unfolding apply_choice_resolved
apply_choice_resolved-Coherent game_four event state c =
    Ensures-ensure (is_in_progress state.status) _ _ λ going.
      Ensures->>= (ok_or (waiting_choice state) GameEventError.event_not_applicable) _ λ pending e.
        Ensures-ensure (event.actor_position == pending.responsible_position) _ _ λ _.
          Ensures->>=
            (ok_or (normalize_effect_choice_selection pending event.selected_options)
              GameEventError.effect_transition_invalid)
            _
            λ normalized f.
              Ensures-ensure
                (event.choice_id == pending.id
                  && event.choice_cause == pending.cause
                  && list_eq normalized event.selected_options)
                _ _
                λ _. Ensures-ensure (event.turn == state.turn) _ _ λ _.
                  Ensures->>= (validate_choice_steps game_four event.phases event.control state) _
                    λ checked g. yields (
                      Ensures-ok
                        (validate_choice_steps-Coherent game_four event.phases event.control state
                          (in_progress-playing state.status going) c.active)
                        g)

apply_turn_completed-Coherent :
    (game_four table_lost : Bool) (event : TurnCompleted) (state : GameControl)
    → Coherent state
    → Ensures Coherent (apply_turn_completed game_four table_lost event state)
unfolding apply_turn_completed apply_engine_control
apply_turn_completed-Coherent game_four table_lost event state c =
    Ensures->>= (validate_turn_event_metadata event state) _ λ known e.
      Ensures->>= (validate_turn_steps game_four event state) _ λ checked f.
        Ensures-ensure
          (not (
            event.control.phase == end_turn
            && not (game_four && is_in_progress event.control.status)
            && (not (is_lost event.control.status) || not table_lost)))
          _ _
          λ _. yields (
            apply_engine_control-Coherent event.control event.phases (positions_of state) state
              (Ensures-ok (validate_turn_steps-Allowed game_four event state) f)
              (Ensures-ok (validate_turn_event_metadata-Seated event state c.active) e))

in_phase-playing :
    (phase : GamePhase) (turn actor : ℕ) (state : GameControl)
    → Ensures
        (λ (u : Unit {0}). (state.status ≡ in_progress) × (state.phase ≡ phase))
        (in_phase phase turn actor state)
in_phase-playing phase turn actor state =
    Ensures-ensure
      (is_in_progress state.status && state.phase == phase && is_none state.pending_choice) _ _
      λ h. Ensures-ensure (actor == state.active_position) _ _ λ _.
        Ensures-of (ensure (turn == state.turn) GameEventError.turn_mismatch)
          λ u f. (in_progress-playing state.status (and-left _ _ (and-left _ _ h)), ground arith)

apply_legacy_effect_stop-Coherent :
    (stop : EffectStop) (state : GameControl)
    → state.phase ≡ dark_arts
    → state.status ≡ in_progress
    → Active state
    → Coherent (apply_legacy_effect_stop stop state)
unfolding apply_legacy_effect_stop queued_phases_match_phase GamePhase-discrete
apply_legacy_effect_stop-Coherent (choice c) state at playing active =
    in_progress-Coherent _ playing (rw at (refl, refl, refl)) active
apply_legacy_effect_stop-Coherent stable state at playing active =
    in_progress-Coherent _ playing (refl, refl, refl, refl, refl) active
apply_legacy_effect_stop-Coherent (terminal outcome) state at playing active =
    finish_terminal_state-Coherent outcome state active

apply_action-Coherent :
    (turn actor : ℕ) (stop : EffectStop) (state : GameControl)
    → Coherent state
    → Ensures Coherent (apply_action turn actor stop state)
unfolding apply_action
apply_action-Coherent turn actor stop state c =
    Ensures->>= (in_phase hero_actions turn actor state) _ λ known e.
      let (playing, at) = Ensures-ok (in_phase-playing hero_actions turn actor state) e in
      yields (apply_effect_stop-Coherent stop state at playing c.active)

-- An event applied to an agreeing control.
pub apply_game_event-Coherent :
    (game_four table_lost : Bool) (event : GameEvent) (state : GameControl)
    → Coherent state
    → Ensures Coherent (apply_game_event game_four table_lost event state)
unfolding apply_game_event apply_dark_arts_completed apply_card_acquired
apply_game_event-Coherent game_four table_lost (choice_resolved event) state c =
    apply_choice_resolved-Coherent game_four event state c
apply_game_event-Coherent game_four table_lost (turn_completed event) state c =
    apply_turn_completed-Coherent game_four table_lost event state c
apply_game_event-Coherent game_four table_lost (dark_arts_completed turn actor stop) state c =
    Ensures->>= (in_phase dark_arts turn actor state) _ λ known e.
      let (playing, at) = Ensures-ok (in_phase-playing dark_arts turn actor state) e in
      yields (apply_legacy_effect_stop-Coherent stop state at playing c.active)
apply_game_event-Coherent game_four table_lost (card_played turn actor stop) state c =
    apply_action-Coherent turn actor stop state c
apply_game_event-Coherent game_four table_lost (attack_assigned turn actor stop) state c =
    apply_action-Coherent turn actor stop state c
apply_game_event-Coherent game_four table_lost (card_acquired turn actor) state c =
    Ensures->>= (in_phase hero_actions turn actor state) _ λ known e. yields c
