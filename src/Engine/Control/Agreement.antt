-- ===== src/Engine/Control/Agreement.antt =====
-- When the parts of the turn control agree with each other (crates/game-domain/src/lib.rs).
use rust_game_harry_potter.Base.{
  ℕ, ◌+◌, ◌%◌, ◌≡◌, ◌≢◌, refl, ◌∙◌, string_eq, true, Option, none, some, [], ◌∷◌, nat_eq, ltb,
  ok_or, ok_or-eq-ok, length, get_elem?, Ensures, yields, Ensures->>=, Ensures-ensure,
}
use rust_game_harry_potter.Effects.Rules.{EffectGameOutcome, lost, won}
use rust_game_harry_potter.Effects.Outcomes.{invalid_definition}
use rust_game_harry_potter.Effects.Choices.{
  PendingEffectChoice, EffectStop, choice, stable, terminal,
}
use rust_game_harry_potter.Engine.Control.{
  GameStatus, in_progress, game_lost, game_won, GamePhase, GamePhase-discrete, phase_eq, dark_arts,
  villains, hero_actions, end_turn, DecisionPoint, automatic, player_intent, effect_choice,
  InitialPlayer, GameControl, index_of, u32_max, start_next_turn, advance_after_automatic_phase,
  finish_terminal_state, apply_effect_stop, enter_end_turn, stop_for_choice,
  queued_phases_match_phase,
}
use rust_game_harry_potter.Engine.Control.Commands.{is_in_progress}

-- What each kind of decision requires of the rest, while the game is in progress.
abbrev pub DecisionAgrees : Option DecisionPoint → GameControl → Type 0
DecisionAgrees none state = ⊥
DecisionAgrees (some automatic) state =
    (queued_phases_match_phase state.phase state.queued_phases ≡ true)
    × (state.pending_choice ≡ none)
    × (state.queued_effects ≡ [])
DecisionAgrees (some (player_intent position)) state =
    (state.phase ≡ hero_actions)
    × (state.queued_phases ≡ end_turn ∷ [])
    × (position ≡ state.active_position)
    × (state.pending_choice ≡ none)
    × (state.queued_effects ≡ [])
DecisionAgrees (some (effect_choice c)) state =
    (queued_phases_match_phase state.phase state.queued_phases ≡ true)
    × (state.pending_choice ≡ some c)
    × (state.queued_effects ≡ c.continuation.queue)

-- A finished game waits for nothing and has nothing queued.
abbrev pub Over : GameControl → Type 0
Over state =
    (state.decision_point ≡ none)
    × (state.queued_phases ≡ [])
    × (state.pending_choice ≡ none)
    × (state.queued_effects ≡ [])

abbrev pub StatusAgrees : GameStatus → GameControl → Type 0
StatusAgrees in_progress state = DecisionAgrees state.decision_point state
StatusAgrees game_lost state = Over state
StatusAgrees game_won state = Over state

abbrev pub Active : GameControl → Type 0
Active state =
    (i : ℕ) × (p : InitialPlayer) × (get_elem? state.players i ≡ some p)
    × (p.position ≡ state.active_position)

pub record Coherent (state : GameControl) : Type 0 where
  pub agrees : StatusAgrees state.status state
  pub active : Active state

playing_agrees :
    (status : GameStatus) (state : GameControl)
    → status ≡ in_progress
    → DecisionAgrees state.decision_point state
    → StatusAgrees status state
playing_agrees in_progress state playing agrees = agrees
playing_agrees game_lost state playing agrees = cc
playing_agrees game_won state playing agrees = cc

pub in_progress-Coherent :
    (state : GameControl)
    → state.status ≡ in_progress
    → DecisionAgrees state.decision_point state
    → Active state
    → Coherent state
in_progress-Coherent state playing agrees active = record {
  agrees = playing_agrees state.status state playing agrees;
  active = active;
}

pub finish_terminal_state-Coherent :
    (outcome : EffectGameOutcome) (state : GameControl)
    → Active state
    → Coherent (finish_terminal_state outcome state)
unfolding finish_terminal_state
finish_terminal_state-Coherent lost state active = record {
  agrees = (refl, refl, refl, refl);
  active = active;
}
finish_terminal_state-Coherent won state active = record {
  agrees = (refl, refl, refl, refl);
  active = active;
}

-- An agreeing control of a game in progress.
pub record Going (state : GameControl) : Type 0 where
  pub coherent : Coherent state
  pub playing : state.status ≡ in_progress

-- The next turn is one of the same players.
pub start_next_turn-Going :
    (state : GameControl)
    → state.status ≡ in_progress
    → Ensures
        (λ (next : GameControl). Going next × (next.players ≡ state.players))
        (start_next_turn state)
unfolding start_next_turn queued_phases_match_phase GamePhase-discrete
start_next_turn-Going state playing =
    Ensures->>= (ok_or (index_of state.active_position 0 state.players) invalid_definition) _
      λ index e.
        Ensures->>=
          (ok_or (get_elem? state.players ((index + 1) % length state.players)) invalid_definition)
          _
          λ next f. Ensures-ensure (ltb state.turn u32_max) _ _ λ _. yields (
            record {
              coherent =
                  in_progress-Coherent _ playing (refl, refl, refl)
                    ((index + 1) % length state.players, next, ok_or-eq-ok _ _ f, refl);
              playing = playing;
            },
            refl,
          )

pub advance-Coherent :
    (state : GameControl) (phase : GamePhase)
    → state.phase ≡ phase
    → phase ≢ end_turn
    → state.status ≡ in_progress
    → Active state
    → Coherent (advance_after_automatic_phase state)
unfolding advance_after_automatic_phase queued_phases_match_phase GamePhase-discrete
advance-Coherent state dark_arts at before playing active =
    rw at (in_progress-Coherent _ playing (refl, refl, refl) active)
advance-Coherent state villains at before playing active =
    rw at (in_progress-Coherent _ playing (refl, refl, refl, refl, refl) active)
advance-Coherent state hero_actions at before playing active =
    rw at (in_progress-Coherent _ playing (refl, refl, refl, refl, refl) active)
advance-Coherent state end_turn at before playing active = absurd (before refl)

pub apply_effect_stop-Coherent :
    (stop : EffectStop) (state : GameControl)
    → state.phase ≡ hero_actions
    → state.status ≡ in_progress
    → Active state
    → Coherent (apply_effect_stop stop state)
unfolding apply_effect_stop queued_phases_match_phase GamePhase-discrete
apply_effect_stop-Coherent (choice c) state at playing active =
    in_progress-Coherent _ playing (rw at (refl, refl, refl)) active
apply_effect_stop-Coherent stable state at playing active =
    in_progress-Coherent _ playing (refl, refl, refl, refl, refl) active
apply_effect_stop-Coherent (terminal outcome) state at playing active =
    finish_terminal_state-Coherent outcome state active

-- A control from which a phase goes on.
pub record Ready (state : GameControl) : Type 0 where
  pub playing : state.status ≡ in_progress
  pub queued : queued_phases_match_phase state.phase state.queued_phases ≡ true
  pub active : Active state

decision_queued :
    (d : Option DecisionPoint) (state : GameControl)
    → DecisionAgrees d state
    → queued_phases_match_phase state.phase state.queued_phases ≡ true
unfolding queued_phases_match_phase GamePhase-discrete
decision_queued none state h = absurd h
decision_queued (some automatic) state h = h.0
decision_queued (some (player_intent position)) state h = rw (h.0, h.1) refl
decision_queued (some (effect_choice c)) state h = h.0

playing_decision :
    (status : GameStatus) (state : GameControl)
    → status ≡ in_progress
    → StatusAgrees status state
    → DecisionAgrees state.decision_point state
playing_decision in_progress state playing h = h
playing_decision game_lost state playing h = cc
playing_decision game_won state playing h = cc

pub Coherent-Ready :
    (state : GameControl) → Coherent state → state.status ≡ in_progress → Ready state
Coherent-Ready state c playing = record {
  playing = playing;
  queued =
      decision_queued state.decision_point state
        (playing_decision state.status state playing c.agrees);
  active = c.active;
}

pub stop_for_choice-Coherent :
    (c : PendingEffectChoice) (state : GameControl)
    → Ready state
    → Coherent (stop_for_choice c state)
unfolding stop_for_choice
stop_for_choice-Coherent c state r =
    in_progress-Coherent _ r.playing (r.queued, refl, refl) r.active

pub enter_end_turn-Coherent :
    (state : GameControl)
    → state.status ≡ in_progress
    → Active state
    → Coherent (enter_end_turn state)
unfolding enter_end_turn queued_phases_match_phase GamePhase-discrete
enter_end_turn-Coherent state playing active =
    in_progress-Coherent _ playing (refl, refl, refl) active

-- Only a game in progress waits for a decision.
pub decided-playing :
    (status : GameStatus) (d : DecisionPoint) (state : GameControl)
    → state.decision_point ≡ some d
    → StatusAgrees status state
    → status ≡ in_progress
decided-playing in_progress d state h a = refl
decided-playing game_lost d state h a = cc
decided-playing game_won d state h a = cc

status-advance :
    (phase : GamePhase) (state : GameControl)
    → state.phase ≡ phase
    → (advance_after_automatic_phase state).status ≡ state.status
unfolding advance_after_automatic_phase
status-advance dark_arts state at = rw at refl
status-advance villains state at = rw at refl
status-advance hero_actions state at = rw at refl
status-advance end_turn state at = rw at refl

pub advance-Going :
    (state : GameControl)
    → state.phase ≢ end_turn
    → Going state
    → Going (advance_after_automatic_phase state)
advance-Going state before g = record {
  coherent = advance-Coherent state state.phase refl before g.playing g.coherent.active;
  playing = status-advance state.phase state refl ∙ g.playing;
}

pub phase-advance :
    (state : GameControl)
    → state.phase ≡ dark_arts
    → (advance_after_automatic_phase state).phase ≡ villains
unfolding advance_after_automatic_phase
phase-advance state at = rw at refl

pub in_progress-playing :
    (status : GameStatus) → is_in_progress status ≡ true → status ≡ in_progress
in_progress-playing in_progress h = refl
in_progress-playing game_lost h = cc
in_progress-playing game_won h = cc
