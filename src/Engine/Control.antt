-- ===== src/Engine/Control.antt =====
-- Whose turn it is, in which phase, and what the engine waits for (the control part of
-- `InitialGameState` in crates/game-domain/src/lib.rs).
pub mod Commands
pub mod Records
pub mod Events
pub mod Agreement
pub mod Decisions
pub mod Replays
pub mod Seats
pub mod Applying
pub mod Coherence
use rust_game_harry_potter.Engine.Heroes.{HeroId}
use rust_game_harry_potter.Base.{
  ℕ, zero, suc, ◌+◌, ◌%◌, String, Bool, true, false, Option, none, some, List, [], ◌∷◌, ◌++◌, ◌==◌,
  nat_eq, list_eq, Eq, if◌then◌else◌, ltb, Result, ok, err, ◌>>=◌, ◌>>◌, ensure, ok_or, length,
  get_elem?,
}
use rust_game_harry_potter.Effects.Rules.{EffectGameOutcome, lost, won}
use rust_game_harry_potter.Effects.Outcomes.{EffectExecutionError, invalid_definition}
use rust_game_harry_potter.Effects.Choices.{
  QueuedEffect, PendingEffectChoice, EffectStop, choice, stable, terminal,
}

pub data GameStatus : Type 0 where
  in_progress game_lost game_won : GameStatus

pub data GamePhase : Type 0 where
  dark_arts villains hero_actions end_turn : GamePhase

unfoldable pub GamePhase-discrete : Discrete GamePhase
GamePhase-discrete = hlevel

instance abbrev pub phase_eq : Eq GamePhase
phase_eq = record { dec = GamePhase-discrete }

pub data DecisionPoint : Type 0 where
  automatic : DecisionPoint
  player_intent : ℕ → DecisionPoint
  effect_choice : PendingEffectChoice → DecisionPoint

pub record InitialPlayer : Type 0 where
  pub position : ℕ
  pub hero : HeroId

-- The fields of `InitialGameState` that the turn control reads and writes.
pub record GameControl : Type 0 where
  pub status : GameStatus
  pub turn : ℕ
  pub phase : GamePhase
  pub active_position : ℕ
  pub players : List InitialPlayer
  pub pending_choice : Option PendingEffectChoice
  pub queued_phases : List GamePhase
  pub queued_effects : List QueuedEffect
  pub decision_point : Option DecisionPoint

-- `players.iter().position(..)`, counted from `i`.
unfoldable pub index_of : ℕ → ℕ → List InitialPlayer → Option ℕ
index_of position i [] = none
index_of position i (p ∷ ps) =
    let rest = index_of position (suc i) ps in if p.position == position then some i else rest

abbrev pub u32_max : ℕ
u32_max = 4294967295

-- `players[(index + 1) % players.len()]` is within bounds when an index was found.
unfoldable pub start_next_turn : GameControl → Result EffectExecutionError GameControl
unfolding index_of
start_next_turn state = do
  index ← ok_or (index_of state.active_position 0 state.players) invalid_definition
  next ← ok_or (get_elem? state.players ((index + 1) % length state.players)) invalid_definition
  ensure (ltb state.turn u32_max) invalid_definition
  ok (record state {
    active_position = next.position;
    turn = state.turn + 1;
    phase = dark_arts;
    queued_phases = villains ∷ hero_actions ∷ end_turn ∷ [];
    pending_choice = none;
    queued_effects = [];
    decision_point = some automatic;
  })

abbrev pub next_phase : GamePhase → GameControl → GameControl
next_phase dark_arts state = record state {
  phase = villains;
  queued_phases = hero_actions ∷ end_turn ∷ [];
  decision_point = some automatic;
}
next_phase villains state = record state {
  phase = hero_actions;
  queued_phases = end_turn ∷ [];
  decision_point = some (player_intent state.active_position);
}
next_phase hero_actions state = record state {
  queued_phases = end_turn ∷ [];
  decision_point = some (player_intent state.active_position);
}
next_phase end_turn state = state

unfoldable pub advance_after_automatic_phase : GameControl → GameControl
advance_after_automatic_phase state =
    next_phase state.phase (record state { pending_choice = none; queued_effects = [] })

abbrev pub final_status : EffectGameOutcome → GameStatus
final_status lost = game_lost
final_status won = game_won

unfoldable pub finish_terminal_state : EffectGameOutcome → GameControl → GameControl
finish_terminal_state outcome state = record state {
  status = final_status outcome;
  pending_choice = none;
  decision_point = none;
  queued_phases = [];
  queued_effects = [];
}

unfoldable pub apply_effect_stop : EffectStop → GameControl → GameControl
unfolding finish_terminal_state
apply_effect_stop (choice c) state = record state {
  queued_phases = end_turn ∷ [];
  queued_effects = c.continuation.queue;
  pending_choice = some c;
  decision_point = some (effect_choice c);
}
apply_effect_stop stable state = record state {
  phase = hero_actions;
  queued_phases = end_turn ∷ [];
  queued_effects = [];
  pending_choice = none;
  decision_point = some (player_intent state.active_position);
}
apply_effect_stop (terminal outcome) state = finish_terminal_state outcome state

-- The hero has ended the actions: the control part of what precedes `perform_end_turn`.
unfoldable pub enter_end_turn : GameControl → GameControl
enter_end_turn state = record state {
  phase = end_turn;
  queued_phases = [];
  queued_effects = [];
  pending_choice = none;
  decision_point = some automatic;
}

-- A choice stops the phase in which it arises.
unfoldable pub stop_for_choice : PendingEffectChoice → GameControl → GameControl
stop_for_choice c state = record state {
  queued_effects = c.continuation.queue;
  pending_choice = some c;
  decision_point = some (effect_choice c);
}

unfoldable pub queued_phases_match_phase : GamePhase → List GamePhase → Bool
queued_phases_match_phase dark_arts queued =
    list_eq queued (villains ∷ hero_actions ∷ end_turn ∷ [])
queued_phases_match_phase villains queued = list_eq queued (hero_actions ∷ end_turn ∷ [])
queued_phases_match_phase hero_actions queued = list_eq queued (end_turn ∷ [])
queued_phases_match_phase end_turn queued = list_eq queued []
