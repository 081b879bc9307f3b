-- ===== src/Engine/Control/Commands.antt =====
-- What the commands do to the control of turns (`GameEngine::decide`, `resolve_choice`,
-- `end_hero_actions` and `settle_automatic_phases` of crates/game-domain/src/lib.rs). What the
-- executor answers is an argument, as is what the end of the turn reports: both work on the table.
use rust_game_harry_potter.Base.{
  ℕ, String, Bool, true, false, Option, none, some, List, ◌==◌, ◌&&◌, nat_eq, string_eq, list_eq,
  Eq, if◌then◌else◌, Result, ok, ◌>>=◌, ◌>>◌, ensure, ok_or, map_err, ℕ_discrete, String-discrete,
}
use rust_game_harry_potter.Effects.Outcomes.{EffectExecutionError}
use rust_game_harry_potter.Effects.Choices.{
  EffectPathSegment, EffectCursor, QueuedEffect, EffectContinuation, PendingEffectChoiceKind,
  PendingEffectChoice, EffectStop,
}
use rust_game_harry_potter.Executor.Resume.{normalize_effect_choice_selection}
use rust_game_harry_potter.Engine.Types.{GameIntentError}
use rust_game_harry_potter.Engine.Control.{
  GameStatus, in_progress, GamePhase, phase_eq, dark_arts, villains, hero_actions, end_turn,
  DecisionPoint, player_intent, effect_choice, GameControl, start_next_turn,
  advance_after_automatic_phase, finish_terminal_state, enter_end_turn, stop_for_choice,
}
use rust_game_harry_potter.Effects.Rules.{lost}

unfoldable pub EffectPathSegment-discrete : Discrete EffectPathSegment
EffectPathSegment-discrete = hlevel ℕ_discrete

unfoldable pub EffectCursor-discrete : Discrete EffectCursor
EffectCursor-discrete = hlevel (String-discrete, EffectPathSegment-discrete)

unfoldable pub QueuedEffect-discrete : Discrete QueuedEffect
QueuedEffect-discrete = hlevel (ℕ_discrete, EffectCursor-discrete)

unfoldable pub PendingEffectChoiceKind-discrete : Discrete PendingEffectChoiceKind
PendingEffectChoiceKind-discrete = hlevel

unfoldable pub EffectContinuation-discrete : Discrete EffectContinuation
EffectContinuation-discrete = hlevel (ℕ_discrete, EffectCursor-discrete, QueuedEffect-discrete)

unfoldable pub PendingEffectChoice-discrete : Discrete PendingEffectChoice
PendingEffectChoice-discrete =
    hlevel
      (ℕ_discrete, String-discrete, PendingEffectChoiceKind-discrete, EffectContinuation-discrete)

instance abbrev pub queued_effect_eq : Eq QueuedEffect
queued_effect_eq = record { dec = QueuedEffect-discrete }

instance abbrev pub pending_choice_eq : Eq PendingEffectChoice
pending_choice_eq = record { dec = PendingEffectChoice-discrete }

abbrev pub is_in_progress : GameStatus → Bool
is_in_progress in_progress = true
is_in_progress _ = false

-- The decision point is a choice that equals the pending one.
abbrev pub decides : Option DecisionPoint → PendingEffectChoice → Bool
decides (some (effect_choice decision)) pending = decision == pending
decides _ pending = false

abbrev waiting : GameControl → Option PendingEffectChoice → Option PendingEffectChoice
waiting state none = none
waiting state (some pending) =
    if decides state.decision_point pending
      && list_eq state.queued_effects pending.continuation.queue
    then some pending
    else none

-- `pending_choice.as_ref().filter(..)`
unfoldable pub waiting_choice : GameControl → Option PendingEffectChoice
waiting_choice state = waiting state state.pending_choice

abbrev pub game_intent_effect_error : EffectExecutionError → GameIntentError
game_intent_effect_error EffectExecutionError.invalid_choice = GameIntentError.intent_not_legal
game_intent_effect_error EffectExecutionError.invalid_target_selection =
    GameIntentError.intent_not_legal
game_intent_effect_error EffectExecutionError.unaffordable_cost = GameIntentError.intent_not_legal
game_intent_effect_error _ = GameIntentError.effect_execution_failed

-- What the executor answers to each automatic phase.
abbrev pub Answers : Type 0
Answers = GamePhase → Result EffectExecutionError EffectStop

abbrev pub Settled : Type 0
Settled = Result EffectExecutionError GameControl

-- The `match stop` of a round; `rest` is what the loop does next.
unfoldable pub after_phase : EffectStop → (GameControl → Settled) → GameControl → Settled
after_phase (EffectStop.choice c) rest state = ok (stop_for_choice c state)
after_phase (EffectStop.terminal outcome) rest state = ok (finish_terminal_state outcome state)
after_phase EffectStop.stable rest state = rest (advance_after_automatic_phase state)

-- The rounds of the loop: the dark arts come before the villains, and the loop returns after them.
unfoldable pub settle_phase : GamePhase → Answers → GameControl → Settled
unfolding after_phase
settle_phase dark_arts answers state = do
  stop ← answers dark_arts
  after_phase stop (λ next. do last ← answers villains; after_phase last (λ done. ok done) next)
      state
settle_phase villains answers state = do
  stop ← answers villains
  after_phase stop (λ done. ok done) state
settle_phase hero_actions answers state = ok state
settle_phase end_turn answers state = ok state

unfoldable pub settle_automatic_phases : Answers → GameControl → Settled
unfolding settle_phase
settle_automatic_phases answers state = settle_phase state.phase answers state

abbrev Decided : Type 0
Decided = Result GameIntentError GameControl

-- The stable end of the effects of a choice.
unfoldable pub finish_phase : GameControl → Settled
unfolding start_next_turn advance_after_automatic_phase
finish_phase state =
    if state.phase == end_turn
    then start_next_turn state
    else ok (advance_after_automatic_phase state)

unfoldable pub after_choice : Answers → EffectStop → GameControl → Decided
unfolding finish_phase settle_automatic_phases
after_choice answers (EffectStop.choice c) state = ok (stop_for_choice c state)
after_choice answers EffectStop.stable state =
    map_err game_intent_effect_error
      (do next ← finish_phase state; settle_automatic_phases answers next)
after_choice answers (EffectStop.terminal outcome) state = ok (finish_terminal_state outcome state)

-- A choice is answered; `resume` is what the executor does with the selection.
unfoldable pub resolve_choice :
    (PendingEffectChoice → List String → Result EffectExecutionError EffectStop)
    → Answers
    → ℕ
    → String
    → List String
    → GameControl
    → Decided
unfolding waiting_choice normalize_effect_choice_selection after_choice
resolve_choice resume answers actor choice_id selected state = do
  ensure (is_in_progress state.status) GameIntentError.intent_not_legal
  pending ← ok_or (waiting_choice state) GameIntentError.intent_not_legal
  ensure (actor == pending.responsible_position) GameIntentError.actor_not_choice_responsible
  ensure (choice_id == pending.id) GameIntentError.intent_not_legal
  options ←
      ok_or (normalize_effect_choice_selection pending selected) GameIntentError.intent_not_legal
  stop ← map_err game_intent_effect_error (resume pending options)
  after_choice answers stop state

unfoldable pub after_revelations : Answers → EffectStop → GameControl → Decided
unfolding start_next_turn settle_automatic_phases
after_revelations answers (EffectStop.choice c) state = ok (stop_for_choice c state)
after_revelations answers (EffectStop.terminal outcome) state =
    ok (finish_terminal_state outcome state)
after_revelations answers EffectStop.stable state =
    map_err game_intent_effect_error
      (do next ← start_next_turn state; settle_automatic_phases answers next)

-- The hero ends the actions; `ended` tells whether the end of the turn gave up the last location,
-- and `revelations` what the revealed cards did.
unfoldable pub end_hero_actions :
    Result GameIntentError Bool
    → Result GameIntentError EffectStop
    → Answers
    → GameControl
    → Decided
unfolding enter_end_turn finish_terminal_state after_revelations
end_hero_actions ended revelations answers state = do
  final_location_controlled ← ended
  if final_location_controlled
      then ok (finish_terminal_state lost (enter_end_turn state))
      else (do stop ← revelations; after_revelations answers stop (enter_end_turn state))

abbrev pub awaits : Option DecisionPoint → ℕ → Bool
awaits (some (player_intent responsible)) actor = responsible == actor
awaits _ actor = false

unfoldable pub decide_end_hero_actions :
    Result GameIntentError Bool
    → Result GameIntentError EffectStop
    → Answers
    → ℕ
    → GameControl
    → Decided
unfolding end_hero_actions
decide_end_hero_actions ended revelations answers actor state = do
  ensure (awaits state.decision_point actor) GameIntentError.actor_not_responsible
  end_hero_actions ended revelations answers state
