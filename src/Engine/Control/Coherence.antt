-- ===== src/Engine/Control/Coherence.antt =====
-- The parts of the turn control agree with each other, whatever the players decide and whichever
-- events are applied (crates/game-domain/src/lib.rs).
use rust_game_harry_potter.Base.{ℕ, ◌≡◌, String, Bool, List, Result, ok}
use rust_game_harry_potter.Effects.Outcomes.{EffectExecutionError}
use rust_game_harry_potter.Effects.Choices.{PendingEffectChoice, EffectStop}
use rust_game_harry_potter.Engine.Types.{GameIntentError}
use rust_game_harry_potter.Engine.Control.{GameControl}
use rust_game_harry_potter.Engine.Control.Commands.{
  Answers, resolve_choice, decide_end_hero_actions,
}
use rust_game_harry_potter.Engine.Control.Events.{GameEvent, apply_game_event}

-- What the engine does to the control: a decision on a command of a player, or an event applied
-- again. The executor and the table answer anything.
pub data Step (state : GameControl) : GameControl → Type 0 where
  choice_answered :
      (resume : PendingEffectChoice → List String → Result EffectExecutionError EffectStop)
      (answers : Answers) (actor : ℕ) (choice_id : String) (selected : List String)
      {next : GameControl}
      → resolve_choice resume answers actor choice_id selected state ≡ ok next
      → Step state next
  actions_ended :
      (ended : Result GameIntentError Bool) (revelations : Result GameIntentError EffectStop)
      (answers : Answers) (actor : ℕ) {next : GameControl}
      → decide_end_hero_actions ended revelations answers actor state ≡ ok next
      → Step state next
  event_applied :
      (game_four table_lost : Bool) (event : GameEvent) {next : GameControl}
      → apply_game_event game_four table_lost event state ≡ ok next
      → Step state next

pub data Steps (state : GameControl) : GameControl → Type 0 where
  done : Steps state state
  more : {mid next : GameControl} → Steps state mid → Step mid next → Steps state next
