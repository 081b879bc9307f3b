-- ===== src/Engine/Control/Decisions.antt =====
-- The decisions on commands keep the parts of the turn control in agreement
-- (`resolve_choice`, `end_hero_actions` and `settle_automatic_phases` of
-- crates/game-domain/src/lib.rs).
use rust_game_harry_potter.Base.{
  Ensures-map_err, ℕ, ◌≡◌, ◌≢◌, refl, string_eq, Ensures-weaken, String, Bool, true, Option, none,
  some, List, ◌==◌, nat_eq, Result, ok_or, map_err, Ensures, yields, Ensures-ok, Ensures->>=,
  Ensures-ensure, Ensures-if, arith,
}
use rust_game_harry_potter.Effects.Rules.{lost}
use rust_game_harry_potter.Effects.Outcomes.{EffectExecutionError}
use rust_game_harry_potter.Effects.Choices.{
  PendingEffectChoice, EffectStop, choice, stable, terminal,
}
use rust_game_harry_potter.Executor.Resume.{normalize_effect_choice_selection}
use rust_game_harry_potter.Engine.Types.{GameIntentError}
use rust_game_harry_potter.Engine.Control.{
  in_progress, GamePhase, GamePhase-discrete, phase_eq, dark_arts, villains, hero_actions, end_turn,
  DecisionPoint, automatic, player_intent, effect_choice, GameControl, start_next_turn,
  advance_after_automatic_phase, enter_end_turn,
}
use rust_game_harry_potter.Engine.Control.Commands.{
  Answers, Settled, resolve_choice, decide_end_hero_actions, after_phase, settle_phase,
  settle_automatic_phases, finish_phase, after_choice, after_revelations, end_hero_actions,
  is_in_progress, awaits, waiting_choice, game_intent_effect_error,
}
use rust_game_harry_potter.Engine.Control.Agreement.{
  in_progress-playing, Coherent, Going, Coherent-Ready, stop_for_choice-Coherent,
  finish_terminal_state-Coherent, start_next_turn-Going, advance-Going, phase-advance,
  enter_end_turn-Coherent, decided-playing,
}

after_phase-Coherent :
    (stop : EffectStop) (rest : GameControl → Settled) (state : GameControl)
    → state.phase ≢ end_turn
    → Going state
    → (Going (advance_after_automatic_phase state)
        → Ensures Coherent (rest (advance_after_automatic_phase state)))
    → Ensures Coherent (after_phase stop rest state)
unfolding after_phase
after_phase-Coherent (choice c) rest state before g k =
    yields (stop_for_choice-Coherent c state (Coherent-Ready state g.coherent g.playing))
after_phase-Coherent (terminal outcome) rest state before g k =
    yields (finish_terminal_state-Coherent outcome state g.coherent.active)
after_phase-Coherent stable rest state before g k = k (advance-Going state before g)

settle_phase-Coherent :
    (phase : GamePhase) (answers : Answers) (state : GameControl)
    → state.phase ≡ phase
    → Going state
    → Ensures Coherent (settle_phase phase answers state)
unfolding settle_phase
settle_phase-Coherent dark_arts answers state at g = Ensures->>= (answers dark_arts) _ λ stop e.
    after_phase-Coherent stop _ state (λ h. cc) g
      λ here.
        let then = phase-advance state at in
        Ensures->>= (answers villains) _ λ last f.
          after_phase-Coherent last _ (advance_after_automatic_phase state) (λ h. cc) here
            λ there. yields there.coherent
settle_phase-Coherent villains answers state at g =
    Ensures->>= (answers villains) _
      λ stop e. after_phase-Coherent stop _ state (λ h. cc) g λ here. yields here.coherent
settle_phase-Coherent hero_actions answers state at g = yields g.coherent
settle_phase-Coherent end_turn answers state at g = yields g.coherent

settle_automatic_phases-Coherent :
    (answers : Answers) (state : GameControl)
    → Going state
    → Ensures Coherent (settle_automatic_phases answers state)
unfolding settle_automatic_phases
settle_automatic_phases-Coherent answers state g =
    settle_phase-Coherent state.phase answers state refl g

finish_phase-Going : (state : GameControl) → Going state → Ensures Going (finish_phase state)
unfolding finish_phase GamePhase-discrete
finish_phase-Going state g =
    Ensures-if (state.phase == end_turn) _ _
      (λ last. Ensures-weaken (start_next_turn-Going state g.playing) λ next h. h.0)
      λ before. yields (advance-Going state (λ h. ground arith) g)

after_choice-Coherent :
    (answers : Answers) (stop : EffectStop) (state : GameControl)
    → Going state
    → Ensures Coherent (after_choice answers stop state)
unfolding after_choice
after_choice-Coherent answers (choice c) state g =
    yields (stop_for_choice-Coherent c state (Coherent-Ready state g.coherent g.playing))
after_choice-Coherent answers stable state g = Ensures-map_err _ (
    Ensures->>= (finish_phase state) _ λ next e.
      settle_automatic_phases-Coherent answers next (Ensures-ok (finish_phase-Going state g) e))
after_choice-Coherent answers (terminal outcome) state g =
    yields (finish_terminal_state-Coherent outcome state g.coherent.active)

-- An answered choice.
pub resolve_choice-Coherent :
    (resume : PendingEffectChoice → List String → Result EffectExecutionError EffectStop)
    (answers : Answers) (actor : ℕ) (choice_id : String) (selected : List String)
    (state : GameControl)
    → Coherent state
    → Ensures Coherent (resolve_choice resume answers actor choice_id selected state)
unfolding resolve_choice
resolve_choice-Coherent resume answers actor choice_id selected state c =
    Ensures-ensure (is_in_progress state.status) _ _ λ going.
      Ensures->>= (ok_or (waiting_choice state) GameIntentError.intent_not_legal) _ λ pending e.
        Ensures-ensure (actor == pending.responsible_position) _ _ λ _.
          Ensures-ensure (choice_id == pending.id) _ _ λ _.
            Ensures->>=
              (ok_or (normalize_effect_choice_selection pending selected)
                GameIntentError.intent_not_legal)
              _
              λ options f.
                Ensures->>= (map_err game_intent_effect_error (resume pending options)) _ λ stop h.
                  after_choice-Coherent answers stop state
                    (record { coherent = c; playing = in_progress-playing state.status going })

after_revelations-Coherent :
    (answers : Answers) (stop : EffectStop) (state : GameControl)
    → Going state
    → Ensures Coherent (after_revelations answers stop state)
unfolding after_revelations
after_revelations-Coherent answers (choice c) state g =
    yields (stop_for_choice-Coherent c state (Coherent-Ready state g.coherent g.playing))
after_revelations-Coherent answers stable state g = Ensures-map_err _ (
    Ensures->>= (start_next_turn state) _ λ next e.
      settle_automatic_phases-Coherent answers next
        (Ensures-ok (start_next_turn-Going state g.playing) e).0)
after_revelations-Coherent answers (terminal outcome) state g =
    yields (finish_terminal_state-Coherent outcome state g.coherent.active)

end_hero_actions-Coherent :
    (ended : Result GameIntentError Bool) (revelations : Result GameIntentError EffectStop)
    (answers : Answers) (state : GameControl)
    → Going state
    → Ensures Coherent (end_hero_actions ended revelations answers state)
unfolding end_hero_actions enter_end_turn
end_hero_actions-Coherent ended revelations answers state g =
    let entered = enter_end_turn-Coherent state g.playing g.coherent.active in
    Ensures->>= ended _ λ final e.
      Ensures-if final _ _
        (λ _. yields (finish_terminal_state-Coherent lost (enter_end_turn state) entered.active))
        λ _. Ensures->>= revelations _ λ stop f.
          after_revelations-Coherent answers stop (enter_end_turn state)
            (record { coherent = entered; playing = g.playing })

awaits-playing :
    (d : Option DecisionPoint) (actor : ℕ) (state : GameControl)
    → state.decision_point ≡ d
    → awaits d actor ≡ true
    → Coherent state
    → state.status ≡ in_progress
awaits-playing none actor state e h c = cc
awaits-playing (some automatic) actor state e h c = cc
awaits-playing (some (player_intent p)) actor state e h c =
    decided-playing state.status (player_intent p) state e c.agrees
awaits-playing (some (effect_choice p)) actor state e h c = cc

-- The end of the hero's actions.
pub decide_end_hero_actions-Coherent :
    (ended : Result GameIntentError Bool) (revelations : Result GameIntentError EffectStop)
    (answers : Answers) (actor : ℕ) (state : GameControl)
    → Coherent state
    → Ensures Coherent (decide_end_hero_actions ended revelations answers actor state)
unfolding decide_end_hero_actions
decide_end_hero_actions-Coherent ended revelations answers actor state c =
    Ensures-ensure (awaits state.decision_point actor) _ _ λ h.
      end_hero_actions-Coherent ended revelations answers state (record {
        coherent = c;
        playing = awaits-playing state.decision_point actor state refl h c;
      })
