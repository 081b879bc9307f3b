-- ===== src/Executor/TurnStates.antt =====
-- What an entity has done or suffered this turn (crates/game-domain/src/effects/game_three.rs).
use rust_game_harry_potter.Base.{
  ℕ, String, false, ◌&&◌, not, Option, none, some, List, [], ◌∷◌, ◌++◌, ◌==◌, nat_eq, string_eq,
  option_eq, if◌then◌else◌, ok, ◌>>=◌, ◌>>◌, ensure, ok_or, keep, contains,
}
use rust_game_harry_potter.Base.Sets.{sort_numbers}
use rust_game_harry_potter.Effects.Zones.{EffectZone, zone_eq, active_villains}
use rust_game_harry_potter.Effects.Entities.{
  EffectEntity, EffectTurnState, turn_state_eq, kind_eq, villain,
}
use rust_game_harry_potter.Effects.Outcomes.{turn_state_changed, invalid_definition}
use rust_game_harry_potter.World.Store.{entity, entity_mut, entities}
use rust_game_harry_potter.World.Moves.{Outcome}
use rust_game_harry_potter.Executor.Stun.{Table}
use rust_game_harry_potter.Executor.Draw.{EffectSource, log}

abbrev pub fresh_turn_state : EffectTurnState
fresh_turn_state = record {
  ability_used = false;
  healed_positions = [];
  attack_assigned = 0;
  attack_limit = none;
  suppressed_by = [];
}

abbrev pub set_turn_state : EffectTurnState → EffectEntity → EffectEntity
set_turn_state after e = record e { turn_state = some after }

-- The state that a new turn of the hero at a position leaves, if it differs.
abbrev pub renewed : ℕ → EffectEntity → Option (String × EffectTurnState)
renewed position e = elim e.turn_state [
  | none ↦ none
  | some before ↦
      let after = record fresh_turn_state {
        suppressed_by = keep (λ p. not (p == position)) before.suppressed_by;
      } in
      if before == after then none else some (e.id, after)
]

unfoldable pub renewals : ℕ → List (EffectZone × EffectEntity) → List (String × EffectTurnState)
renewals position [] = []
renewals position ((z, e) ∷ es) = elim (renewed position e) [
  | none ↦ renewals position es
  | some change ↦ change ∷ renewals position es
]

module _ {S : Type 0} where
  unfoldable pub change_turn_state : String → String → EffectTurnState → Table S → Outcome (Table S)
  change_turn_state id rule_id after t = do
    found ← ok_or (entity t.world id) invalid_definition
    before ← ok_or found.1.turn_state invalid_definition
    let changed = record t { world = entity_mut id (set_turn_state after) t.world }
    if before == after
        then ok changed
        else ok (log (turn_state_changed rule_id id before after ∷ []) changed)

  unfoldable pub change_all : String → List (String × EffectTurnState) → Table S → Outcome (Table S)
  unfolding change_turn_state
  change_all rule_id [] t = ok t
  change_all rule_id ((id, after) ∷ changes) t = do
    u ← change_turn_state id rule_id after t
    change_all rule_id changes u

  unfoldable pub begin_turn : ℕ → Table S → Outcome (Table S)
  unfolding change_all renewals
  begin_turn position t = change_all "system:begin-turn" (renewals position (entities t.world)) t

  unfoldable pub suppress_villain : String → EffectSource → Table S → Outcome (Table S × Option ℕ)
  unfolding change_turn_state
  suppress_villain id source t = do
    found ← ok_or (entity t.world id) invalid_definition
    ensure (found.0 == active_villains && found.1.kind == villain) invalid_definition
    state ← ok_or found.1.turn_state invalid_definition
    if contains state.suppressed_by source.actor_position then ok (t, none) else do
      u ←
          change_turn_state id source.rule_id
            (record state {
              suppressed_by = sort_numbers (state.suppressed_by ++ source.actor_position ∷ []);
            })
            t
      ok (u, none)
