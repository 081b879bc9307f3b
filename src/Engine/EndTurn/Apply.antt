-- ===== src/Engine/EndTurn/Apply.antt =====
-- Applying a recorded end of turn (`apply_end_turn_outcomes` of crates/game-domain/src/lib.rs).
-- What is left of the supplied outcomes is passed on, as the source's iterator is.
use rust_game_harry_potter.Base.{
  ℕ, zero, suc, String, ◌&&◌, none, some, List, [], ◌∷◌, map, ◌==◌, nat_eq, if◌then◌else◌, Result,
  ok, err, ◌>>=◌, ◌>>◌, ensure, ok_or, is_empty, Fault, raised, out_of_fuel, raise, raise_as,
  fault_as,
}
use rust_game_harry_potter.Effects.Zones.{
  EffectResource, attack, influence, EffectZone, zone_eq, hero_discard_pile, hero_draw_pile,
  hero_hand, hero_play_area,
}
use rust_game_harry_potter.World.Store.{EffectWorld, hero_resource, cards_in_zone, top_card_id}
use rust_game_harry_potter.World.Moves.{move_card}
use rust_game_harry_potter.World.Upkeep.{
  reset_hero_resource, restore_drawing, recover_stunned_heroes,
}
use rust_game_harry_potter.Engine.Types.{
  GameEventError, effect_transition_invalid, EndTurnOutcome, end_turn_outcome_eq, drawing_restored,
  card_moved, pile_shuffled, resource_reset,
}
use rust_game_harry_potter.Shuffling.{matches}
use rust_game_harry_potter.Engine.EndTurn.{
  advance_shared_table, recovered, turn_pile_over, hand_is_full, draw_fuel,
}

abbrev pub Applying : Type 0 → Type 0
Applying A = Result (Fault GameEventError) A

abbrev pub invalid : Fault GameEventError
invalid = raised effect_transition_invalid

unfoldable pub expect_end_turn_outcome :
    EndTurnOutcome → List EndTurnOutcome → Applying (List EndTurnOutcome)
expect_end_turn_outcome expected [] = err invalid
expect_end_turn_outcome expected (o ∷ rest) = if o == expected then ok rest else err invalid

unfoldable pub expect_all :
    List EndTurnOutcome → List EndTurnOutcome → Applying (List EndTurnOutcome)
unfolding expect_end_turn_outcome
expect_all [] supplied = ok supplied
expect_all (o ∷ os) supplied = do rest ← expect_end_turn_outcome o supplied; expect_all os rest

unfoldable pub apply_discards :
    EffectZone
    → List String
    → List EndTurnOutcome
    → EffectWorld
    → Applying (List EndTurnOutcome × EffectWorld)
unfolding expect_end_turn_outcome
apply_discards from [] supplied w = ok (supplied, w)
apply_discards from (id ∷ ids) supplied w = do
  rest ← expect_end_turn_outcome (card_moved id from hero_discard_pile) supplied
  v ← raise_as effect_transition_invalid (move_card id from hero_discard_pile w)
  apply_discards from ids rest v

unfoldable pub apply_discard_zone :
    ℕ
    → EffectZone
    → List EndTurnOutcome
    → EffectWorld
    → Applying (List EndTurnOutcome × EffectWorld)
unfolding apply_discards
apply_discard_zone actor from supplied w =
    apply_discards from (cards_in_zone w actor from) supplied w

unfoldable pub apply_reset :
    ℕ
    → EffectResource
    → List EndTurnOutcome
    → EffectWorld
    → Applying (List EndTurnOutcome × EffectWorld)
unfolding expect_end_turn_outcome
apply_reset actor r supplied w = do
  before ← raise (ok_or (hero_resource w actor r) effect_transition_invalid)
  rest ← expect_end_turn_outcome (resource_reset r before) supplied
  v ← raise_as effect_transition_invalid (reset_hero_resource actor r before w)
  ok (rest, v)

unfoldable pub replay_hero_recovery :
    List EndTurnOutcome → EffectWorld → Applying (List EndTurnOutcome × EffectWorld)
unfolding expect_all
replay_hero_recovery supplied w = do
  done ← raise_as effect_transition_invalid (recover_stunned_heroes w)
  rest ← expect_all (map recovered done.1) supplied
  let restored = restore_drawing done.0
  left ← expect_all (map drawing_restored restored.1) rest
  ok (left, restored.0)

-- The `while` loop, on the fuel of the loop that it replays.
unfoldable pub apply_draws :
    ℕ → ℕ → List EndTurnOutcome → EffectWorld → Applying (List EndTurnOutcome × EffectWorld)
unfolding expect_end_turn_outcome
apply_draws zero actor supplied w = err out_of_fuel
apply_draws (suc fuel) actor supplied w =
    if hand_is_full actor w then ok (supplied, w) else elim (top_card_id w actor hero_draw_pile) [
      | some id ↦ do
        rest ← expect_end_turn_outcome (card_moved id hero_draw_pile hero_hand) supplied
        v ← raise_as effect_transition_invalid (move_card id hero_draw_pile hero_hand w)
        apply_draws fuel actor rest v
      | none ↦
          if is_empty (cards_in_zone w actor hero_discard_pile)
          then ok (supplied, w)
          else elim supplied [
            | pile_shuffled owner zone order samples ∷ rest ↦ do
              ensure (owner == actor && zone == hero_draw_pile) invalid
              ensure (matches (cards_in_zone w actor hero_discard_pile) order samples) invalid
              v ← raise_as effect_transition_invalid (turn_pile_over actor order w)
              apply_draws fuel actor rest v
            | _ ↦ err invalid
          ]
    ]

unfoldable pub apply_end_turn_outcomes :
    ℕ → ℕ → List EndTurnOutcome → EffectWorld → Applying EffectWorld
apply_end_turn_outcomes actor limit supplied w = do
  shared ← fault_as effect_transition_invalid (advance_shared_table limit w)
  left ← expect_all shared.0 supplied
  played ← apply_discard_zone actor hero_play_area left shared.1
  held ← apply_discard_zone actor hero_hand played.0 played.1
  spent ← apply_reset actor attack held.0 held.1
  bought ← apply_reset actor influence spent.0 spent.1
  healed ← replay_hero_recovery bought.0 bought.1
  drawn ← apply_draws (draw_fuel healed.1) actor healed.0 healed.1
  ensure (is_empty drawn.0) invalid
  ok drawn.1
