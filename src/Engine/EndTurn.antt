-- ===== src/Engine/EndTurn.antt =====
-- The end of a turn: what the engine performs and records (`perform_end_turn` and
-- `advance_shared_table` of crates/game-domain/src/lib.rs).
pub mod Apply
pub mod Replay
pub mod Hand
pub mod Termination
use rust_game_harry_potter.Base.{
  ℕ, zero, suc, ◌+◌, ◌*◌, String, Bool, true, false, not, Option, none, some, List, [], ◌∷◌, ◌++◌,
  map, if◌then◌else◌, ltb, Result, ok, err, ◌>>=◌, ◌>>◌, ensure, ok_or, length, is_empty, Fault,
  raised, out_of_fuel, raise, raise_as, fault_as,
}
use rust_game_harry_potter.Effects.Zones.{
  EffectResource, attack, influence, EffectZone, hero_discard_pile, hero_draw_pile, hero_hand,
  hero_play_area,
}
use rust_game_harry_potter.Effects.Outcomes.{EffectExecutionError, EffectRoller, ShuffleSample}
use rust_game_harry_potter.Shuffling.{shuffle}
use rust_game_harry_potter.World.Store.{
  EffectWorld, entities_in, hero_resource, cards_in_zone, top_card_id,
}
use rust_game_harry_potter.World.Moves.{Outcome, move_card, set_card_order}
use rust_game_harry_potter.World.Upkeep.{
  reset_hero_resource, restore_drawing, recover_stunned_heroes, advance_controlled_location,
  refill_villains,
}
use rust_game_harry_potter.Engine.Types.{
  GameIntentError, effect_execution_failed, version_overflow, EndTurnOutcome, drawing_restored,
  location_advanced, villain_revealed, card_moved, pile_shuffled, resource_reset, hero_recovered,
}

abbrev pub Ending : Type 0 → Type 0
Ending A = Result (Fault GameIntentError) A

abbrev pub location_outcomes : Option (String × Option String) → List EndTurnOutcome
location_outcomes none = []
location_outcomes (some (id, next)) = location_advanced id next ∷ []

unfoldable pub advance_shared_table :
    ℕ → EffectWorld → Result (Fault EffectExecutionError) (List EndTurnOutcome × EffectWorld)
advance_shared_table limit w = do
  moved ← raise (advance_controlled_location w)
  refilled ← refill_villains limit moved.0
  ok (location_outcomes moved.1 ++ map villain_revealed refilled.0, refilled.1)

-- `for card_id in card_ids { move_card; push }`
unfoldable pub discard_all :
    EffectZone → List String → EffectWorld → Ending (List EndTurnOutcome × EffectWorld)
discard_all from [] w = ok ([], w)
discard_all from (id ∷ ids) w = do
  v ← raise_as effect_execution_failed (move_card id from hero_discard_pile w)
  rest ← discard_all from ids v
  ok (card_moved id from hero_discard_pile ∷ rest.0, rest.1)

unfoldable pub discard_zone :
    ℕ → EffectZone → EffectWorld → Ending (List EndTurnOutcome × EffectWorld)
unfolding discard_all
discard_zone actor from w = discard_all from (cards_in_zone w actor from) w

unfoldable pub reset_resource :
    ℕ → EffectResource → EffectWorld → Ending (List EndTurnOutcome × EffectWorld)
reset_resource actor r w = do
  before ← raise (ok_or (hero_resource w actor r) effect_execution_failed)
  v ← raise_as effect_execution_failed (reset_hero_resource actor r before w)
  ok (resource_reset r before ∷ [], v)

abbrev pub recovered : ℕ × ℕ → EndTurnOutcome
recovered (position, after) = hero_recovered position 0 after

unfoldable pub recover_heroes : EffectWorld → Ending (List EndTurnOutcome × EffectWorld)
recover_heroes w = do
  done ← raise_as effect_execution_failed (recover_stunned_heroes w)
  let restored = restore_drawing done.0
  ok (map recovered done.1 ++ map drawing_restored restored.1, restored.0)

-- `for card_id in &shuffled { move_card }`
unfoldable pub move_all : List String → EffectWorld → Outcome EffectWorld
move_all [] w = ok w
move_all (id ∷ ids) w = do v ← move_card id hero_discard_pile hero_draw_pile w; move_all ids v

-- The discard pile, in its new order, becomes the draw pile.
unfoldable pub turn_pile_over : ℕ → List String → EffectWorld → Outcome EffectWorld
unfolding move_all
turn_pile_over actor order w = do v ← move_all order w; set_card_order actor hero_draw_pile order v

abbrev pub hand_size : ℕ
hand_size = 5

abbrev pub u64_bound : ℕ
u64_bound = 18446744073709551616

abbrev pub hand_is_full : ℕ → EffectWorld → Bool
hand_is_full actor w = not (ltb (length (cards_in_zone w actor hero_hand)) hand_size)

-- Each card still in a draw pile costs a round, each in a discard pile one more for the shuffle
-- that turns it over.
abbrev pub draw_fuel : EffectWorld → ℕ
draw_fuel w =
    2 * length (entities_in w hero_draw_pile) + 3 * length (entities_in w hero_discard_pile) + 1

pub record Drawn (S : Type 0) : Type 0 where
  pub outcomes : List EndTurnOutcome
  pub samples : ℕ
  pub world : EffectWorld
  pub source : S

module _ {S : Type 0} (random : EffectRoller S) where
  -- The `while` loop that fills the hand to five cards, on fuel.
  unfoldable pub draw_loop : ℕ → ℕ → ℕ → S → EffectWorld → Ending (Drawn S)
  draw_loop zero actor consumed s w = err out_of_fuel
  draw_loop (suc fuel) actor consumed s w =
      if hand_is_full actor w
      then ok (record { outcomes = []; samples = consumed; world = w; source = s })
      else elim (top_card_id w actor hero_draw_pile) [
        | some id ↦ do
          v ← raise_as effect_execution_failed (move_card id hero_draw_pile hero_hand w)
          rest ← draw_loop fuel actor consumed s v
          ok (record rest { outcomes = card_moved id hero_draw_pile hero_hand ∷ rest.outcomes })
        | none ↦
            if is_empty (cards_in_zone w actor hero_discard_pile)
            then ok (record { outcomes = []; samples = consumed; world = w; source = s })
            else do
              run ← raise (shuffle random s (cards_in_zone w actor hero_discard_pile))
              let total = consumed + length run.0
              ensure (ltb total u64_bound) (raised version_overflow)
              v ← raise_as effect_execution_failed (turn_pile_over actor run.1 w)
              rest ← draw_loop fuel actor total run.2 v
              ok (record rest {
                outcomes = pile_shuffled actor hero_draw_pile run.1 run.0 ∷ rest.outcomes;
              })
      ]

  unfoldable pub perform_end_turn : ℕ → ℕ → S → EffectWorld → Ending (Drawn S)
  perform_end_turn actor limit s w = do
    shared ← fault_as effect_execution_failed (advance_shared_table limit w)
    played ← discard_zone actor hero_play_area shared.1
    held ← discard_zone actor hero_hand played.1
    spent ← reset_resource actor attack held.1
    bought ← reset_resource actor influence spent.1
    healed ← recover_heroes bought.1
    drawn ← draw_loop (draw_fuel healed.1) actor 0 s healed.1
    ok (record drawn {
      outcomes =
          shared.0
          ++ (played.0 ++ (held.0 ++ (spent.0 ++ (bought.0 ++ (healed.0 ++ drawn.outcomes)))));
    })
