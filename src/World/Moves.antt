-- ===== src/World/Moves.antt =====
-- Moving, ordering and shuffling the cards of a table (crates/game-domain/src/effects.rs).
use rust_game_harry_potter.Base.{
  ℕ, suc, ◌-◌, String, ◌&&◌, not, Option, none, some, List, [], ◌∷◌, ◌==◌, nat_eq, string_eq,
  option_eq, if◌then◌else◌, ltb, Result, ok, ◌>>=◌, ◌>>◌, ensure, ok_or, length, extract, find,
  list_eq, get_elem?,
}
use rust_game_harry_potter.Effects.Zones.{EffectZone, zone_eq, hero_play_area, is_card_zone}
use rust_game_harry_potter.Effects.Entities.{EffectEntity}
use rust_game_harry_potter.Effects.Outcomes.{EffectExecutionError, invalid_definition, EffectRoller}
use rust_game_harry_potter.Shuffling.{fisher_yates}
use rust_game_harry_potter.Shuffling.Sorting.{sort}
use rust_game_harry_potter.Shuffling.Swaps.{swap}
use rust_game_harry_potter.World.Store.{
  EffectWorld, set_zone, push, entity, has_id, owned_by, cards_in_zone,
}
use rust_game_harry_potter.World.Validity.{entity_is_valid_in_zone, owner_transition_is_valid}

abbrev pub Outcome : Type 0 → Type 0
Outcome A = Result EffectExecutionError A

-- The entity as it arrives: with its new owner, and no copied ally outside the play area.
abbrev pub arriving : EffectZone → Option ℕ → EffectEntity → EffectEntity
arriving to owner e = record e {
  copied_ally_id = if to == hero_play_area then e.copied_ally_id else none;
  owner_position = owner;
}

-- On an error the source puts the entity back where it was: the table is left alone.
unfoldable pub move_to_back :
    String → EffectZone → EffectZone → Option ℕ → EffectWorld → Outcome EffectWorld
move_to_back id from to owner w = do
  source ← ok_or (w.zones from) invalid_definition
  taken ← ok_or (extract (has_id id) source) invalid_definition
  ensure (owner_transition_is_valid taken.0.kind from to taken.0.owner_position owner)
      invalid_definition
  ensure (entity_is_valid_in_zone (arriving to owner taken.0) to) invalid_definition
  ok (push to (arriving to owner taken.0) (set_zone from taken.1 w))

-- The owner of the card, if the card is where it is expected.
abbrev pub owner_in : EffectZone → Option (EffectZone × EffectEntity) → Option ℕ
owner_in z none = none
owner_in z (some (y, e)) = if y == z then e.owner_position else none

unfoldable pub move_card : String → EffectZone → EffectZone → EffectWorld → Outcome EffectWorld
unfolding move_to_back
move_card id from to w = do
  owner ← ok_or (owner_in from (entity w id)) invalid_definition
  move_to_back id from to (some owner) w

-- `map(find).collect::<Result<Vec<_>, _>>()`
unfoldable pub look_up : List EffectEntity → List String → Outcome (List EffectEntity)
look_up es [] = ok []
look_up es (id ∷ ids) = do
  e ← ok_or (find (has_id id) es) invalid_definition
  rest ← look_up es ids
  ok (e ∷ rest)

-- `for (index, entity) in owned_indices.zip(ordered) { entities[index] = entity }`
unfoldable pub overwrite_owned : ℕ → List EffectEntity → List EffectEntity → List EffectEntity
overwrite_owned owner [] es = es
overwrite_owned owner (o ∷ os) [] = []
overwrite_owned owner (o ∷ os) (e ∷ es) =
    let next = overwrite_owned owner os es in
    let same = overwrite_owned owner (o ∷ os) es in
    if owned_by (some owner) e then o ∷ next else e ∷ same

unfoldable pub set_card_order : ℕ → EffectZone → List String → EffectWorld → Outcome EffectWorld
unfolding look_up overwrite_owned
set_card_order owner z order w = do
  ensure (is_card_zone z && not (ltb 65535 (length order))) invalid_definition
  ensure (list_eq (sort (cards_in_zone w owner z)) (sort order)) invalid_definition
  es ← ok_or (w.zones z) invalid_definition
  ordered ← look_up es order
  ok (set_zone z (overwrite_owned owner ordered es) w)

-- The indices of the entities with the given owner, counted from `i`.
unfoldable pub owned_indices : Option ℕ → ℕ → List EffectEntity → List ℕ
owned_indices owner i [] = []
owned_indices owner i (e ∷ es) =
    let rest = owned_indices owner (suc i) es in if owned_by owner e then i ∷ rest else rest

-- The closure that `shuffle_pile` gives to `fisher_yates`.
abbrev pub swap_at : List ℕ → ℕ → ℕ → List EffectEntity → List EffectEntity
swap_at indices i j es = elim (get_elem? indices i) [
  | none ↦ es
  | some a ↦ elim (get_elem? indices j) [ none ↦ es | some b ↦ swap a b es ]
]

module _ {S : Type 0} (random : EffectRoller S) where
  unfoldable pub shuffle_pile :
      EffectZone → Option ℕ → S → EffectWorld → Outcome (ℕ × EffectWorld × S)
  unfolding owned_indices
  shuffle_pile z owner s w = do
    es ← ok_or (w.zones z) invalid_definition
    let indices = owned_indices owner 0 es
    run ← fisher_yates random (length indices) s (swap_at indices) es
    ok (length indices - 1, set_zone z run.1 w, run.2)
