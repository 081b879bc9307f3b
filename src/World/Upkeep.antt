-- ===== src/World/Upkeep.antt =====
-- Locations, villains and heroes between turns (crates/game-domain/src/effects.rs).
use rust_game_harry_potter.Base.{
  ℕ, zero, suc, String, Bool, false, ◌&&◌, ◌||◌, not, Option, none, some, List, [], ◌∷◌, ◌==◌,
  nat_eq, option_eq, if◌then◌else◌, ltb, leb, Result, ok, err, ◌>>=◌, ◌>>◌, ensure, ok_or, length,
  is_empty, any, find, modify_first, is_some_and, Fault, out_of_fuel, raise, first,
}
use rust_game_harry_potter.Effects.Zones.{
  EffectResource, resource_eq, control, health, EffectZone, active_location, active_villains,
  heroes, location_deck, location_discard, villain_deck,
}
use rust_game_harry_potter.Effects.Entities.{
  kind_eq, location, villain, EffectEntity, resource, resource_limit, with_resource,
}
use rust_game_harry_potter.Effects.Rules.{EffectGameOutcome, lost, won}
use rust_game_harry_potter.Effects.Outcomes.{EffectExecutionError, invalid_definition}
use rust_game_harry_potter.World.Store.{EffectWorld, entities_in, set_zone, entities, owned_by}
use rust_game_harry_potter.World.Moves.{Outcome, move_to_back}

unfoldable pub reset_hero_resource : ℕ → EffectResource → ℕ → EffectWorld → Outcome EffectWorld
reset_hero_resource owner r expected w = do
  es ← ok_or (w.zones heroes) invalid_definition
  hero ← ok_or (find (owned_by (some owner)) es) invalid_definition
  ensure (resource hero r == expected) invalid_definition
  ok (set_zone heroes (modify_first (owned_by (some owner)) (with_resource r 0) es) w)

-- The loop of `restore_drawing`: the heroes with drawing allowed again, and the positions of those
-- that it changed. A hero with no position is changed and not listed.
unfoldable pub unblock : List EffectEntity → List EffectEntity × List ℕ
unblock [] = ([], [])
unblock (e ∷ es) =
    let rest = unblock es in
    let listed : List ℕ = elim e.owner_position [ none ↦ rest.1 | some p ↦ p ∷ rest.1 ] in
    if e.drawing_blocked
    then (record e { drawing_blocked = false } ∷ rest.0, listed)
    else (e ∷ rest.0, rest.1)

abbrev pub restore_in : Option (List EffectEntity) → EffectWorld → EffectWorld × List ℕ
restore_in none w = (w, [])
restore_in (some es) w = (set_zone heroes (unblock es).0 w, (unblock es).1)

unfoldable pub restore_drawing : EffectWorld → EffectWorld × List ℕ
unfolding unblock set_zone
restore_drawing w = restore_in (w.zones heroes) w

-- The loop of `recover_stunned_heroes`.
unfoldable pub recover : List EffectEntity → Outcome (List EffectEntity × List (ℕ × ℕ))
recover [] = ok ([], [])
recover (e ∷ es) =
    if not (resource e health == 0) then (recover es >>= λ rest. ok (e ∷ rest.0, rest.1)) else do
      position ← ok_or e.owner_position invalid_definition
      amount ← ok_or (resource_limit e health) invalid_definition
      rest ← recover es
      ok (with_resource health amount e ∷ rest.0, (position, amount) ∷ rest.1)

unfoldable pub recover_stunned_heroes : EffectWorld → Outcome (EffectWorld × List (ℕ × ℕ))
unfolding recover set_zone
recover_stunned_heroes w = do
  es ← ok_or (w.zones heroes) invalid_definition
  done ← recover es
  ok (set_zone heroes done.0 w, done.1)

-- The next location, if the deck has one, comes into play.
unfoldable pub bring_next_location : EffectWorld → Outcome (EffectWorld × Option String)
bring_next_location w = elim (first (entities_in w location_deck)) [
  | none ↦ ok (w, none)
  | some next ↦ do
    v ← move_to_back next.id location_deck active_location none w
    ok (v, some next.id)
]

unfoldable pub advance_controlled_location :
    EffectWorld → Outcome (EffectWorld × Option (String × Option String))
unfolding bring_next_location
advance_controlled_location w =
    let active = entities_in w active_location in
    elim (first active) [
      | none ↦ ok (w, none)
      | some l ↦ if not (length active == 1) || not (l.kind == location) then ok (w, none) else do
        limit ← ok_or (resource_limit l control) invalid_definition
        if ltb (resource l control) limit then ok (w, none) else do
          v ← move_to_back l.id active_location location_discard none w
          next ← bring_next_location v
          ok (next.0, some (l.id, next.1))
    ]

abbrev pub is_controlled : EffectEntity → Bool
is_controlled l = is_some_and (resource_limit l control) (λ limit. leb limit (resource l control))

unfoldable pub structural_game_outcome : EffectWorld → Option EffectGameOutcome
unfolding entities entities_in
structural_game_outcome w =
    let has_villains = any (λ (p : EffectZone × EffectEntity). p.1.kind == villain) (entities w) in
    let villains_defeated =
      has_villains
      && is_empty (entities_in w active_villains)
      && is_empty (entities_in w villain_deck) in
    let has_locations =
      any (λ (p : EffectZone × EffectEntity). p.1.kind == location) (entities w) in
    let locations_exhausted =
      is_empty (entities_in w active_location) && is_empty (entities_in w location_deck) in
    let final_location_controlled =
      is_empty (entities_in w location_deck)
      && is_some_and (first (entities_in w active_location)) is_controlled in
    if has_locations && (locations_exhausted || final_location_controlled && villains_defeated)
    then some lost
    else if villains_defeated
    then some won
    else none

-- The `while` loop of `refill_villains`, on fuel.
unfoldable pub refill_loop :
    ℕ → ℕ → EffectWorld → Result (Fault EffectExecutionError) (List String × EffectWorld)
refill_loop zero limit w = err out_of_fuel
refill_loop (suc fuel) limit w =
    if not (ltb (length (entities_in w active_villains)) limit)
    then ok ([], w)
    else elim (first (entities_in w villain_deck)) [
      | none ↦ ok ([], w)
      | some next ↦ do
        v ← raise (move_to_back next.id villain_deck active_villains none w)
        rest ← refill_loop fuel limit v
        ok (next.id ∷ rest.0, rest.1)
    ]

-- One round for each villain of the deck, and one to see that it is empty.
unfoldable pub refill_villains :
    ℕ → EffectWorld → Result (Fault EffectExecutionError) (List String × EffectWorld)
unfolding refill_loop
refill_villains limit w = refill_loop (suc (length (entities_in w villain_deck))) limit w
