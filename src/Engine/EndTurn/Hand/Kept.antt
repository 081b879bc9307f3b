-- ===== src/Engine/EndTurn/Hand/Kept.antt =====
-- The steps of the end of a turn that leave the hands alone (`perform_end_turn` and
-- `advance_shared_table` of crates/game-domain/src/lib.rs).
use rust_game_harry_potter.Base.{
  ℕ, zero, suc, ◌≡◌, ◌≢◌, refl, ◌∙◌, inl, inr, String, not, ◌&&◌, ◌==◌, Option, none, some, List,
  [], ◌∷◌, nat_eq, string_eq, option_eq, list_eq, ltb, ok, ok_or, first, find, ◌||◌, length, raise,
  raise_as, map_err-eq-ok, Ensures, yields, fails, Ensures-ok, Ensures->>=, Ensures-ensure,
  Ensures-if, Ensures-weaken, Option-cases,
}
use rust_game_harry_potter.Effects.Zones.{
  EffectResource, control, EffectZone, active_location, active_villains, location_deck,
  location_discard, villain_deck, heroes, hero_discard_pile, hero_draw_pile, hero_hand,
  hero_play_area, is_card_zone,
}
use rust_game_harry_potter.Effects.Entities.{kind_eq, location, resource, resource_limit}
use rust_game_harry_potter.Effects.Outcomes.{invalid_definition}
use rust_game_harry_potter.Shuffling.Sorting.{sort}
use rust_game_harry_potter.World.Store.{
  EffectWorld, entities_in, cards_in_zone, owned_by, hero_resource,
}
use rust_game_harry_potter.World.Moves.{
  move_card, move_to_back, look_up, overwrite_owned, set_card_order,
}
use rust_game_harry_potter.World.Census.{move_to_back-Moved, entities_in-set_zone_ne}
use rust_game_harry_potter.World.Lengths.{move_card-Moved, Moved-others}
use rust_game_harry_potter.Engine.EndTurn.{
  discard_all, move_all, turn_pile_over, discard_zone, advance_shared_table, reset_resource,
  recover_heroes,
}
use rust_game_harry_potter.World.Upkeep.{
  reset_hero_resource, unblock, restore_drawing, recover, recover_stunned_heroes,
  advance_controlled_location, bring_next_location, refill_loop, refill_villains,
}
use rust_game_harry_potter.Engine.Types.{EndTurnOutcome, effect_execution_failed}

-- The hands are the same.
abbrev pub SameHands : EffectWorld → EffectWorld → Type 0
SameHands w v = entities_in v hero_hand ≡ entities_in w hero_hand

move_to_back-SameHands :
    (id : String) (from to : EffectZone) (owner : Option ℕ) (w : EffectWorld) {v : EffectWorld}
    → hero_hand ≢ from
    → hero_hand ≢ to
    → from ≢ to
    → move_to_back id from to owner w ≡ ok v
    → SameHands w v
move_to_back-SameHands id from to owner w a b apart h =
    Moved-others (move_to_back-Moved id from to owner w h) apart hero_hand a b

move_card-SameHands :
    (id : String) (from to : EffectZone) (w : EffectWorld) {v : EffectWorld}
    → hero_hand ≢ from
    → hero_hand ≢ to
    → from ≢ to
    → move_card id from to w ≡ ok v
    → SameHands w v
move_card-SameHands id from to w a b apart h =
    Moved-others (move_card-Moved id from to w h).1 apart hero_hand a b

discard_all-SameHands :
    (ids : List String) (w : EffectWorld)
    → Ensures
        (λ (r : List EndTurnOutcome × EffectWorld). SameHands w r.1)
        (discard_all hero_play_area ids w)
unfolding discard_all
discard_all-SameHands [] w = yields refl
discard_all-SameHands (id ∷ ids) w =
    Ensures->>= (raise_as effect_execution_failed (move_card id hero_play_area hero_discard_pile w))
      _
      λ v e.
        let first_kept =
          move_card-SameHands id hero_play_area hero_discard_pile w (λ f. cc) (λ f. cc) (λ f. cc)
            (map_err-eq-ok _ _ e) in
        Ensures->>= (discard_all hero_play_area ids v) _
          λ rest f. yields (Ensures-ok (discard_all-SameHands ids v) f ∙ first_kept)

pub discard_zone-SameHands :
    (actor : ℕ) (w : EffectWorld)
    → Ensures
        (λ (r : List EndTurnOutcome × EffectWorld). SameHands w r.1)
        (discard_zone actor hero_play_area w)
unfolding discard_zone
discard_zone-SameHands actor w = discard_all-SameHands (cards_in_zone w actor hero_play_area) w

move_all-SameHands : (ids : List String) (w : EffectWorld) → Ensures (SameHands w) (move_all ids w)
unfolding move_all
move_all-SameHands [] w = yields refl
move_all-SameHands (id ∷ ids) w =
    Ensures->>= (move_card id hero_discard_pile hero_draw_pile w) _ λ v e.
      let first_kept =
        move_card-SameHands id hero_discard_pile hero_draw_pile w (λ f. cc) (λ f. cc) (λ f. cc) e in
      Ensures-weaken (move_all-SameHands ids v) λ u later. later ∙ first_kept

set_card_order-SameHands :
    (owner : ℕ) (order : List String) (w : EffectWorld)
    → Ensures (SameHands w) (set_card_order owner hero_draw_pile order w)
unfolding set_card_order
set_card_order-SameHands owner order w =
    Ensures-ensure (is_card_zone hero_draw_pile && not (ltb 65535 (length order))) _ _ λ _.
      Ensures-ensure (list_eq (sort (cards_in_zone w owner hero_draw_pile)) (sort order)) _ _ λ _.
        Ensures->>= (ok_or (w.zones hero_draw_pile) invalid_definition) _ λ es found.
          Ensures->>= (look_up es order) _ λ ordered _. yields (
            entities_in-set_zone_ne hero_draw_pile hero_hand (overwrite_owned owner ordered es) w
              (λ e. cc))

pub turn_pile_over-SameHands :
    (actor : ℕ) (order : List String) (w : EffectWorld)
    → Ensures (SameHands w) (turn_pile_over actor order w)
unfolding turn_pile_over
turn_pile_over-SameHands actor order w = Ensures->>= (move_all order w) _ λ v e.
    Ensures-weaken (set_card_order-SameHands actor order v)
      λ u later. later ∙ Ensures-ok (move_all-SameHands order w) e

refill_loop-SameHands :
    (fuel limit : ℕ) (w : EffectWorld)
    → Ensures (λ (r : List String × EffectWorld). SameHands w r.1) (refill_loop fuel limit w)
unfolding refill_loop
refill_loop-SameHands zero limit w = fails
refill_loop-SameHands (suc fuel) limit w =
    Ensures-if (not (ltb (length (entities_in w active_villains)) limit)) _ _ (λ _. yields refl)
      λ _. elim (Option-cases (first (entities_in w villain_deck))) [
        | inl e ↦ rw (e, refill_loop) (yields refl)
        | inr (next, e) ↦
            rw (e, refill_loop)
              (Ensures->>= (raise (move_to_back next.id villain_deck active_villains none w)) _
                λ v f.
                  let moved =
                    move_to_back-SameHands next.id villain_deck active_villains none w (λ g. cc)
                      (λ g. cc) (λ g. cc) (map_err-eq-ok _ _ f) in
                  Ensures->>= (refill_loop fuel limit v) _
                    λ rest g. yields (Ensures-ok (refill_loop-SameHands fuel limit v) g ∙ moved))
      ]

bring_next_location-SameHands :
    (w : EffectWorld)
    → Ensures (λ (r : EffectWorld × Option String). SameHands w r.0) (bring_next_location w)
unfolding bring_next_location
bring_next_location-SameHands w = elim (Option-cases (first (entities_in w location_deck))) [
  | inl e ↦ rw (e, bring_next_location) (yields refl)
  | inr (next, e) ↦
      rw (e, bring_next_location)
        (Ensures->>= (move_to_back next.id location_deck active_location none w) _ λ v f. yields (
          move_to_back-SameHands next.id location_deck active_location none w (λ g. cc) (λ g. cc)
            (λ g. cc) f))
]

advance_controlled_location-SameHands :
    (w : EffectWorld)
    → Ensures
        (λ (r : EffectWorld × Option (String × Option String)). SameHands w r.0)
        (advance_controlled_location w)
unfolding advance_controlled_location
advance_controlled_location-SameHands w =
    elim (Option-cases (first (entities_in w active_location))) [
      | inl e ↦ rw (e, advance_controlled_location) (yields refl)
      | inr (l, e) ↦
          rw (e, advance_controlled_location)
            (Ensures-if
              (not (length (entities_in w active_location) == 1) || not (l.kind == location)) _ _
              (λ _. yields refl)
              λ _. Ensures->>= (ok_or (resource_limit l control) invalid_definition) _ λ limit f.
                Ensures-if (ltb (resource l control) limit) _ _ (λ _. yields refl)
                  λ _.
                    Ensures->>= (move_to_back l.id active_location location_discard none w) _ λ v g.
                      let moved =
                        move_to_back-SameHands l.id active_location location_discard none w
                          (λ h. cc) (λ h. cc) (λ h. cc) g in
                      Ensures->>= (bring_next_location v) _
                        λ next h. yields (Ensures-ok (bring_next_location-SameHands v) h ∙ moved))
    ]

pub advance_shared_table-SameHands :
    (limit : ℕ) (w : EffectWorld)
    → Ensures
        (λ (r : List EndTurnOutcome × EffectWorld). SameHands w r.1)
        (advance_shared_table limit w)
unfolding advance_shared_table refill_villains
advance_shared_table-SameHands limit w =
    Ensures->>= (raise (advance_controlled_location w)) _ λ moved e.
      Ensures->>= (refill_villains limit moved.0) _ λ refilled f. yields (
        Ensures-ok
          (refill_loop-SameHands (suc (length (entities_in moved.0 villain_deck))) limit moved.0) f
        ∙ Ensures-ok (advance_controlled_location-SameHands w) (map_err-eq-ok _ _ e))

reset_hero_resource-SameHands :
    (actor : ℕ) (r : EffectResource) (before : ℕ) (w : EffectWorld)
    → Ensures (SameHands w) (reset_hero_resource actor r before w)
unfolding reset_hero_resource
reset_hero_resource-SameHands actor r before w =
    Ensures->>= (ok_or (w.zones heroes) invalid_definition) _ λ es e.
      Ensures->>= (ok_or (find (owned_by (some actor)) es) invalid_definition) _ λ hero f.
        Ensures-ensure (resource hero r == before) _ _
          λ _. yields (entities_in-set_zone_ne heroes hero_hand _ w (λ g. cc))

pub reset_resource-SameHands :
    (actor : ℕ) (r : EffectResource) (w : EffectWorld)
    → Ensures
        (λ (d : List EndTurnOutcome × EffectWorld). SameHands w d.1)
        (reset_resource actor r w)
unfolding reset_resource
reset_resource-SameHands actor r w =
    Ensures->>= (raise (ok_or (hero_resource w actor r) effect_execution_failed)) _ λ before e.
      Ensures->>= (raise_as effect_execution_failed (reset_hero_resource actor r before w)) _ λ v f.
        yields (Ensures-ok (reset_hero_resource-SameHands actor r before w) (map_err-eq-ok _ _ f))

recover_stunned_heroes-SameHands :
    (w : EffectWorld)
    → Ensures (λ (r : EffectWorld × List (ℕ × ℕ)). SameHands w r.0) (recover_stunned_heroes w)
unfolding recover_stunned_heroes
recover_stunned_heroes-SameHands w =
    Ensures->>= (ok_or (w.zones heroes) invalid_definition) _ λ es e.
      Ensures->>= (recover es) _
        λ done f. yields (entities_in-set_zone_ne heroes hero_hand done.0 w (λ g. cc))

restore_drawing-SameHands : (w : EffectWorld) → SameHands w (restore_drawing w).0
unfolding restore_drawing
restore_drawing-SameHands w = elim (Option-cases (w.zones heroes)) [
  | inl e ↦ rw e refl
  | inr (es, e) ↦ rw e (entities_in-set_zone_ne heroes hero_hand (unblock es).0 w (λ g. cc))
]

pub recover_heroes-SameHands :
    (w : EffectWorld)
    → Ensures (λ (d : List EndTurnOutcome × EffectWorld). SameHands w d.1) (recover_heroes w)
unfolding recover_heroes recover_stunned_heroes
recover_heroes-SameHands w =
    Ensures->>= (raise_as effect_execution_failed (recover_stunned_heroes w)) _ λ healed e.
      let kept = Ensures-ok (recover_stunned_heroes-SameHands w) (map_err-eq-ok _ _ e) in
      yields (restore_drawing-SameHands healed.0 ∙ kept)
