-- ===== src/Engine/EndTurn/Termination.antt =====
-- The loops of the end of a turn end (`perform_end_turn` of crates/game-domain/src/lib.rs).
use rust_game_harry_potter.Base.{
  ℕ, zero, suc, ◌+◌, ◌*◌, ◌≤◌, ◌<◌, ◌≡◌, ◌≢◌, refl, sym, ap, ◌∙◌, inl, inr, String, false, ◌&&◌,
  not, List, [], ◌∷◌, ltb, err, ok_or, ok_or-eq-ok, length, is_empty, raise, raise_as,
  map_err-eq-ok, Ensures, yields, Ensures-ok, Ensures->>=, Ensures-ensure, Ensures-of, arith,
  Option-cases, out_of_fuel, fault_as, list_eq, length-perm, string_eq,
}
use rust_game_harry_potter.Base.Termination.{
  Terminates, finishes, Terminates-ne, Terminates-if, Terminates-ensure, Terminates->>=,
  Terminates-raise_as, Terminates-fault_as,
}
use rust_game_harry_potter.Effects.Zones.{
  EffectResource, attack, influence, EffectZone, hero_discard_pile, hero_draw_pile, hero_hand,
  hero_play_area, is_card_zone,
}
use rust_game_harry_potter.Effects.Entities.{EffectEntity}
use rust_game_harry_potter.Effects.Outcomes.{EffectRoller, invalid_definition}
use rust_game_harry_potter.Shuffling.{shuffle}
use rust_game_harry_potter.Shuffling.Sorting.{sort}
use rust_game_harry_potter.Shuffling.Replay.{shuffle-Shuffled}
use rust_game_harry_potter.World.Store.{
  EffectWorld, entities_in, cards_in_zone, top_card_id, hero_resource,
}
use rust_game_harry_potter.World.Moves.{move_card, look_up, overwrite_owned, set_card_order}
use rust_game_harry_potter.World.Census.{
  entities_in-set_zone, entities_in-set_zone_ne, entities_in_found,
}
use rust_game_harry_potter.World.Upkeep.{
  reset_hero_resource, recover_stunned_heroes, advance_controlled_location, refill_villains,
}
use rust_game_harry_potter.World.Lengths.{
  size, move_card-Moved, Moved-Shifted, refill_villains-Terminates,
}
use rust_game_harry_potter.Engine.Types.{effect_execution_failed}
use rust_game_harry_potter.Engine.EndTurn.{
  advance_shared_table, discard_all, discard_zone, reset_resource, recover_heroes, move_all,
  turn_pile_over, hand_is_full, draw_fuel, u64_bound, draw_loop, perform_end_turn,
}

length-overwrite_owned :
    (owner : ℕ) (os es : List EffectEntity) → length (overwrite_owned owner os es) ≡ length es
unfolding overwrite_owned
length-overwrite_owned owner [] es = refl
length-overwrite_owned owner (o ∷ os) [] = refl
length-overwrite_owned owner (o ∷ os) (e ∷ es) =
    ground (arith, length-overwrite_owned owner os es, length-overwrite_owned owner (o ∷ os) es)

record SameSizes (z : EffectZone) (w v : EffectWorld) : Type 0 where
  here : size z v ≡ size z w
  others : (y : EffectZone) → y ≢ z → entities_in v y ≡ entities_in w y

set_card_order-SameSizes :
    (owner : ℕ) (z : EffectZone) (order : List String) (w : EffectWorld)
    → Ensures (SameSizes z w) (set_card_order owner z order w)
unfolding set_card_order
set_card_order-SameSizes owner z order w =
    Ensures-ensure (is_card_zone z && not (ltb 65535 (length order))) _ _ λ _.
      Ensures-ensure (list_eq (sort (cards_in_zone w owner z)) (sort order)) _ _ λ _.
        Ensures->>= (ok_or (w.zones z) invalid_definition) _ λ es found.
          Ensures->>= (look_up es order) _ λ ordered _. yields (record {
            here =
                ap length (entities_in-set_zone z (overwrite_owned owner ordered es) w)
                ∙ (length-overwrite_owned owner ordered es
                    ∙ ap length (sym (entities_in_found w z (ok_or-eq-ok _ _ found))));
            others = λ y. entities_in-set_zone_ne z y (overwrite_owned owner ordered es) w;
          })

record TurnedOver (n : ℕ) (w v : EffectWorld) : Type 0 where
  taken : size hero_discard_pile w ≡ size hero_discard_pile v + n
  added : size hero_draw_pile v ≡ size hero_draw_pile w + n

move_all-TurnedOver :
    (ids : List String) (w : EffectWorld) → Ensures (TurnedOver (length ids) w) (move_all ids w)
unfolding move_all
move_all-TurnedOver [] w = yields (record { taken = omega arith; added = omega arith })
move_all-TurnedOver (id ∷ ids) w =
    Ensures->>= (move_card id hero_discard_pile hero_draw_pile w) _ λ v e.
      let s = Moved-Shifted (move_card-Moved id hero_discard_pile hero_draw_pile w e).1 (λ f. cc) in
      Ensures-of (move_all ids v) λ u f.
        let later = Ensures-ok (move_all-TurnedOver ids v) f in
        record {
          taken = omega (arith, s.leaves, later.taken);
          added = omega (arith, s.arrives, later.added);
        }

turn_pile_over-TurnedOver :
    (actor : ℕ) (order : List String) (w : EffectWorld)
    → Ensures (TurnedOver (length order) w) (turn_pile_over actor order w)
unfolding turn_pile_over
turn_pile_over-TurnedOver actor order w = Ensures->>= (move_all order w) _ λ v e.
    let moved = Ensures-ok (move_all-TurnedOver order w) e in
    Ensures-of (set_card_order actor hero_draw_pile order v) λ u f.
      let same = Ensures-ok (set_card_order-SameSizes actor hero_draw_pile order v) f in
      record {
        taken = omega (arith, moved.taken, ap length (same.others hero_discard_pile (λ g. cc)));
        added = omega (arith, moved.added, same.here);
      }

length_positive : (ids : List String) → is_empty ids ≡ false → 1 ≤ length ids
length_positive [] h = cc
length_positive (id ∷ ids) h = omega arith

module _ {S : Type 0} (random : EffectRoller S) where
  draw_loop-Terminates :
      (fuel actor consumed : ℕ) (s : S) (w : EffectWorld)
      → 2 * size hero_draw_pile w + 3 * size hero_discard_pile w < fuel
      → Terminates (draw_loop random fuel actor consumed s w)
  unfolding draw_loop
  draw_loop-Terminates zero actor consumed s w h = absurd (omega arith)
  draw_loop-Terminates (suc fuel) actor consumed s w h =
      Terminates-if (hand_is_full actor w) _ _ (λ _. finishes)
        λ _. elim (Option-cases (top_card_id w actor hero_draw_pile)) [
          | inr (id, e) ↦
              rw (e, draw_loop)
                (Terminates->>=
                  (raise_as effect_execution_failed (move_card id hero_draw_pile hero_hand w)) _
                  (Terminates-raise_as _ _)
                  λ v f.
                    let m =
                      (move_card-Moved id hero_draw_pile hero_hand w (map_err-eq-ok _ _ f)).1 in
                    let shifted = Moved-Shifted m (λ e. cc) in
                    let kept = shifted.others hero_discard_pile (λ e. cc) (λ e. cc) in
                    Terminates->>= (draw_loop random fuel actor consumed s v) _
                      (draw_loop-Terminates fuel actor consumed s v
                        (omega (arith, shifted.leaves, ap length kept)))
                      λ rest g. finishes)
          | inl e ↦
              rw (e, draw_loop)
                (Terminates-if (is_empty (cards_in_zone w actor hero_discard_pile)) _ _
                  (λ _. finishes)
                  λ more.
                    Terminates->>=
                      (raise (shuffle random s (cards_in_zone w actor hero_discard_pile))) _
                      (Terminates-raise_as _ _)
                      λ run f.
                        let perm = (shuffle-Shuffled random s _ (map_err-eq-ok _ _ f)).rearranged in
                        Terminates-ensure (ltb (consumed + length run.0) u64_bound) _ _ λ _.
                          Terminates->>=
                            (raise_as effect_execution_failed (turn_pile_over actor run.1 w)) _
                            (Terminates-raise_as _ _)
                            λ v g.
                              let turned =
                                Ensures-ok (turn_pile_over-TurnedOver actor run.1 w)
                                  (map_err-eq-ok _ _ g) in
                              Terminates->>=
                                (draw_loop random fuel actor (consumed + length run.0) run.2 v) _
                                (draw_loop-Terminates fuel actor (consumed + length run.0) run.2 v (
                                  omega (
                                    arith,
                                    turned.taken,
                                    turned.added,
                                    length-perm perm,
                                    length_positive _ more,
                                  )))
                                λ rest k. finishes)
        ]

discard_all-Terminates :
    (from : EffectZone) (ids : List String) (w : EffectWorld) → Terminates (discard_all from ids w)
unfolding discard_all
discard_all-Terminates from [] w = finishes
discard_all-Terminates from (id ∷ ids) w =
    Terminates->>= (raise_as effect_execution_failed (move_card id from hero_discard_pile w)) _
      (Terminates-raise_as _ _)
      λ v e.
        Terminates->>= (discard_all from ids v) _ (discard_all-Terminates from ids v)
          λ rest f. finishes

discard_zone-Terminates :
    (actor : ℕ) (from : EffectZone) (w : EffectWorld) → Terminates (discard_zone actor from w)
unfolding discard_zone
discard_zone-Terminates actor from w = discard_all-Terminates from (cards_in_zone w actor from) w

reset_resource-Terminates :
    (actor : ℕ) (r : EffectResource) (w : EffectWorld) → Terminates (reset_resource actor r w)
unfolding reset_resource
reset_resource-Terminates actor r w =
    Terminates->>= (raise (ok_or (hero_resource w actor r) effect_execution_failed)) _
      (Terminates-raise_as _ _)
      λ before e.
        Terminates->>= (raise_as effect_execution_failed (reset_hero_resource actor r before w)) _
          (Terminates-raise_as _ _) λ v f. finishes

recover_heroes-Terminates : (w : EffectWorld) → Terminates (recover_heroes w)
unfolding recover_heroes
recover_heroes-Terminates w =
    Terminates->>= (raise_as effect_execution_failed (recover_stunned_heroes w)) _
      (Terminates-raise_as _ _) λ done e. finishes

advance_shared_table-Terminates :
    (limit : ℕ) (w : EffectWorld) → Terminates (advance_shared_table limit w)
unfolding advance_shared_table
advance_shared_table-Terminates limit w =
    Terminates->>= (raise (advance_controlled_location w)) _ (Terminates-raise_as _ _) λ moved e.
      Terminates->>= (refill_villains limit moved.0) _ (refill_villains-Terminates limit moved.0)
        λ refilled f. finishes

module _ {S : Type 0} (random : EffectRoller S) (actor limit : ℕ) (s : S) (w : EffectWorld) where
  perform_end_turn-Terminates : Terminates (perform_end_turn random actor limit s w)
  unfolding perform_end_turn
  perform_end_turn-Terminates =
      Terminates->>= (fault_as effect_execution_failed (advance_shared_table limit w)) _
        (Terminates-fault_as effect_execution_failed (advance_shared_table-Terminates limit w))
        λ shared e0.
          Terminates->>= (discard_zone actor hero_play_area shared.1) _
            (discard_zone-Terminates actor hero_play_area shared.1)
            λ played e1.
              Terminates->>= (discard_zone actor hero_hand played.1) _
                (discard_zone-Terminates actor hero_hand played.1)
                λ held e2.
                  Terminates->>= (reset_resource actor attack held.1) _
                    (reset_resource-Terminates actor attack held.1)
                    λ spent e3.
                      Terminates->>= (reset_resource actor influence spent.1) _
                        (reset_resource-Terminates actor influence spent.1)
                        λ bought e4.
                          Terminates->>= (recover_heroes bought.1) _
                            (recover_heroes-Terminates bought.1)
                            λ healed e5.
                              Terminates->>=
                                (draw_loop random (draw_fuel healed.1) actor 0 s healed.1) _
                                (draw_loop-Terminates random (draw_fuel healed.1) actor 0 s healed.1
                                  (omega arith))
                                λ drawn e6. finishes

  -- The end of a turn always ends: it returns the new table or an error of the source, never the
  -- model's lack of fuel, for every table, random source, hero and limit.
  pub perform_end_turn_total : perform_end_turn random actor limit s w ≢ err out_of_fuel
  perform_end_turn_total = Terminates-ne perform_end_turn-Terminates
