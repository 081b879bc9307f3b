-- ===== src/Engine/EndTurn/Hand.antt =====
-- What the hero holds after the end of a turn (`perform_end_turn` of
-- crates/game-domain/src/lib.rs).
pub mod Cards
pub mod Kept
use rust_game_harry_potter.Base.{
  is_empty-eq, ℕ, zero, suc, ◌+◌, ◌≤◌, ◌<◌, ◌≡◌, refl, ap, ◌∙◌, inl, inr, ◌⊎◌, String, true, none,
  some, List, [], ◌∷◌, map, keep, ok, length, is_empty, raise, raise_as, map_err-eq-ok, Ensures,
  yields, fails, Ensures-ok, Ensures->>=, Ensures-ensure, Ensures-if, ltb, Option-cases, fault_as,
  fault_as-eq-ok, arith,
}
use rust_game_harry_potter.Engine.EndTurn.Hand.Cards.{
  DistinctHands, top_card_id-none, draw-hand, discard_zone-Emptied,
}
use rust_game_harry_potter.Engine.EndTurn.Hand.Kept.{
  SameHands, discard_zone-SameHands, turn_pile_over-SameHands, advance_shared_table-SameHands,
  reset_resource-SameHands, recover_heroes-SameHands,
}
use rust_game_harry_potter.Effects.Zones.{
  attack, influence, hero_discard_pile, hero_draw_pile, hero_hand, hero_play_area,
}
use rust_game_harry_potter.Effects.Outcomes.{EffectRoller}
use rust_game_harry_potter.Shuffling.{shuffle}
use rust_game_harry_potter.World.Store.{EffectWorld, cards_in_zone, top_card_id, owned_by, id_of}
use rust_game_harry_potter.World.Moves.{move_card}
use rust_game_harry_potter.Engine.Types.{effect_execution_failed}
use rust_game_harry_potter.Engine.EndTurn.{
  advance_shared_table, discard_zone, reset_resource, recover_heroes, turn_pile_over, hand_is_full,
  draw_fuel, u64_bound, Drawn, draw_loop, perform_end_turn,
}

-- The hero holds five cards, or fewer with neither a card to draw nor one to shuffle.
abbrev pub Replenished : ℕ → EffectWorld → Type 0
Replenished actor w =
    (length (cards_in_zone w actor hero_hand) ≡ 5)
    ⊎ ((length (cards_in_zone w actor hero_hand) < 5)
        × (cards_in_zone w actor hero_draw_pile ≡ [])
        × (cards_in_zone w actor hero_discard_pile ≡ []))

SameHands-cards :
    (actor : ℕ) (w v : EffectWorld)
    → SameHands w v
    → cards_in_zone v actor hero_hand ≡ cards_in_zone w actor hero_hand
unfolding cards_in_zone
SameHands-cards actor w v h = ap (λ es. map id_of (keep (owned_by (some actor)) es)) h

SameHands-distinct : (w v : EffectWorld) → SameHands w v → DistinctHands w → DistinctHands v
SameHands-distinct w v h one x = rw h (one x)

module _ {S : Type 0} (random : EffectRoller S) where
  draw_loop-Replenished :
      (fuel actor consumed : ℕ) (s : S) (w : EffectWorld)
      → length (cards_in_zone w actor hero_hand) ≤ 5
      → Ensures
          (λ (d : Drawn S). Replenished actor d.world)
          (draw_loop random fuel actor consumed s w)
  unfolding draw_loop
  draw_loop-Replenished zero actor consumed s w few = fails
  draw_loop-Replenished (suc fuel) actor consumed s w few =
      Ensures-if (hand_is_full actor w) _ _ (λ full. yields (inl (ground arith)))
        λ short. elim (Option-cases (top_card_id w actor hero_draw_pile)) [
          | inr (id, e) ↦
              rw (e, draw_loop)
                (Ensures->>=
                  (raise_as effect_execution_failed (move_card id hero_draw_pile hero_hand w)) _
                  λ v f.
                    let more = draw-hand id actor w (map_err-eq-ok _ _ f) in
                    let still : length (cards_in_zone v actor hero_hand) ≤ 5 =
                      ground (arith, more, short) in
                    Ensures->>= (draw_loop random fuel actor consumed s v) _ λ rest g.
                      yields (Ensures-ok (draw_loop-Replenished fuel actor consumed s v still) g))
          | inl e ↦
              rw (e, draw_loop)
                (Ensures-if (is_empty (cards_in_zone w actor hero_discard_pile)) _ _
                  (λ spent. yields (
                    inr (
                      ground arith,
                      top_card_id-none w actor hero_draw_pile e,
                      is_empty-eq (cards_in_zone w actor hero_discard_pile) spent,
                    )))
                  λ _.
                    Ensures->>= (raise (shuffle random s (cards_in_zone w actor hero_discard_pile)))
                      _
                      λ run f. Ensures-ensure (ltb (consumed + length run.0) u64_bound) _ _ λ _.
                        Ensures->>=
                          (raise_as effect_execution_failed (turn_pile_over actor run.1 w)) _
                          λ v g.
                            let kept =
                              Ensures-ok (turn_pile_over-SameHands actor run.1 w)
                                (map_err-eq-ok _ _ g) in
                            let still : length (cards_in_zone v actor hero_hand) ≤ 5 =
                              rw (SameHands-cards actor w v kept) few in
                            Ensures->>=
                              (draw_loop random fuel actor (consumed + length run.0) run.2 v) _
                              λ rest k. yields (
                                Ensures-ok
                                  (draw_loop-Replenished fuel actor (consumed + length run.0) run.2
                                    v still)
                                  k))
        ]

  perform_end_turn-Ensures :
      (actor limit : ℕ) (s : S) (w : EffectWorld)
      → DistinctHands w
      → Ensures
          (λ (d : Drawn S). Replenished actor d.world)
          (perform_end_turn random actor limit s w)
  unfolding perform_end_turn
  perform_end_turn-Ensures actor limit s w one =
      Ensures->>= (fault_as effect_execution_failed (advance_shared_table limit w)) _ λ shared e0.
        Ensures->>= (discard_zone actor hero_play_area shared.1) _ λ played e1.
          Ensures->>= (discard_zone actor hero_hand played.1) _ λ held e2.
            Ensures->>= (reset_resource actor attack held.1) _ λ spent e3.
              Ensures->>= (reset_resource actor influence spent.1) _ λ bought e4.
                Ensures->>= (recover_heroes bought.1) _ λ healed e5.
                  let before =
                    Ensures-ok (discard_zone-SameHands actor shared.1) e1
                    ∙ Ensures-ok (advance_shared_table-SameHands limit w) (fault_as-eq-ok _ _ e0) in
                  let after =
                    Ensures-ok (recover_heroes-SameHands bought.1) e5
                    ∙ (Ensures-ok (reset_resource-SameHands actor influence spent.1) e4
                        ∙ Ensures-ok (reset_resource-SameHands actor attack held.1) e3) in
                  let emptied =
                    Ensures-ok
                      (discard_zone-Emptied actor played.1
                        (SameHands-distinct w played.1 before one))
                      e2 in
                  let none_held = SameHands-cards actor held.1 healed.1 after ∙ emptied in
                  let few : length (cards_in_zone healed.1 actor hero_hand) ≤ 5 =
                    omega (arith, ap length none_held) in
                  Ensures->>= (draw_loop random (draw_fuel healed.1) actor 0 s healed.1) _
                    λ drawn e6. yields (
                      Ensures-ok (draw_loop-Replenished (draw_fuel healed.1) actor 0 s healed.1 few)
                        e6)

  -- After a turn that ended, the hero who played it holds exactly five cards, or fewer and has no card
  -- in the draw pile and none in the discard pile. No two cards in the hands share an id before.
  pub perform_end_turn-Replenished :
      (actor limit : ℕ) (s : S) (w : EffectWorld) {d : Drawn S}
      → DistinctHands w
      → perform_end_turn random actor limit s w ≡ ok d
      → Replenished actor d.world
  perform_end_turn-Replenished actor limit s w one =
      Ensures-ok (perform_end_turn-Ensures actor limit s w one)
