-- ===== src/Engine/EndTurn/Replay.antt =====
-- The end of a turn that was recorded replays to the same table
-- (`perform_end_turn` against `apply_end_turn_outcomes` of crates/game-domain/src/lib.rs).
use mathlib.Core.List.{append-nil, append_assoc}
use rust_game_harry_potter.Base.{
  ℕ, zero, suc, ◌+◌, ◌≡◌, refl, ◌∙◌, String, true, false, none, some, List, [], ◌∷◌, ◌++◌, map,
  nat_eq, ltb, ok, ◌>>=◌, ◌>>◌, ensure, ok_or, length, is_empty, raised, raise, raise_as, fault_as,
  map_err-eq-ok, fault_as-eq-ok, ok_or-eq-ok, Ensures, yields, fails, Ensures-ok, Ensures->>=,
  Ensures-ensure, Ensures-if, arith, Bool-cases, Option-cases, inl, inr,
}
use rust_game_harry_potter.Effects.Zones.{
  EffectResource, attack, influence, EffectZone, zone_eq, hero_discard_pile, hero_draw_pile,
  hero_hand, hero_play_area,
}
use rust_game_harry_potter.Effects.Outcomes.{EffectRoller, ShuffleSample}
use rust_game_harry_potter.World.Store.{EffectWorld, hero_resource, cards_in_zone, top_card_id}
use rust_game_harry_potter.World.Moves.{move_card}
use rust_game_harry_potter.World.Upkeep.{
  reset_hero_resource, restore_drawing, recover_stunned_heroes,
}
use rust_game_harry_potter.Shuffling.{shuffle, matches}
use rust_game_harry_potter.Shuffling.Replay.{matches-shuffle}
use rust_game_harry_potter.Engine.Types.{
  effect_execution_failed, version_overflow, EndTurnOutcome, end_turn_outcome_eq, drawing_restored,
  card_moved, pile_shuffled, resource_reset,
}
use rust_game_harry_potter.Engine.EndTurn.{
  advance_shared_table, discard_all, discard_zone, reset_resource, recovered, recover_heroes,
  turn_pile_over, hand_is_full, draw_fuel, u64_bound, Drawn, draw_loop, perform_end_turn,
}
use rust_game_harry_potter.Engine.EndTurn.Apply.{
  Applying, expect_end_turn_outcome, expect_all, apply_discards, apply_discard_zone, apply_reset,
  replay_hero_recovery, apply_draws, apply_end_turn_outcomes,
}

expect_head :
    (o : EndTurnOutcome) (rest : List EndTurnOutcome)
    → expect_end_turn_outcome o (o ∷ rest) ≡ ok rest
unfolding expect_end_turn_outcome
expect_head o rest = ground arith

expect_all-append : (os rest : List EndTurnOutcome) → expect_all os (os ++ rest) ≡ ok rest
unfolding expect_all
expect_all-append [] rest = refl
expect_all-append (o ∷ os) rest = rw (expect_head o (os ++ rest)) (expect_all-append os rest)

-- A stage is accepted: given what it recorded, and more behind it, the replay of the stage reaches
-- the same table and leaves the rest.
abbrev Accepted :
    (List EndTurnOutcome → EffectWorld → Applying (List EndTurnOutcome × EffectWorld))
    → EffectWorld
    → List EndTurnOutcome × EffectWorld
    → Type 0
Accepted replay w r = (rest : List EndTurnOutcome) → replay (r.0 ++ rest) w ≡ ok (rest, r.1)

discard_all-Accepted :
    (from : EffectZone) (ids : List String) (w : EffectWorld)
    → Ensures (Accepted (apply_discards from ids) w) (discard_all from ids w)
unfolding discard_all apply_discards
discard_all-Accepted from [] w = yields λ rest. refl
discard_all-Accepted from (id ∷ ids) w =
    Ensures->>= (raise_as effect_execution_failed (move_card id from hero_discard_pile w)) _ λ v e.
      let moved = map_err-eq-ok _ (move_card id from hero_discard_pile w) e in
      Ensures->>= (discard_all from ids v) _ λ r f.
        let later = Ensures-ok (discard_all-Accepted from ids v) f in
        yields λ rest.
          rw (expect_head (card_moved id from hero_discard_pile) (r.0 ++ rest), moved) (later rest)

discard_zone-Accepted :
    (actor : ℕ) (from : EffectZone) (w : EffectWorld)
    → Ensures (Accepted (apply_discard_zone actor from) w) (discard_zone actor from w)
unfolding discard_zone apply_discard_zone
discard_zone-Accepted actor from w = discard_all-Accepted from (cards_in_zone w actor from) w

reset_resource-Accepted :
    (actor : ℕ) (r : EffectResource) (w : EffectWorld)
    → Ensures (Accepted (apply_reset actor r) w) (reset_resource actor r w)
unfolding reset_resource apply_reset
reset_resource-Accepted actor r w =
    Ensures->>= (raise (ok_or (hero_resource w actor r) effect_execution_failed)) _ λ before e.
      let had = ok_or-eq-ok _ _ (map_err-eq-ok _ _ e) in
      Ensures->>= (raise_as effect_execution_failed (reset_hero_resource actor r before w)) _ λ v f.
        let done = map_err-eq-ok _ (reset_hero_resource actor r before w) f in
        yields λ rest. rw (had, expect_head (resource_reset r before) rest, done)

recover_heroes-Accepted :
    (w : EffectWorld) → Ensures (Accepted replay_hero_recovery w) (recover_heroes w)
unfolding recover_heroes replay_hero_recovery
recover_heroes-Accepted w =
    Ensures->>= (raise_as effect_execution_failed (recover_stunned_heroes w)) _ λ done e.
      let ran = map_err-eq-ok _ (recover_stunned_heroes w) e in
      let first = map recovered done.1 in
      let second = map drawing_restored (restore_drawing done.0).1 in
      yields λ rest. rw (
        ran,
        append_assoc first second rest,
        expect_all-append first (second ++ rest),
        expect_all-append second rest,
      )

abbrev DrawsAccepted : {S : Type 0} → ℕ → ℕ → EffectWorld → Drawn S → Type 0
DrawsAccepted fuel actor w d =
    (rest : List EndTurnOutcome)
    → apply_draws fuel actor (d.outcomes ++ rest) w ≡ ok (rest, d.world)

-- The branches of a round of the replay.
module _ (fuel actor : ℕ) (rest : List EndTurnOutcome) (w : EffectWorld) where
  replay_full : hand_is_full actor w ≡ true → apply_draws (suc fuel) actor rest w ≡ ok (rest, w)
  unfolding apply_draws
  replay_full full = rw full refl

  replay_exhausted :
      hand_is_full actor w ≡ false
      → top_card_id w actor hero_draw_pile ≡ none
      → is_empty (cards_in_zone w actor hero_discard_pile) ≡ true
      → apply_draws (suc fuel) actor rest w ≡ ok (rest, w)
  unfolding apply_draws
  replay_exhausted more bare spent = rw (more, bare, apply_draws, spent) refl

  replay_draw :
      {id : String} {v : EffectWorld}
      → hand_is_full actor w ≡ false
      → top_card_id w actor hero_draw_pile ≡ some id
      → move_card id hero_draw_pile hero_hand w ≡ ok v
      → apply_draws (suc fuel) actor (card_moved id hero_draw_pile hero_hand ∷ rest) w
        ≡ apply_draws fuel actor rest v
  unfolding apply_draws
  replay_draw {id} more top ran =
      rw (more, top, apply_draws, expect_head (card_moved id hero_draw_pile hero_hand) rest, ran)
        refl

  replay_shuffle :
      (order : List String) (samples : List ShuffleSample) {v : EffectWorld}
      → hand_is_full actor w ≡ false
      → top_card_id w actor hero_draw_pile ≡ none
      → is_empty (cards_in_zone w actor hero_discard_pile) ≡ false
      → matches (cards_in_zone w actor hero_discard_pile) order samples ≡ true
      → turn_pile_over actor order w ≡ ok v
      → apply_draws (suc fuel) actor (pile_shuffled actor hero_draw_pile order samples ∷ rest) w
        ≡ apply_draws fuel actor rest v
  unfolding apply_draws
  replay_shuffle order samples more bare left same ran =
      rw (more, bare, apply_draws, left, same) (ground (arith, ran))

module _ {S : Type 0} (random : EffectRoller S) where
  -- A round that draws the top card.
  draw_Accepted :
      (fuel actor consumed : ℕ) (s : S) (w : EffectWorld) {id : String}
      → hand_is_full actor w ≡ false
      → top_card_id w actor hero_draw_pile ≡ some id
      → ((v : EffectWorld)
          → Ensures (DrawsAccepted fuel actor v) (draw_loop random fuel actor consumed s v))
      → Ensures (DrawsAccepted (suc fuel) actor w) (
          raise_as effect_execution_failed (move_card id hero_draw_pile hero_hand w) >>= λ v.
          draw_loop random fuel actor consumed s v >>= λ rest.
          ok (record rest { outcomes = card_moved id hero_draw_pile hero_hand ∷ rest.outcomes }))
  draw_Accepted fuel actor consumed s w {id} more top ih =
      Ensures->>= (raise_as effect_execution_failed (move_card id hero_draw_pile hero_hand w)) _
        λ v e.
          let ran = map_err-eq-ok _ (move_card id hero_draw_pile hero_hand w) e in
          Ensures->>= (draw_loop random fuel actor consumed s v) _ λ d f. yields λ rest.
            replay_draw fuel actor (d.outcomes ++ rest) w more top ran ∙ Ensures-ok (ih v) f rest

  -- A round that turns the shuffled discard pile over.
  shuffle_Accepted :
      (fuel actor consumed : ℕ) (s : S) (w : EffectWorld)
      → hand_is_full actor w ≡ false
      → top_card_id w actor hero_draw_pile ≡ none
      → is_empty (cards_in_zone w actor hero_discard_pile) ≡ false
      → ((total : ℕ) (s' : S) (v : EffectWorld)
          → Ensures (DrawsAccepted fuel actor v) (draw_loop random fuel actor total s' v))
      → Ensures (DrawsAccepted (suc fuel) actor w) (
          raise (shuffle random s (cards_in_zone w actor hero_discard_pile)) >>= λ run.
          ensure (ltb (consumed + length run.0) u64_bound) (raised version_overflow)
          >> (raise_as effect_execution_failed (turn_pile_over actor run.1 w) >>= λ v.
              draw_loop random fuel actor (consumed + length run.0) run.2 v >>= λ rest.
              ok (record rest {
                outcomes = pile_shuffled actor hero_draw_pile run.1 run.0 ∷ rest.outcomes;
              })))
  shuffle_Accepted fuel actor consumed s w more bare left ih =
      let cards = cards_in_zone w actor hero_discard_pile in
      Ensures->>= (raise (shuffle random s cards)) _ λ run e.
        let shuffled = map_err-eq-ok _ (shuffle random s cards) e in
        let same = matches-shuffle random s cards (λ none_left. cc (left, none_left)) shuffled in
        Ensures-ensure (ltb (consumed + length run.0) u64_bound) _ _ λ _.
          Ensures->>= (raise_as effect_execution_failed (turn_pile_over actor run.1 w)) _ λ v f.
            let turned = map_err-eq-ok _ (turn_pile_over actor run.1 w) f in
            Ensures->>= (draw_loop random fuel actor (consumed + length run.0) run.2 v) _ λ d g.
              yields λ rest.
                replay_shuffle fuel actor (d.outcomes ++ rest) w run.1 run.0 more bare left same
                  turned
                ∙ Ensures-ok (ih (consumed + length run.0) run.2 v) g rest

  draw_loop-Accepted :
      (fuel actor consumed : ℕ) (s : S) (w : EffectWorld)
      → Ensures (DrawsAccepted fuel actor w) (draw_loop random fuel actor consumed s w)
  unfolding draw_loop
  draw_loop-Accepted zero actor consumed s w = fails
  draw_loop-Accepted (suc fuel) actor consumed s w = elim (Bool-cases (hand_is_full actor w)) [
    | inl full ↦ rw full (yields λ rest. replay_full fuel actor rest w full)
    | inr more ↦ rw more (elim (Option-cases (top_card_id w actor hero_draw_pile)) [
      | inr (id, top) ↦
          rw (top, draw_loop)
            (draw_Accepted fuel actor consumed s w more top
              (λ v. draw_loop-Accepted fuel actor consumed s v))
      | inl bare ↦
          rw (bare, draw_loop)
            (Ensures-if (is_empty (cards_in_zone w actor hero_discard_pile)) _ _
              (λ spent. yields λ rest. replay_exhausted fuel actor rest w more bare spent)
              λ left.
                shuffle_Accepted fuel actor consumed s w more bare left
                  (λ total s' v. draw_loop-Accepted fuel actor total s' v))
    ])
  ]

abbrev Replayed : {S : Type 0} → ℕ → ℕ → EffectWorld → Drawn S → Type 0
Replayed actor limit w d = apply_end_turn_outcomes actor limit d.outcomes w ≡ ok d.world

module _ {S : Type 0} (random : EffectRoller S) (actor limit : ℕ) (s : S) (w : EffectWorld) where
  perform_end_turn-Replayed :
      Ensures (Replayed actor limit w) (perform_end_turn random actor limit s w)
  unfolding perform_end_turn apply_end_turn_outcomes
  perform_end_turn-Replayed =
      Ensures->>= (fault_as effect_execution_failed (advance_shared_table limit w)) _ λ shared e1.
        Ensures->>= (discard_zone actor hero_play_area shared.1) _ λ played e2.
          Ensures->>= (discard_zone actor hero_hand played.1) _ λ held e3.
            Ensures->>= (reset_resource actor attack held.1) _ λ spent e4.
              Ensures->>= (reset_resource actor influence spent.1) _ λ bought e5.
                Ensures->>= (recover_heroes bought.1) _ λ healed e6.
                  Ensures->>= (draw_loop random (draw_fuel healed.1) actor 0 s healed.1) _
                    λ drawn e7.
                      let after1 = healed.0 ++ drawn.outcomes in
                      let after2 = bought.0 ++ after1 in
                      let after3 = spent.0 ++ after2 in
                      let after4 = held.0 ++ after3 in
                      let last =
                        Ensures-ok
                          (draw_loop-Accepted random (draw_fuel healed.1) actor 0 s healed.1) e7
                          [] in
                      yields (
                        rw
                          (
                            fault_as-eq-ok _ (advance_shared_table limit w) e1,
                            expect_all-append shared.0 (played.0 ++ after4),
                            Ensures-ok (discard_zone-Accepted actor hero_play_area shared.1) e2
                                after4,
                            Ensures-ok (discard_zone-Accepted actor hero_hand played.1) e3 after3,
                            Ensures-ok (reset_resource-Accepted actor attack held.1) e4 after2,
                            Ensures-ok (reset_resource-Accepted actor influence spent.1) e5 after1,
                            Ensures-ok (recover_heroes-Accepted bought.1) e6 drawn.outcomes,
                            (rw append-nil at last),
                          )
                          refl)

  -- What `perform_end_turn` records, `apply_end_turn_outcomes` accepts from the same table, and it
  -- reaches the same table.
  pub apply_end_turn_outcomes-perform_end_turn :
      {d : Drawn S}
      → perform_end_turn random actor limit s w ≡ ok d
      → apply_end_turn_outcomes actor limit d.outcomes w ≡ ok d.world
  apply_end_turn_outcomes-perform_end_turn = Ensures-ok perform_end_turn-Replayed
