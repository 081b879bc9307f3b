-- ===== src/Executor/Draw/Replay.antt =====
-- Drawing cards records what it does (`draw_cards` against `apply_effect_outcomes` of
-- crates/game-domain/src/effects.rs).

use rust_game_harry_potter.Base.{
  ℕ, zero, suc, ◌≡◌, refl, subst, inl, inr, String, true, false, ◌&&◌, ◌||◌, not, Option, some,
  List, [], ◌∷◌, map, ◌==◌, nat_eq, string_eq, option_eq, ok, ok_or, length, find_last, keep,
  is_none, Ensures, yields, Ensures-ok, Ensures->>=, Ensures-if, Ensures-weaken, arith,
  Option-cases,
}
use rust_game_harry_potter.Base.Counting.{extract-find}
use rust_game_harry_potter.Effects.Zones.{
  EffectZone, zone_eq, EffectZone-discrete, hero_discard_pile, hero_draw_pile, hero_hand,
  is_card_zone,
}
use rust_game_harry_potter.Effects.Entities.{EffectEntity}
use rust_game_harry_potter.Effects.Outcomes.{
  moved, no_op, drawing_blocked, EffectRoller, ShuffleSample, invalid_definition,
}
use rust_game_harry_potter.Shuffling.{fisher_yates}
use rust_game_harry_potter.Shuffling.Swaps.{swap}
use rust_game_harry_potter.Shuffling.Replay.{Canonical, rounds-Canonical}
use rust_game_harry_potter.World.Store.{
  EffectWorld, entities_in, entity, has_id, owned_by, id_of, top_card_id,
}
use rust_game_harry_potter.World.Moves.{move_to_back, move_card, owner_in}
use rust_game_harry_potter.World.Census.{Moved-census, move_to_back-Moved, entities_in_found}
use rust_game_harry_potter.World.Named.{find_last-only}
use rust_game_harry_potter.World.Lookup.{Unique, entity-found, count-census}
use rust_game_harry_potter.Executor.Abilities.{drawing_prevented}
use rust_game_harry_potter.Executor.Stun.{Table}
use rust_game_harry_potter.Executor.Apply.{
  is_defeat, defeat_is_valid, apply_moved, apply_effect_outcomes,
}
use rust_game_harry_potter.Executor.Replay.{Replays, Replays-refl, Replays-trans}
use rust_game_harry_potter.Executor.Draw.{
  EffectSource, sampled, log, blocked, owner_of, move_all, refill_shuffled_pile, ensure_pile,
  draw_loop, draw_cards,
}

-- A recorded stretch that keeps the ids unique.
record Tracked {S : Type 0} (t u : Table S) : Type 0 where
  replays : Replays t u
  unique : Unique u.world

module _ {S : Type 0} where
  Tracked-refl : (t : Table S) → Unique t.world → Tracked t t
  Tracked-refl t one = record { replays = Replays-refl t; unique = one }

  Tracked-trans : {t u v : Table S} → Tracked t u → Tracked u v → Tracked t v
  Tracked-trans p q = record { replays = Replays-trans p.replays q.replays; unique = q.unique }

apply_moved-move_to_back :
    (id rule_id : String) (from to : EffectZone) (owner : Option ℕ) (w : EffectWorld)
    {v : EffectWorld}
    → Unique w
    → is_defeat rule_id ≡ false
    → (not (from == to) && is_card_zone from && is_card_zone to) ≡ true
    → move_to_back id from to owner w ≡ ok v
    → apply_moved rule_id id owner from to w ≡ ok v
unfolding apply_moved defeat_is_valid
apply_moved-move_to_back id rule_id from to owner w one plain apart h =
    let m = move_to_back-Moved id from to owner w h in
    let at =
      entity-found id from w {e = m.card} (one id)
        (rw (entities_in_found w from m.found) (extract-find (has_id id) m.source m.cut)) in
    ground (arith, at, h)

module _ {S : Type 0} (rule_id : String) (plain : is_defeat rule_id ≡ false) (from to : EffectZone)
    (apart : (not (from == to) && is_card_zone from && is_card_zone to) ≡ true) where
  logged_move-Tracked :
      (id : String) (owner : Option ℕ) (t : Table S) {v : EffectWorld}
      → Unique t.world
      → move_to_back id from to owner t.world ≡ ok v
      → Tracked t (log (moved rule_id id owner from to ∷ []) (record t { world = v }))
  unfolding apply_effect_outcomes
  logged_move-Tracked id owner t {v} one h = record {
    replays = record {
      fresh = moved rule_id id owner from to ∷ [];
      recorded = refl;
      applied =
          rw (apply_moved-move_to_back id rule_id from to owner t.world one plain apart h) refl;
    };
    unique = λ x.
        rw
          (Moved-census id from to owner t.world v (move_to_back-Moved id from to owner t.world h)
            (has_id x) (λ e. refl))
          (one x);
  }

  move_all-Tracked :
      (ids : List String) (owner : Option ℕ) (t : Table S)
      → Unique t.world
      → Ensures (Tracked t) (move_all ids from to owner rule_id t)
  unfolding move_all
  move_all-Tracked [] owner t one = yields (Tracked-refl t one)
  move_all-Tracked (id ∷ ids) owner t one =
      Ensures->>= (move_to_back id from to owner t.world) _ λ v e.
        let first = logged_move-Tracked id owner t one e in
        Ensures-weaken (move_all-Tracked ids owner _ first.unique)
          λ u later. Tracked-trans first later

apply-sampled :
    (rule_id : String) (i : ℕ) (samples : List ShuffleSample) (w : EffectWorld)
    → Canonical i samples
    → apply_effect_outcomes (sampled rule_id samples) w ≡ ok w
unfolding apply_effect_outcomes
apply-sampled rule_id i [] w h = refl
apply-sampled rule_id zero (x ∷ samples) w h = absurd h
apply-sampled rule_id (suc i) (x ∷ samples) w (bound, small, rest) =
    let later = apply-sampled rule_id i samples w rest in ground arith

owned_in :
    (z : EffectZone) (position : ℕ) (e : EffectEntity)
    → owned_by (some position) e ≡ true
    → owner_in z (some (z, e)) ≡ some position
owned_in z position e own = ground arith

-- The top card of a hero's pile is reached by its id, with the hero as its owner.
top_card-owner :
    (w : EffectWorld) (position : ℕ) (z : EffectZone) {id : String}
    → Unique w
    → top_card_id w position z ≡ some id
    → owner_in z (entity w id) ≡ some position
unfolding top_card_id
top_card-owner w position z {id} one h =
    elim (Option-cases (find_last (owned_by (some position)) (entities_in w z))) [
      | inl e ↦ absurd (ground arith)
      | inr (card, e) ↦
          let named : card.id ≡ id = ground arith in
          let (own, found) =
            find_last-only (owned_by (some position)) (entities_in w z)
              (count-census card.id z w (one card.id)) e in
          subst (λ i. owner_in z (entity w i) ≡ some position) named
            (rw (entity-found card.id z w (one card.id) found) (owned_in z position card own))
    ]

module _ {S : Type 0} (random : EffectRoller S) (rule_id : String)
    (plain : is_defeat rule_id ≡ false) where
  refill-Tracked :
      (owner : Option ℕ) (from to : EffectZone) (t : Table S)
      → Unique t.world
      → (not (from == to) && is_card_zone from && is_card_zone to) ≡ true
      → Ensures
          (λ (r : Table S × ℕ). Tracked t r.0)
          (refill_shuffled_pile random owner from to rule_id t)
  unfolding refill_shuffled_pile fisher_yates
  refill-Tracked owner from to t one apart =
      Ensures->>=
        (fisher_yates random (length (map id_of (keep (owned_by owner) (entities_in t.world from))))
          t.roller swap (map id_of (keep (owned_by owner) (entities_in t.world from))))
        _
        λ run e.
          let canonical = Ensures-ok (rounds-Canonical random _ t.roller swap _) e in
          let first : Tracked t (log (sampled rule_id run.0) (record t { roller = run.2 })) =
            record {
              replays = record {
                fresh = sampled rule_id run.0;
                recorded = refl;
                applied = apply-sampled rule_id _ run.0 t.world canonical;
              };
              unique = one;
            } in
          Ensures->>=
            (move_all run.1 from to owner rule_id
              (log (sampled rule_id run.0) (record t { roller = run.2 })))
            _
            λ done f. yields (
              Tracked-trans first
                (Ensures-ok (move_all-Tracked rule_id plain from to apart run.1 owner _ one) f))

  ensure_pile-Tracked :
      (position : ℕ) (t : Table S)
      → Unique t.world
      → Ensures (Tracked t) (ensure_pile random position rule_id t)
  unfolding ensure_pile EffectZone-discrete
  ensure_pile-Tracked position t one =
      Ensures-if (not (is_none (top_card_id t.world position hero_draw_pile))) _ _
        (λ _. yields (Tracked-refl t one))
        λ _.
          Ensures->>=
            (refill_shuffled_pile random (some position) hero_discard_pile hero_draw_pile rule_id t)
            _
            λ run e.
              let refilled =
                Ensures-ok
                  (refill-Tracked (some position) hero_discard_pile hero_draw_pile t one refl) e in
              yields (record {
                replays = record {
                  fresh = refilled.replays.fresh;
                  recorded = refilled.replays.recorded;
                  applied = refilled.replays.applied;
                };
                unique = refilled.unique;
              })

  drawn-Tracked :
      (position : ℕ) (id : String) (t : Table S) {v : EffectWorld}
      → Unique t.world
      → top_card_id t.world position hero_draw_pile ≡ some id
      → move_card id hero_draw_pile hero_hand t.world ≡ ok v
      → Tracked t (
          log
            (moved rule_id id (some position) hero_draw_pile hero_hand ∷ [])
            (record t { world = v }))
  unfolding move_card EffectZone-discrete
  drawn-Tracked position id t {v} one top h =
      logged_move-Tracked rule_id plain hero_draw_pile hero_hand refl id (some position) t one
        (ground (arith, top_card-owner t.world position hero_draw_pile one top))

  draw_loop-Tracked :
      (n position : ℕ) (t : Table S)
      → Unique t.world
      → Ensures (Tracked t) (draw_loop random n position rule_id t)
  unfolding draw_loop
  draw_loop-Tracked zero position t one = yields (Tracked-refl t one)
  draw_loop-Tracked (suc n) position t one =
      Ensures->>= (ensure_pile random position rule_id t) _ λ t1 e.
        let first = Ensures-ok (ensure_pile-Tracked position t one) e in
        elim (Option-cases (top_card_id t1.world position hero_draw_pile)) [
          | inl f ↦ rw f (yields first)
          | inr (id, f) ↦ rw f (
              Ensures->>= (move_card id hero_draw_pile hero_hand t1.world) _ λ v g.
                let second = Tracked-trans first (drawn-Tracked position id t1 first.unique f g) in
                Ensures-weaken (draw_loop-Tracked n position _ second.unique)
                  λ u later. Tracked-trans second later)
        ]

  draw_cards-Tracked :
      (entity_id : String) (source : EffectSource) (amount : ℕ) (t : Table S)
      → source.rule_id ≡ rule_id
      → Unique t.world
      → Ensures
          (λ (r : Table S × Option ℕ). Tracked t r.0)
          (draw_cards random entity_id source amount t)
  unfolding draw_cards apply_effect_outcomes
  draw_cards-Tracked entity_id source amount t same one = rw same (
      Ensures-if (drawing_prevented t.world source.rules || blocked (entity t.world entity_id)) _ _
        (λ _. yields (record {
          replays = record {
            fresh = no_op rule_id drawing_blocked ∷ [];
            recorded = refl;
            applied = refl;
          };
          unique = one;
        }))
        λ _.
          Ensures->>= (ok_or (owner_of (entity t.world entity_id)) invalid_definition) _
            λ position e.
              Ensures->>= (draw_loop random amount position rule_id t) _
                λ done f. yields (Ensures-ok (draw_loop-Tracked amount position t one) f))

module _ {S : Type 0} (random : EffectRoller S) (entity_id : String) (source : EffectSource)
    (amount : ℕ) (t : Table S) where
  -- In a table without duplicate ids, what drawing cards records, the samples of a shuffled discard
  -- pile included, leads from the table before to the table after when it is applied, and the ids
  -- stay unique. The rule that draws is not the system's rule for defeats.
  pub draw_cards-Replays :
      {r : Table S × Option ℕ}
      → is_defeat source.rule_id ≡ false
      → Unique t.world
      → draw_cards random entity_id source amount t ≡ ok r
      → Replays t r.0 × Unique r.0.world
  draw_cards-Replays plain one h =
      let tracked =
        Ensures-ok
          (draw_cards-Tracked random source.rule_id plain entity_id source amount t refl one) h in
      (tracked.replays, tracked.unique)
