-- ===== src/World/Lengths.antt =====
-- How moves change the sizes of the zones, and that refilling the villains ends
-- (crates/game-domain/src/effects.rs).
use rust_game_harry_potter.Base.{
  ℕ, zero, suc, ◌<◌, ◌≡◌, ◌≢◌, sym, ap, ◌∙◌, inl, inr, String, not, Option, none, some, [], ◌∷◌,
  ◌++◌, ltb, ok, ok_or, length, first, raise, map_err-eq-ok, Ensures, Ensures-ok, Ensures->>=,
  Ensures-of, length-append, arith, Option-cases,
}
use rust_game_harry_potter.Base.Counting.{extract-length}
use rust_game_harry_potter.Base.Termination.{
  Terminates, finishes, Terminates-if, Terminates->>=, Terminates-raise_as,
}
use rust_game_harry_potter.Effects.Zones.{EffectZone, active_villains, villain_deck}
use rust_game_harry_potter.Effects.Entities.{EffectEntity}
use rust_game_harry_potter.Effects.Outcomes.{invalid_definition}
use rust_game_harry_potter.World.Store.{EffectWorld, entities_in, entity, set_zone, push, has_id}
use rust_game_harry_potter.World.Moves.{move_to_back, move_card, owner_in, arriving}
use rust_game_harry_potter.World.Census.{
  Moved, move_to_back-Moved, entities_in-set_zone, entities_in-set_zone_ne, entities_in_found,
}
use rust_game_harry_potter.World.Upkeep.{refill_loop, refill_villains}

-- The number of entities in a zone.
abbrev pub size : EffectZone → EffectWorld → ℕ
size z w = length (entities_in w z)

pub record Shifted (from to : EffectZone) (w v : EffectWorld) : Type 0 where
  pub leaves : size from w ≡ suc (size from v)
  pub arrives : size to v ≡ suc (size to w)
  pub others : (z : EffectZone) → z ≢ from → z ≢ to → entities_in v z ≡ entities_in w z

entities_in-push :
    (z : EffectZone) (e : EffectEntity) (w : EffectWorld)
    → entities_in (push z e w) z ≡ entities_in w z ++ e ∷ []
unfolding push
entities_in-push z e w = entities_in-set_zone z _ w

entities_in-push_ne :
    (z y : EffectZone) (e : EffectEntity) (w : EffectWorld)
    → y ≢ z
    → entities_in (push z e w) y ≡ entities_in w y
unfolding push
entities_in-push_ne z y e w h = entities_in-set_zone_ne z y _ w h

module _ {id : String} {from to : EffectZone} {owner : Option ℕ} {w v : EffectWorld}
    (m : Moved id from to owner w v) (apart : from ≢ to) where
  -- The moved card is behind the others in its new zone.
  pub Moved-to : entities_in v to ≡ entities_in w to ++ arriving to owner m.card ∷ []
  Moved-to =
      ap (λ u. entities_in u to) m.result
      ∙ (entities_in-push to (arriving to owner m.card) (set_zone from m.rest w)
          ∙ ap (λ es. es ++ arriving to owner m.card ∷ [])
              (entities_in-set_zone_ne from to m.rest w (λ e. apart (sym e))))

  pub Moved-from : entities_in v from ≡ m.rest
  Moved-from =
      ap (λ u. entities_in u from) m.result
      ∙ (entities_in-push_ne to from (arriving to owner m.card) (set_zone from m.rest w) apart
          ∙ entities_in-set_zone from m.rest w)

  pub Moved-others : (z : EffectZone) → z ≢ from → z ≢ to → entities_in v z ≡ entities_in w z
  Moved-others z h k =
      ap (λ u. entities_in u z) m.result
      ∙ (entities_in-push_ne to z (arriving to owner m.card) (set_zone from m.rest w) k
          ∙ entities_in-set_zone_ne from z m.rest w h)

  pub Moved-Shifted : Shifted from to w v
  Moved-Shifted = record {
    leaves =
        ap length (entities_in_found w from m.found)
        ∙ (extract-length (has_id id) m.source m.cut ∙ ap (λ es. suc (length es)) (sym Moved-from));
    arrives = omega (
      arith,
      ap length Moved-to,
      length-append {0} (entities_in w to) (arriving to owner m.card ∷ []),
    );
    others = Moved-others;
  }

move_card_lem :
    (id : String) (from to : EffectZone) (w : EffectWorld)
    → Ensures
        (λ (v : EffectWorld). (owner : ℕ) × Moved id from to (some owner) w v)
        (move_card id from to w)
unfolding move_card
move_card_lem id from to w =
    Ensures->>= (ok_or (owner_in from (entity w id)) invalid_definition) _ λ owner e. ensured owner
  where
    ensured :
        (owner : ℕ)
        → Ensures
            (λ (v : EffectWorld). (o : ℕ) × Moved id from to (some o) w v)
            (move_to_back id from to (some owner) w)
    ensured owner =
        Ensures-of (move_to_back id from to (some owner) w)
          λ v h. (owner, move_to_back-Moved id from to (some owner) w h)

pub move_card-Moved :
    (id : String) (from to : EffectZone) (w : EffectWorld) {v : EffectWorld}
    → move_card id from to w ≡ ok v
    → (owner : ℕ) × Moved id from to (some owner) w v
move_card-Moved id from to w = Ensures-ok (move_card_lem id from to w)

refill_loop-Terminates :
    (fuel limit : ℕ) (w : EffectWorld)
    → size villain_deck w < fuel
    → Terminates (refill_loop fuel limit w)
unfolding refill_loop
refill_loop-Terminates zero limit w h = absurd (omega arith)
refill_loop-Terminates (suc fuel) limit w h =
    Terminates-if (not (ltb (size active_villains w) limit)) _ _ (λ _. finishes)
      λ _. elim (Option-cases (first (entities_in w villain_deck))) [
        | inl e ↦ rw (e, refill_loop) finishes
        | inr (next, e) ↦
            rw (e, refill_loop)
              (Terminates->>= (raise (move_to_back next.id villain_deck active_villains none w)) _
                (Terminates-raise_as (λ e. e) _)
                λ v f.
                  let m =
                    move_to_back-Moved next.id villain_deck active_villains none w
                      (map_err-eq-ok _ _ f) in
                  let s = Moved-Shifted m (λ e. cc) in
                  Terminates->>= (refill_loop fuel limit v) _
                    (refill_loop-Terminates fuel limit v (omega (arith, s.leaves)))
                    λ rest g. finishes)
      ]

-- The rounds given to the loop are enough.
pub refill_villains-Terminates :
    (limit : ℕ) (w : EffectWorld) → Terminates (refill_villains limit w)
unfolding refill_villains
refill_villains-Terminates limit w =
    refill_loop-Terminates (suc (size villain_deck w)) limit w (omega arith)
