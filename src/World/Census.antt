-- ===== src/World/Census.antt =====
-- Counting the entities of a whole table: what moves and writes conserve
-- (crates/game-domain/src/effects.rs).
use rust_game_harry_potter.Base.{
  ℕ, ◌+◌, ◌≡◌, ◌≢◌, refl, ap, String, Bool, true, Option, some, List, [], ◌∷◌, ◌++◌, string_eq, ok,
  ok_or, ok_or-eq-ok, Ensures, yields, Ensures->>=, Ensures-ensure, Ensures-ok, count, extract,
  arith,
}
use rust_game_harry_potter.Base.Counting.{count-append, extract-count}
use rust_game_harry_potter.Effects.Zones.{EffectZone, EffectZone-discrete, zone_eq, all_zones}
use rust_game_harry_potter.Effects.Zones
use rust_game_harry_potter.Effects.Entities.{EffectEntity}
use rust_game_harry_potter.Effects.Outcomes.{invalid_definition}
use rust_game_harry_potter.World.Store.{EffectWorld, entities_in, set_zone, push, has_id}
use rust_game_harry_potter.World.Moves.{move_to_back, arriving}
use rust_game_harry_potter.World.Validity.{entity_is_valid_in_zone, owner_transition_is_valid}

-- The sum of a measure over the listed zones, and over all of them.
unfoldable pub total_over : (List EffectEntity → ℕ) → List EffectZone → EffectWorld → ℕ
total_over g [] w = 0
total_over g (z ∷ zs) w = g (entities_in w z) + total_over g zs w

unfoldable pub total : (List EffectEntity → ℕ) → EffectWorld → ℕ
unfolding total_over
total g w = total_over g all_zones w

-- Writing one zone changes the total by that zone's measure.
pub total-set_zone :
    (g : List EffectEntity → ℕ) (z : EffectZone) (es : List EffectEntity) (w : EffectWorld)
    → total g (set_zone z es w) + g (entities_in w z) ≡ total g w + g es
unfolding total set_zone entities_in EffectZone-discrete
total-set_zone g Zones.active_location es w = omega arith
total-set_zone g _ es w = omega arith

pub entities_in-set_zone :
    (z : EffectZone) (es : List EffectEntity) (w : EffectWorld)
    → entities_in (set_zone z es w) z ≡ es
unfolding set_zone entities_in
entities_in-set_zone z es w = ground arith

pub entities_in-set_zone_ne :
    (z y : EffectZone) (es : List EffectEntity) (w : EffectWorld)
    → y ≢ z
    → entities_in (set_zone z es w) y ≡ entities_in w y
unfolding set_zone entities_in
entities_in-set_zone_ne z y es w h = ground arith

-- How many entities of the table pass a test.
abbrev pub census : (EffectEntity → Bool) → EffectWorld → ℕ
census q w = total (count q) w

pub census-push :
    (q : EffectEntity → Bool) (z : EffectZone) (e : EffectEntity) (w : EffectWorld)
    → census q (push z e w) ≡ census q w + count q (e ∷ [])
unfolding push
census-push q z e w = omega (
  arith,
  total-set_zone (count q) z (entities_in w z ++ e ∷ []) w,
  count-append q (entities_in w z) (e ∷ []),
)

-- What a successful move did.
pub record Moved (id : String) (from to : EffectZone) (owner : Option ℕ) (w v : EffectWorld)
    : Type 0 where
  pub source : List EffectEntity
  pub card : EffectEntity
  pub rest : List EffectEntity
  pub found : w.zones from ≡ some source
  pub cut : extract (has_id id) source ≡ some (card, rest)
  pub allowed : owner_transition_is_valid card.kind from to card.owner_position owner ≡ true
  pub fits : entity_is_valid_in_zone (arriving to owner card) to ≡ true
  pub result : v ≡ push to (arriving to owner card) (set_zone from rest w)

move_to_back_lem :
    (id : String) (from to : EffectZone) (owner : Option ℕ) (w : EffectWorld)
    → Ensures (Moved id from to owner w) (move_to_back id from to owner w)
unfolding move_to_back
move_to_back_lem id from to owner w =
    Ensures->>= (ok_or (w.zones from) invalid_definition) _ λ source found.
      Ensures->>= (ok_or (extract (has_id id) source) invalid_definition) _ λ taken cut.
        Ensures-ensure (owner_transition_is_valid taken.0.kind from to taken.0.owner_position owner)
          _ _
          λ allowed.
            Ensures-ensure (entity_is_valid_in_zone (arriving to owner taken.0) to) _ _ λ fits.
              yields (record {
                source = source;
                card = taken.0;
                rest = taken.1;
                found = ok_or-eq-ok _ _ found;
                cut = ok_or-eq-ok _ _ cut;
                allowed = allowed;
                fits = fits;
                result = refl;
              })

pub move_to_back-Moved :
    (id : String) (from to : EffectZone) (owner : Option ℕ) (w : EffectWorld) {v : EffectWorld}
    → move_to_back id from to owner w ≡ ok v
    → Moved id from to owner w v
move_to_back-Moved id from to owner w = Ensures-ok (move_to_back_lem id from to owner w)

pub entities_in_found :
    (w : EffectWorld) (z : EffectZone) {es : List EffectEntity}
    → w.zones z ≡ some es
    → entities_in w z ≡ es
unfolding entities_in
entities_in_found w z h = rw h refl

module _ (id : String) (from to : EffectZone) (owner : Option ℕ) (w v : EffectWorld)
    (m : Moved id from to owner w v) where
  Moved-census-push :
      (q : EffectEntity → Bool)
      → census q v ≡ census q (set_zone from m.rest w) + count q (arriving to owner m.card ∷ [])
  Moved-census-push q = rw m.result (census-push q to _ _)

  pub Moved-census :
      (q : EffectEntity → Bool)
      → ((e : EffectEntity) → q (arriving to owner e) ≡ q e)
      → census q v ≡ census q w
  Moved-census q keeps =
      let cut = extract-count (has_id id) q m.source m.cut in
      ground (
        arith,
        Moved-census-push q,
        keeps m.card,
        cut,
        ap (count q) (entities_in_found w from m.found),
        total-set_zone (count q) from m.rest w,
      )
