-- ===== src/World/Lookup.antt =====
-- Finding entities by id: what `entity` and `entity_mut` reach (crates/game-domain/src/effects.rs).
use rust_game_harry_potter.Base.{
  ℕ, ◌≤◌, ◌≡◌, refl, inl, inr, String, Bool, true, some, List, [], ◌∷◌, string_eq, count, find,
  modify_first, contains, arith, Option-cases,
}
use rust_game_harry_potter.Base.Counting.{count-modify_first, find-count, find-modify_first}
use rust_game_harry_potter.Effects.Zones.{EffectZone, EffectZone-discrete, zone_eq, all_zones}
use rust_game_harry_potter.Effects.Zones
use rust_game_harry_potter.Effects.Entities.{EffectEntity}
use rust_game_harry_potter.World.Store.{
  EffectWorld, entities_in, set_zone, has_id, entity, find_over, entity_mut,
}
use rust_game_harry_potter.World.Census.{
  total, total_over, census, total-set_zone, entities_in-set_zone, entities_in-set_zone_ne,
}

-- No two entities of the table share an id.
abbrev pub Unique : EffectWorld → Type 0
Unique w = (id : String) → census (has_id id) w ≤ 1

total_over-contains :
    (g : List EffectEntity → ℕ) (z : EffectZone) (zs : List EffectZone) (w : EffectWorld)
    → contains zs z ≡ true
    → g (entities_in w z) ≤ total_over g zs w
unfolding total_over
total_over-contains g z [] w h = cc
total_over-contains g z (y ∷ zs) w h = elim (EffectZone-discrete y z) [
  | yes e ↦ rw e (omega arith)
  | no d ↦ omega (arith, total_over-contains g z zs w (ground arith))
]

find_over-found :
    (id : String) (z : EffectZone) (zs : List EffectZone) (w : EffectWorld) {e : EffectEntity}
    → find (has_id id) (entities_in w z) ≡ some e
    → contains zs z ≡ true
    → total_over (count (has_id id)) zs w ≤ 1
    → find_over id zs w ≡ some (z, e)
unfolding find_over total_over
find_over-found id z [] w h k l = cc
find_over-found id z (y ∷ zs) w {e} h k l = elim (EffectZone-discrete y z) [
  | yes p ↦ ground (arith, p, h)
  | no d ↦ elim (Option-cases (find (has_id id) (entities_in w y))) [
    | inl q ↦ rw (find_over, q) (find_over-found id z zs w h (ground arith) (omega arith))
    | inr (a, q) ↦
        let later : contains zs z ≡ true = ground arith in
        absurd (
          omega (
            arith,
            total_over-contains (count (has_id id)) z zs w later,
            find-count (has_id id) (entities_in w z) h,
            find-count (has_id id) (entities_in w y) q,
          ))
  ]
]

all_zones-contains : (z : EffectZone) → contains all_zones z ≡ true
unfolding EffectZone-discrete
all_zones-contains Zones.active_location = refl
all_zones-contains _ = refl

-- In a table without duplicates, an entity found in a zone is the one that its id reaches.
pub entity-found :
    (id : String) (z : EffectZone) (w : EffectWorld) {e : EffectEntity}
    → census (has_id id) w ≤ 1
    → find (has_id id) (entities_in w z) ≡ some e
    → entity w id ≡ some (z, e)
unfolding entity total
entity-found id z w l h = find_over-found id z all_zones w h (all_zones-contains z) l

find_over-holds :
    (id : String) (zs : List EffectZone) (w : EffectWorld) {z : EffectZone} {e : EffectEntity}
    → find_over id zs w ≡ some (z, e)
    → find (has_id id) (entities_in w z) ≡ some e
unfolding find_over
find_over-holds id [] w h = cc
find_over-holds id (y ∷ zs) w {z} {e} h = elim (Option-cases (find (has_id id) (entities_in w y))) [
  | inl p ↦ find_over-holds id zs w (ground arith)
  | inr (a, p) ↦ let q : y ≡ z = ground arith in rw (← q) (ground arith)
]

pub entity-find :
    (id : String) (w : EffectWorld) {z : EffectZone} {e : EffectEntity}
    → entity w id ≡ some (z, e)
    → find (has_id id) (entities_in w z) ≡ some e
unfolding entity
entity-find id w h = find_over-holds id all_zones w h

find_over-set_zone :
    (id : String) (zs : List EffectZone) (w : EffectWorld) (es : List EffectEntity) {z : EffectZone}
    {e d : EffectEntity}
    → find_over id zs w ≡ some (z, e)
    → find (has_id id) es ≡ some d
    → find_over id zs (set_zone z es w) ≡ some (z, d)
unfolding find_over
find_over-set_zone id [] w es h k = cc
find_over-set_zone id (y ∷ zs) w es {z} {e} {d} h k = elim (EffectZone-discrete y z) [
  | yes p ↦ rw p (rw (find_over, entities_in-set_zone z es w, k))
  | no p ↦
      rw (find_over, entities_in-set_zone_ne z y es w p)
        (elim (Option-cases (find (has_id id) (entities_in w y))) [
          | inl q ↦ rw q (find_over-set_zone id zs w es {e = e} (ground arith) k)
          | inr (a, q) ↦ absurd (p (ground arith))
        ])
]

module _ (id : String) (f : EffectEntity → EffectEntity) (w : EffectWorld) {z : EffectZone}
    {e : EffectEntity} (at : entity w id ≡ some (z, e)) where
  -- A write through `entity_mut` goes to the zone of the entity that was found.
  pub entity_mut_lem :
      entity_mut id f w ≡ set_zone z (modify_first (has_id id) f (entities_in w z)) w
  unfolding entity_mut
  entity_mut_lem = rw at refl

  -- The id then reaches the changed entity, in the same zone.
  pub entity-entity_mut :
      ((x : EffectEntity) → (f x).id ≡ x.id) → entity (entity_mut id f w) id ≡ some (z, f e)
  unfolding entity
  entity-entity_mut same = rw entity_mut_lem (
      find_over-set_zone id all_zones w _ at (
        find-modify_first (has_id id) f (entities_in w z) (λ x. rw (same x) refl)
          (entity-find id w at)))

  pub census-entity_mut :
      (q : EffectEntity → Bool)
      → ((x : EffectEntity) → q (f x) ≡ q x)
      → census q (entity_mut id f w) ≡ census q w
  census-entity_mut q same = rw entity_mut_lem (
      omega (
        arith,
        total-set_zone (count q) z (modify_first (has_id id) f (entities_in w z)) w,
        count-modify_first (has_id id) q f (entities_in w z) same,
      ))

-- A zone has no more entities with an id than the table.
pub count-census :
    (id : String) (z : EffectZone) (w : EffectWorld)
    → census (has_id id) w ≤ 1
    → count (has_id id) (entities_in w z) ≤ 1
unfolding total
count-census id z w l =
    let part = total_over-contains (count (has_id id)) z all_zones w (all_zones-contains z) in
    omega arith
