-- ===== src/World/Store.antt =====
-- `EffectWorld` and its lookups (crates/game-domain/src/effects.rs).
use rust_game_harry_potter.Base.{
  ℕ, String, Bool, true, false, Option, none, some, List, [], ◌∷◌, ◌++◌, map, ◌==◌, nat_eq,
  string_eq, option_eq, if◌then◌else◌, find, find_last, keep, modify_first, ltb,
}
use mathlib.Core.Option
use rust_game_harry_potter.Effects.Zones.{EffectZone, zone_eq, heroes, all_zones, EffectResource}
use rust_game_harry_potter.Effects.Entities.{EffectEntity, resource}

-- `BTreeMap<EffectZone, Vec<EffectEntity>>`: `none` is a zone that has no entry.
pub record EffectWorld : Type 0 where
  pub zones : EffectZone → Option (List EffectEntity)

pub record EffectEntityPlacement : Type 0 where
  pub entity : EffectEntity
  pub zone : EffectZone

abbrev pub or_empty : Option (List EffectEntity) → List EffectEntity
or_empty none = []
or_empty (some es) = es

unfoldable pub entities_in : EffectWorld → EffectZone → List EffectEntity
entities_in w z = or_empty (w.zones z)

-- A write of one zone's entry.
unfoldable pub set_zone : EffectZone → List EffectEntity → EffectWorld → EffectWorld
set_zone z es w = record { zones = λ y. if y == z then some es else w.zones y }

-- `zones.entry(zone).or_default().push(entity)`
unfoldable pub push : EffectZone → EffectEntity → EffectWorld → EffectWorld
push z e w = set_zone z (entities_in w z ++ e ∷ []) w

-- `Option<u8>` is ordered with `None` first.
abbrev pub owner_le : Option ℕ → Option ℕ → Bool
owner_le none b = true
owner_le (some a) none = false
owner_le (some a) (some b) = if ltb b a then false else true

-- The stable `sort_by_key(EffectEntity::owner_position)`.
unfoldable pub insert_by_owner : EffectEntity → List EffectEntity → List EffectEntity
insert_by_owner e [] = e ∷ []
insert_by_owner e (x ∷ xs) =
    let rest = insert_by_owner e xs in
    if owner_le e.owner_position x.owner_position then e ∷ x ∷ xs else x ∷ rest

unfoldable pub sort_by_owner : List EffectEntity → List EffectEntity
unfolding insert_by_owner
sort_by_owner [] = []
sort_by_owner (e ∷ es) = insert_by_owner e (sort_by_owner es)

unfoldable pub place : List EffectEntityPlacement → EffectWorld → EffectWorld
unfolding push set_zone entities_in
place [] w = w
place (p ∷ ps) w = place ps (push p.zone p.entity w)

abbrev pub sort_heroes : Option (List EffectEntity) → EffectWorld → EffectWorld
sort_heroes none w = w
sort_heroes (some es) w = set_zone heroes (sort_by_owner es) w

unfoldable pub new : List EffectEntityPlacement → EffectWorld
unfolding place sort_by_owner set_zone
new ps = let w = place ps (record { zones = λ z. none }) in sort_heroes (w.zones heroes) w

abbrev pub in_zone : EffectZone → List EffectEntity → List (EffectZone × EffectEntity)
in_zone z es = map (λ e. (z, e)) es

unfoldable pub entities_over : List EffectZone → EffectWorld → List (EffectZone × EffectEntity)
unfolding entities_in
entities_over [] w = []
entities_over (z ∷ zs) w = in_zone z (entities_in w z) ++ entities_over zs w

unfoldable pub entities : EffectWorld → List (EffectZone × EffectEntity)
unfolding entities_over
entities w = entities_over all_zones w

abbrev pub has_id : String → EffectEntity → Bool
has_id id e = e.id == id

abbrev pub owned_by : Option ℕ → EffectEntity → Bool
owned_by owner e = e.owner_position == owner

unfoldable pub find_over :
    String → List EffectZone → EffectWorld → Option (EffectZone × EffectEntity)
unfolding entities_in
find_over id [] w = none
find_over id (z ∷ zs) w = elim (find (has_id id) (entities_in w z)) [
  | none ↦ find_over id zs w
  | some e ↦ some (z, e)
]

-- The first entity with the id, in the order of the zones.
unfoldable pub entity : EffectWorld → String → Option (EffectZone × EffectEntity)
unfolding find_over
entity w id = find_over id all_zones w

abbrev pub entity_zone : EffectWorld → String → Option EffectZone
entity_zone w id = Option.map (λ (r : EffectZone × EffectEntity). r.0) (entity w id)

-- The hero that `find` meets first for a position.
abbrev pub hero_at : EffectWorld → ℕ → Option EffectEntity
hero_at w position = find (owned_by (some position)) (entities_in w heroes)

abbrev pub hero_resource : EffectWorld → ℕ → EffectResource → Option ℕ
hero_resource w position r = Option.map (λ e. resource e r) (hero_at w position)

abbrev pub id_of : EffectEntity → String
id_of e = e.id

-- `cards_in_zone`, and `card_ids_in_zone`, which clones them.
unfoldable pub cards_in_zone : EffectWorld → ℕ → EffectZone → List String
unfolding entities_in
cards_in_zone w owner z = map id_of (keep (owned_by (some owner)) (entities_in w z))

unfoldable pub top_card_id : EffectWorld → ℕ → EffectZone → Option String
unfolding entities_in
top_card_id w owner z = Option.map id_of (find_last (owned_by (some owner)) (entities_in w z))

abbrev pub modify_at :
    Option (EffectZone × EffectEntity)
    → String
    → (EffectEntity → EffectEntity)
    → EffectWorld
    → EffectWorld
modify_at none id f w = w
modify_at (some (z, e)) id f w = set_zone z (modify_first (has_id id) f (entities_in w z)) w

-- A write through `entity_mut(id)`: it reaches the entity that `entity(id)` finds.
unfoldable pub entity_mut : String → (EffectEntity → EffectEntity) → EffectWorld → EffectWorld
unfolding entity set_zone entities_in
entity_mut id f w = modify_at (entity w id) id f w
