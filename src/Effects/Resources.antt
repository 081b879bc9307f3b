-- ===== src/Effects/Resources.antt =====
-- `BTreeMap<EffectResource, u16>`: one optional value for each of the four keys
-- (crates/game-domain/src/effects.rs).
use rust_game_harry_potter.Base.{
  ℕ, ◌+◌, ◌≡◌, refl, Bool, Option, none, some, Eq, if◌then◌else◌, is_some, ℕ_discrete,
}
use rust_game_harry_potter.Effects.Zones.{EffectResource, attack, control, health, influence}

pub record ResourceMap : Type 0 where
  pub attack_value : Option ℕ
  pub control_value : Option ℕ
  pub health_value : Option ℕ
  pub influence_value : Option ℕ

unfoldable pub ResourceMap-discrete : Discrete ResourceMap
ResourceMap-discrete = hlevel ℕ_discrete

instance abbrev pub resource_map_eq : Eq ResourceMap
resource_map_eq = record { dec = ResourceMap-discrete }

abbrev pub empty : ResourceMap
empty = record {
  attack_value = none;
  control_value = none;
  health_value = none;
  influence_value = none;
}

abbrev pub get : ResourceMap → EffectResource → Option ℕ
get m attack = m.attack_value
get m control = m.control_value
get m health = m.health_value
get m influence = m.influence_value

abbrev pub insert : EffectResource → ℕ → ResourceMap → ResourceMap
insert attack v m = record m { attack_value = some v }
insert control v m = record m { control_value = some v }
insert health v m = record m { health_value = some v }
insert influence v m = record m { influence_value = some v }

abbrev pub bool_count : Bool → ℕ
bool_count b = if b then 1 else 0

abbrev pub size : ResourceMap → ℕ
size m =
    bool_count (is_some m.attack_value)
    + bool_count (is_some m.control_value)
    + bool_count (is_some m.health_value)
    + bool_count (is_some m.influence_value)

pub get-insert_self : (r : EffectResource) (v : ℕ) (m : ResourceMap) → get (insert r v m) r ≡ some v
get-insert_self attack v m = refl
get-insert_self control v m = refl
get-insert_self health v m = refl
get-insert_self influence v m = refl
