-- ===== src/Effects/Entities.antt =====
-- Entities of the table and their constructors (crates/game-domain/src/effects.rs).
use rust_game_harry_potter.Base.{
  ℕ, ◌+◌, ◌-◌, String, Bool, false, ◌&&◌, not, Option, none, some, List, Eq, ltb, ◌==◌,
  if◌then◌else◌, is_empty, ℕ_discrete,
}
use rust_game_harry_potter.Effects.Zones.{EffectResource, control, health}
use rust_game_harry_potter.Effects.Resources.{ResourceMap, ResourceMap-discrete}
use rust_game_harry_potter.Effects.Resources

pub data EffectEntityKind : Type 0 where
  dark_arts generic hero hogwarts_card location starter_card villain : EffectEntityKind

unfoldable pub EffectEntityKind-discrete : Discrete EffectEntityKind
EffectEntityKind-discrete = hlevel

instance abbrev pub kind_eq : Eq EffectEntityKind
kind_eq = record { dec = EffectEntityKind-discrete }

pub record EffectTurnState : Type 0 where
  pub ability_used : Bool
  pub healed_positions : List ℕ
  pub attack_assigned : ℕ
  pub attack_limit : Option ℕ
  pub suppressed_by : List ℕ

unfoldable pub EffectTurnState-discrete : Discrete EffectTurnState
EffectTurnState-discrete = hlevel ℕ_discrete

instance abbrev pub turn_state_eq : Eq EffectTurnState
turn_state_eq = record { dec = EffectTurnState-discrete }

pub record EffectEntity : Type 0 where
  pub id : String
  pub kind : EffectEntityKind
  pub catalog_id : Option String
  pub owner_position : Option ℕ
  pub effect_rule_id : Option String
  pub reward_rule_id : Option String
  pub influence_cost : Option ℕ
  pub resources : ResourceMap
  pub resource_limits : ResourceMap
  pub dark_arts_count : Option ℕ
  pub drawing_blocked : Bool
  pub copied_ally_id : Option String
  pub turn_state : Option EffectTurnState

abbrev pub u16_max : ℕ
u16_max = 65535

abbrev pub hero_max_health : ℕ
hero_max_health = 10

abbrev pub new : String → Option ℕ → EffectEntity
new id owner = record {
  id = id;
  kind = generic;
  catalog_id = none;
  owner_position = owner;
  effect_rule_id = none;
  reward_rule_id = none;
  influence_cost = none;
  resources = Resources.empty;
  resource_limits = Resources.empty;
  dark_arts_count = none;
  drawing_blocked = false;
  copied_ally_id = none;
  turn_state = none;
}

abbrev pub with_resource : EffectResource → ℕ → EffectEntity → EffectEntity
with_resource r amount e = record e { resources = Resources.insert r amount e.resources }

abbrev pub card : String → String → EffectEntityKind → Option ℕ → String → Option ℕ → EffectEntity
card id catalog kind owner rule cost = record (new id owner) {
  kind = kind;
  catalog_id = some catalog;
  effect_rule_id = some rule;
  influence_cost = cost;
}

abbrev pub new_location : String → String → String → ℕ → ℕ → EffectEntity
new_location id catalog rule limit count = record (new id none) {
  kind = location;
  catalog_id = some catalog;
  effect_rule_id = some rule;
  resources = Resources.insert control 0 Resources.empty;
  resource_limits = Resources.insert control limit Resources.empty;
  dark_arts_count = some count;
}

abbrev pub new_villain : String → String → String → ℕ → EffectEntity
new_villain id catalog rule amount = record (new id none) {
  kind = villain;
  catalog_id = some catalog;
  effect_rule_id = some rule;
  resources = Resources.insert health amount Resources.empty;
}

abbrev pub resource : EffectEntity → EffectResource → ℕ
resource e r = elim (Resources.get e.resources r) [ none ↦ 0 | some v ↦ v ]

abbrev pub resource_limit : EffectEntity → EffectResource → Option ℕ
resource_limit e r = Resources.get e.resource_limits r

-- `saturating_add` on `u16`
abbrev pub saturating_add : ℕ → ℕ → ℕ
saturating_add a b = if ltb u16_max (a + b) then u16_max else a + b

abbrev pub limit_capacity : EffectTurnState → ℕ
limit_capacity s = elim s.attack_limit [ none ↦ u16_max | some limit ↦ limit - s.attack_assigned ]

abbrev pub available_attack_capacity : EffectEntity → ℕ
available_attack_capacity e = elim e.turn_state [ none ↦ u16_max | some s ↦ limit_capacity s ]

abbrev pub villain_ability_suppressed : EffectEntity → Bool
villain_ability_suppressed e =
    e.kind == villain
    && elim e.turn_state [ none ↦ false | some s ↦ not (is_empty s.suppressed_by) ]
