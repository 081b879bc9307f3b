-- ===== src/Executor/Costs/Amounts.antt =====
-- What costs add up to (`combined_costs` of crates/game-domain/src/effects.rs).
use rust_game_harry_potter.Base.{
  ℕ, ◌+◌, ◌≡◌, refl, String, true, false, Option, none, some, List, [], ◌∷◌, nat_eq, string_eq,
  option_eq, ◌==◌, arith, if◌then◌else◌, is_some,
}
use rust_game_harry_potter.Effects.Zones.{
  EffectResource, resource_eq, attack, control, health, influence, EffectResource-discrete,
}
use rust_game_harry_potter.Effects.Resources
use rust_game_harry_potter.Effects.Resources.{ResourceMap, get-insert_self}
use rust_game_harry_potter.Effects.Rules.{EffectResourceCost}
use rust_game_harry_potter.Executor.Rules.{add_cost, add_costs}

-- What the costs take of one resource, all together.
unfoldable pub due : EffectResource → List (String × EffectResourceCost) → ℕ
due r [] = 0
due r ((id, c) ∷ cs) = (if c.resource == r then c.amount else 0) + due r cs

abbrev pub value : Option ℕ → ℕ
value none = 0
value (some n) = n

pub get-insert_other :
    (r s : EffectResource) (v : ℕ) (m : ResourceMap)
    → (r == s) ≡ false
    → Resources.get (Resources.insert r v m) s ≡ Resources.get m s
unfolding EffectResource-discrete
get-insert_other attack attack v m h = cc
get-insert_other control control v m h = cc
get-insert_other health health v m h = cc
get-insert_other influence influence v m h = cc
get-insert_other attack _ v m h = refl
get-insert_other control _ v m h = refl
get-insert_other health _ v m h = refl
get-insert_other influence _ v m h = refl

unfoldable pub added : ℕ → Option ℕ → ℕ
added n before = elim before [ none ↦ n | some b ↦ b + n ]

value-added : (n : ℕ) (o : Option ℕ) → added n o ≡ value o + n
unfolding added
value-added n none = omega arith
value-added n (some b) = refl

-- An added cost counts for its own resource alone.
value-add_cost :
    (r s : EffectResource) (n : ℕ) (m : ResourceMap)
    → value (Resources.get (add_cost r n m) s)
      ≡ (if r == s then n else 0) + value (Resources.get m s)
unfolding added
value-add_cost r s n m = elim (EffectResource-discrete r s) [
  | yes e ↦
      let own : (s == s) ≡ true = ground arith in
      rw (e, own, get-insert_self s (added n (Resources.get m s)) m)
        (omega (arith, value-added n (Resources.get m s)))
  | no d ↦
      let apart : (r == s) ≡ false = ground arith in
      rw (apart, get-insert_other r s (added n (Resources.get m r)) m apart) (omega arith)
]

pub value-add_costs :
    (cs : List (String × EffectResourceCost)) (s : EffectResource) (m : ResourceMap)
    → value (Resources.get (add_costs cs m) s) ≡ due s cs + value (Resources.get m s)
unfolding add_costs due
value-add_costs [] s m = omega arith
value-add_costs ((id, c) ∷ cs) s m = omega (
  arith,
  value-add_costs cs s (add_cost c.resource c.amount m),
  value-add_cost c.resource s c.amount m,
)

is_some-add_cost :
    (r s : EffectResource) (n : ℕ) (m : ResourceMap)
    → is_some (Resources.get m s) ≡ true
    → is_some (Resources.get (add_cost r n m) s) ≡ true
unfolding added
is_some-add_cost r s n m h = elim (EffectResource-discrete r s) [
  | yes e ↦ rw (e, get-insert_self s (added n (Resources.get m s)) m) refl
  | no d ↦
      let apart : (r == s) ≡ false = ground arith in
      rw (get-insert_other r s (added n (Resources.get m r)) m apart) h
]

pub is_some-add_costs :
    (cs : List (String × EffectResourceCost)) (s : EffectResource) (m : ResourceMap)
    → is_some (Resources.get m s) ≡ true
    → is_some (Resources.get (add_costs cs m) s) ≡ true
unfolding add_costs
is_some-add_costs [] s m h = h
is_some-add_costs ((id, c) ∷ cs) s m h =
    is_some-add_costs cs s (add_cost c.resource c.amount m)
      (is_some-add_cost c.resource s c.amount m h)
