-- ===== src/Dice/Audit.antt =====
-- What an accepted audit of House dice says (crates/game-domain/src/randomness.rs).
use mathlib.Core.Option
use rust_game_harry_potter.Base.{
  ℕ, suc, ◌+◌, ◌-◌, ◌≤◌, ◌≡◌, refl, inl, inr, String, true, ◌||◌, Option, none, some, List, [], ◌∷◌,
  ◌++◌, ◌==◌, nat_eq, ltb, count, arith, Bool-cases, subst,
}
use rust_game_harry_potter.Effects.Rules.{EffectDie, is_house, sides}
use rust_game_harry_potter.Effects.Outcomes.{EffectOutcome, die_rolled, consumes_random_sample}
use rust_game_harry_potter.Dice.{HouseDieRoll, next_counter, roll_of, append_rolls, from_effects}

-- A record of a House die whose result is one of its sides.
pub record ValidRoll (r : HouseDieRoll) : Type 0 where
  pub house : is_house r.die ≡ true
  pub same_sides : r.die_sides ≡ sides r.die
  pub at_least : 1 ≤ r.result
  pub at_most : r.result ≤ sides r.die

-- Valid records with counters that increase from `lo` on and stay below `hi`.
abbrev pub Audited : ℕ → ℕ → List HouseDieRoll → Type 0
Audited lo hi [] = lo ≤ hi
Audited lo hi (r ∷ rs) = (lo ≤ r.counter) × ValidRoll r × Audited (suc r.counter) hi rs

bind-some :
    {A B : Type 0} (o : Option A) (f : A → Option B) {b : B}
    → Option.bind o f ≡ some b
    → (a : A) × (o ≡ some a) × (f a ≡ some b)
unfolding Option.bind
bind-some none f h = cc
bind-some (some a) f h = (a, refl, h)

next_counter_lem :
    (o : EffectOutcome) (counter : ℕ) {next : ℕ}
    → next_counter o counter ≡ some next
    → next ≡ counter + count consumes_random_sample (o ∷ [])
next_counter_lem o counter h = ground arith

Audited-weaken :
    (lo mid hi : ℕ) (rs : List HouseDieRoll) → lo ≤ mid → Audited mid hi rs → Audited lo hi rs
Audited-weaken lo mid hi [] l h = omega arith
Audited-weaken lo mid hi (r ∷ rs) l (a, b, c) = (omega arith, b, c)

nothing_recorded :
    (o : EffectOutcome) (counter next hi : ℕ) (new later : List HouseDieRoll)
    → new ≡ []
    → next_counter o counter ≡ some next
    → Audited next hi later
    → Audited counter hi (new ++ later)
nothing_recorded o counter next hi new later e k a =
    rw e (Audited-weaken counter next hi later (omega (arith, next_counter_lem o counter k)) a)

-- The record that a House die leaves.
abbrev house_roll : String → EffectDie → ℕ → ℕ → HouseDieRoll
house_roll rule_id die result counter = record {
  purpose = rule_id;
  counter = counter;
  die = die;
  die_sides = sides die;
  result = result;
}

-- The records of one effect, before those of the later ones.
roll_of-Audited :
    (o : EffectOutcome) (counter next hi : ℕ) (new later : List HouseDieRoll)
    → roll_of o counter ≡ some new
    → next_counter o counter ≡ some next
    → Audited next hi later
    → Audited counter hi (new ++ later)
roll_of-Audited (die_rolled rule_id die result) counter next hi new later h k a =
    elim (Bool-cases (is_house die)) [
      | inr plain ↦
          nothing_recorded (die_rolled rule_id die result) counter next hi new later (ground arith)
            k a
      | inl house ↦ elim (Bool-cases (result == 0 || ltb (sides die) result)) [
        | inl bad ↦ absurd (ground arith)
        | inr good ↦
            let recorded : new ≡ house_roll rule_id die result counter ∷ [] = ground arith in
            let after = next_counter_lem (die_rolled rule_id die result) counter k in
            let valid : ValidRoll (house_roll rule_id die result counter) = record {
              house = house;
              same_sides = refl;
              at_least = ground arith;
              at_most = ground arith;
            } in
            rw recorded (
              omega arith,
              valid,
              Audited-weaken (suc counter) next hi later (omega (arith, after)) a,
            )
      ]
    ]
roll_of-Audited o counter next hi new later h k a =
    nothing_recorded o counter next hi new later (cc h) k a

append_rolls-Audited :
    (counter : ℕ) (os : List EffectOutcome) {r : List HouseDieRoll × ℕ}
    → append_rolls counter os ≡ some r
    → (r.1 ≡ counter + count consumes_random_sample os) × Audited counter r.1 r.0
unfolding append_rolls
append_rolls-Audited counter [] {r} h =
    subst (λ (p : List HouseDieRoll × ℕ). (p.1 ≡ counter + 0) × Audited counter p.1 p.0)
      {x = ([], counter)} {y = r} (cc h) (omega arith, omega arith)
append_rolls-Audited counter (o ∷ os) {r} h =
    let (new, e, h1) = bind-some (roll_of o counter) _ h in
    let (next, f, h2) = bind-some (next_counter o counter) _ h1 in
    let (rest, g, h3) = bind-some (append_rolls next os) _ h2 in
    let (ends, later) = append_rolls-Audited next os g in
    let total = next_counter_lem o counter f in
    let same : (new ++ rest.0, rest.1) ≡ r = cc h3 in
    subst
      (λ (p : List HouseDieRoll × ℕ).
        (p.1 ≡ counter + count consumes_random_sample (o ∷ os)) × Audited counter p.1 p.0)
      same (ground (arith, ends, total), roll_of-Audited o counter next rest.1 new rest.0 e f later)

map-some :
    {A B : Type 0} (f : A → B) (o : Option A) {b : B}
    → Option.map f o ≡ some b
    → (a : A) × (o ≡ some a) × (f a ≡ b)
unfolding Option.map
map-some f none h = cc
map-some f (some a) h = (a, refl, cc h)

-- The dice derived from effects and their final counter are House dice with a result among their
-- sides, and their counters increase strictly within the samples that the effects consumed.
pub from_effects-Audited :
    (effects : List EffectOutcome) (ending_counter : ℕ) {history : List HouseDieRoll}
    → from_effects effects ending_counter ≡ some history
    → (count consumes_random_sample effects ≤ ending_counter)
      × Audited (ending_counter - count consumes_random_sample effects) ending_counter history
unfolding from_effects
from_effects-Audited effects ending_counter {history} h =
    elim (Bool-cases (ltb ending_counter (count consumes_random_sample effects))) [
      | inl e ↦ absurd (ground arith)
      | inr e ↦
          let le : count consumes_random_sample effects ≤ ending_counter = ground arith in
          let start = ending_counter - count consumes_random_sample effects in
          let (r, f, same) = map-some _ (append_rolls start effects) (rw e at h) in
          let (ends, audited) = append_rolls-Audited start effects f in
          let last : r.1 ≡ ending_counter = omega (arith, ends, le) in
          (
            le,
            subst (λ rolls. Audited start ending_counter rolls) same
                (subst (λ n. Audited start n r.0) last audited),
          )
    ]
