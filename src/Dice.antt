-- ===== src/Dice.antt =====
-- The audit of House dice (crates/game-domain/src/randomness.rs).
pub mod Audit
use rust_game_harry_potter.Base.{
  ℕ, suc, ◌+◌, ◌-◌, String, Bool, true, false, ◌&&◌, ◌||◌, not, Option, none, some, List, [], ◌∷◌,
  ◌++◌, ◌==◌, nat_eq, if◌then◌else◌, ltb, leb, count,
}
use mathlib.Core.Option
use rust_game_harry_potter.Effects.Rules.{EffectDie, is_house, sides}
use rust_game_harry_potter.Effects.Outcomes.{EffectOutcome, die_rolled, consumes_random_sample}

-- The field `sides` of the source is `die_sides`.
pub record HouseDieRoll : Type 0 where
  pub purpose : String
  pub counter : ℕ
  pub die : EffectDie
  pub die_sides : ℕ
  pub result : ℕ

abbrev pub u64_max : ℕ
u64_max = 18446744073709551615

-- `counter.checked_add(1)` for an effect that consumes a sample.
abbrev pub next_counter : EffectOutcome → ℕ → Option ℕ
next_counter o counter =
    if consumes_random_sample o
    then (if ltb counter u64_max then some (counter + 1) else none)
    else some counter

-- What one effect adds to the history; `none` is a result outside the die.
abbrev pub roll_of : EffectOutcome → ℕ → Option (List HouseDieRoll)
roll_of (die_rolled rule_id die result) counter =
    if not (is_house die)
    then some []
    else if result == 0 || ltb (sides die) result
    then none
    else some (
        record {
          purpose = rule_id;
          counter = counter;
          die = die;
          die_sides = sides die;
          result = result;
        }
        ∷ [])
roll_of _ counter = some []

-- The rolls that `append_rolls` adds to the history, and the counter behind them.
unfoldable pub append_rolls : ℕ → List EffectOutcome → Option (List HouseDieRoll × ℕ)
append_rolls counter [] = some ([], counter)
append_rolls counter (o ∷ os) = Option.bind (roll_of o counter) λ new.
    Option.bind (next_counter o counter)
      λ next. Option.bind (append_rolls next os) λ rest. some (new ++ rest.0, rest.1)

unfoldable pub from_effects : List EffectOutcome → ℕ → Option (List HouseDieRoll)
unfolding append_rolls
from_effects effects ending_counter =
    let consumed = count consumes_random_sample effects in
    if ltb ending_counter consumed
    then none
    else Option.map (λ (r : List HouseDieRoll × ℕ). r.0)
        (append_rolls (ending_counter - consumed) effects)
