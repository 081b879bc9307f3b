-- ===== src/Examples/Piles.antt =====
-- Shuffles, and the dice of an audit, at concrete inputs.
use Prim.Native.Nat.{ℕ, ◌+◌, ◌%◌}
use rust_game_harry_potter.Base.{ltb, if◌then◌else◌}
use rust_game_harry_potter.Effects.Outcomes.{EffectRoller}
use native.Mathlib.Nat.{mod-lt}
use rust_game_harry_potter.Base.{arith}
use rust_game_harry_potter.Shuffling.Success.{Lasting, shuffle-ok}
use rust_game_harry_potter.Base.{
  ◌≡◌, refl, String, true, Option, none, some, List, [], ◌∷◌, ok, Perm, count,
}
use rust_game_harry_potter.Effects.Outcomes.{ShuffleSample}
use rust_game_harry_potter.Shuffling.{matches}
use rust_game_harry_potter.Base.{ℕ_discrete, String-discrete, Option-discrete}
use rust_game_harry_potter.Effects.Zones.{EffectZone-discrete, EffectResource-discrete}
use rust_game_harry_potter.Effects.Entities.{EffectEntityKind-discrete}
use rust_game_harry_potter.Effects.Resources.{ResourceMap-discrete}
use rust_game_harry_potter.Shuffling.{rounds, fisher_yates, shuffle}
use rust_game_harry_potter.Shuffling.Swaps.{exchange, swap}
use rust_game_harry_potter.Shuffling.Sorting.{insert_sorted, sort}
use rust_game_harry_potter.Shuffling.Replay.{
  matches-shuffle, matches-perm, matches_unique, Shuffled, shuffle-Shuffled,
}
use rust_game_harry_potter.Base.{string_eq, ◌≤◌, ◌-◌}
use rust_game_harry_potter.Effects.Rules.{gryffindor_v1, slytherin_v1}
use rust_game_harry_potter.Effects.Outcomes.{
  EffectOutcome, die_rolled, random_sampled, consumes_random_sample,
}
use rust_game_harry_potter.Dice.{HouseDieRoll}
use rust_game_harry_potter.Dice.Audit.{Audited, from_effects-Audited}
use rust_game_harry_potter.Dice.{append_rolls, from_effects}
use rust_game_harry_potter.Examples.{counting}

shuffle_run :
    shuffle counting 1 ("a" ∷ "b" ∷ "c" ∷ [])
    ≡ ok (
      record { upper_exclusive = 3; result = 1 } ∷ record { upper_exclusive = 2; result = 0 } ∷ [],
      "c" ∷ "a" ∷ "b" ∷ [],
      3,
    )
unfolding rounds fisher_yates shuffle exchange swap insert_sorted sort
shuffle_run = refl

-- A pile of three cards, shuffled.
abbrev pile : List String
pile = "a" ∷ "b" ∷ "c" ∷ []

abbrev pile_samples : List ShuffleSample
pile_samples =
    record { upper_exclusive = 3; result = 1 } ∷ record { upper_exclusive = 2; result = 0 } ∷ []

abbrev pile_out : List String
pile_out = "c" ∷ "a" ∷ "b" ∷ []

matches-shuffle_example : matches pile pile_out pile_samples ≡ true
matches-shuffle_example =
    matches-shuffle counting 1 pile {r = (pile_samples, pile_out, 3)} (λ e. cc) shuffle_run

matches-perm_example : Perm pile pile_out
matches-perm_example = matches-perm pile pile_out pile_samples matches-shuffle_example

matches_unique_example : pile_out ≡ pile_out
matches_unique_example =
    matches_unique pile pile_out pile_out pile_samples (λ e. cc) matches-shuffle_example
      matches-shuffle_example

shuffle-Shuffled_example : Shuffled pile pile_samples pile_out
shuffle-Shuffled_example =
    shuffle-Shuffled counting 1 pile {r = (pile_samples, pile_out, 3)} shuffle_run

abbrev or_else : {A : Type 0} → A → Option A → A
or_else a none = a
or_else a (some b) = b

-- A source whose stream has a hundred numbers.
abbrev limited : EffectRoller ℕ
limited = record {
  roll = λ s die. (none, s);
  sample_below = λ s n. if ltb s 100 then (some (s % n), s + 1) else (none, s);
}

abbrev limited-Lasting : Lasting limited
limited-Lasting = record {
  left = λ s. 100 - s;
  drawn = λ s n. s % n;
  gives = λ s n positive more. ground arith;
  small = λ s n positive more. mod-lt s positive;
  uses = λ s n positive more. ground arith;
}

shuffle-ok_example :
    (r : List ShuffleSample × List String × ℕ) × (shuffle limited 98 pile ≡ ok r)
    × (2 ≤ (100 - r.2) + 2)
shuffle-ok_example = shuffle-ok limited limited-Lasting 98 pile (omega arith) (omega arith)

-- Two House dice and a sample of a shuffle.
abbrev rolled : List EffectOutcome
rolled =
    die_rolled "card:a" gryffindor_v1 3
    ∷ random_sampled "card:b" 4 2
    ∷ die_rolled "card:c" slytherin_v1 6
    ∷ []

abbrev history : List HouseDieRoll
history = or_else [] (from_effects rolled 10)

audits : from_effects rolled 10 ≡ some history
unfolding ℕ_discrete String-discrete Option-discrete EffectZone-discrete EffectResource-discrete
    EffectEntityKind-discrete ResourceMap-discrete append_rolls from_effects
    mathlib.Core.Option.bind
audits = refl

from_effects-Audited_example :
    (count consumes_random_sample rolled ≤ 10)
    × Audited (10 - count consumes_random_sample rolled) 10 history
from_effects-Audited_example = from_effects-Audited rolled 10 audits
