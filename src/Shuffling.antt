-- ===== src/Shuffling.antt =====
-- Fisher-Yates with recorded samples, and the check of a recorded shuffle
-- (crates/game-domain/src/shuffling.rs).
pub mod Sorting
pub mod Swaps
pub mod Replay
pub mod Success
use rust_game_harry_potter.Base.{
  ℕ, zero, suc, ◌+◌, ◌-◌, String, Bool, true, false, ◌&&◌, ◌||◌, not, Option, none, some, List, [],
  ◌∷◌, ltb, ◌==◌, if◌then◌else◌, Result, ok, err, ◌>>=◌, ◌>>◌, ensure, ok_or, map_err, length,
  is_empty, is_some_and, list_eq, nat_eq, string_eq,
}
use rust_game_harry_potter.Effects.Outcomes.{
  EffectExecutionError, invalid_definition, invalid_roll, EffectRoller, ShuffleSample,
}
use rust_game_harry_potter.Engine.Types.{
  GameIntentError, random_source_failed, effect_execution_failed,
}
use Sorting.{sort}
use Swaps.{swap}

-- `Option::filter`
abbrev pub below : ℕ → Option ℕ → Option ℕ
below n none = none
below n (some r) = if ltb r n then some r else none

abbrev pub u32_bound : ℕ
u32_bound = 4294967296

module _ {S : Type 0} (random : EffectRoller S) where
  -- The loop of `fisher_yates` from an index down to 1; `swap` updates what the closure captures.
  unfoldable pub rounds :
      {T : Type 0}
      → ℕ
      → S
      → (ℕ → ℕ → T → T)
      → T
      → Result EffectExecutionError (List ShuffleSample × T × S)
  rounds zero s swap_in t = ok ([], t, s)
  rounds (suc i) s swap_in t = do
    ensure (ltb (suc i + 1) u32_bound) invalid_definition
    let drawn = random.sample_below s (suc i + 1)
    result ← ok_or (below (suc i + 1) drawn.0) invalid_roll
    rest ← rounds i drawn.1 swap_in (swap_in (suc i) result t)
    ok (record { upper_exclusive = suc i + 1; result = result } ∷ rest.0, rest.1, rest.2)

  unfoldable pub fisher_yates :
      {T : Type 0}
      → ℕ
      → S
      → (ℕ → ℕ → T → T)
      → T
      → Result EffectExecutionError (List ShuffleSample × T × S)
  fisher_yates n s swap_in t = rounds (n - 1) s swap_in t

  abbrev pub shuffle_error : EffectExecutionError → GameIntentError
  shuffle_error invalid_roll = random_source_failed
  shuffle_error _ = effect_execution_failed

  unfoldable pub shuffle :
      S → List String → Result GameIntentError (List ShuffleSample × List String × S)
  shuffle s cards = map_err shuffle_error (fisher_yates (length cards) s swap cards)

-- The loop of `matches` over the samples and the indices; `none` is `return false`.
unfoldable pub replay_samples : List String → ℕ → List ShuffleSample → Option (List String)
replay_samples expected i [] = some expected
replay_samples expected zero (x ∷ samples) = some expected
replay_samples expected (suc i) (x ∷ samples) =
    let rest = replay_samples (swap (suc i) x.result expected) i samples in
    if x.upper_exclusive == suc i + 1 && ltb x.result x.upper_exclusive then rest else none

unfoldable pub matches : List String → List String → List ShuffleSample → Bool
matches original shuffled samples =
    if is_empty shuffled || not (length shuffled == length original)
    then false
    else if is_empty samples
    then list_eq (sort original) (sort shuffled)
    else if not (length samples == length original - 1)
    then false
    else is_some_and (replay_samples original (length original - 1) samples)
        λ expected. list_eq expected shuffled
