-- ===== src/Shuffling/Success.antt =====
-- When a shuffle succeeds (crates/game-domain/src/shuffling.rs).
use rust_game_harry_potter.Base.{
  ℕ, zero, suc, ◌+◌, ◌-◌, ◌<◌, ◌≤◌, ◌≡◌, refl, String, true, some, List, [], ◌∷◌, ok, length, ltb,
  arith,
}
use rust_game_harry_potter.Effects.Outcomes.{EffectRoller, ShuffleSample}
use rust_game_harry_potter.Shuffling.{below, rounds, fisher_yates, shuffle, u32_bound}
use rust_game_harry_potter.Shuffling.Swaps.{swap}

-- A random source with a budget, as the stream counter of a generator is one: while some of it is
-- left, it gives a number below every positive bound and uses up one of what is left at most.
pub record Lasting {S : Type 0} (random : EffectRoller S) : Type 0 where
  pub left : S → ℕ
  pub drawn : S → ℕ → ℕ
  pub gives : (s : S) (n : ℕ) → 0 < n → 0 < left s → (random.sample_below s n).0 ≡ some (drawn s n)
  pub small : (s : S) (n : ℕ) → 0 < n → 0 < left s → drawn s n < n
  pub uses : (s : S) (n : ℕ) → 0 < n → 0 < left s → left s ≤ left (random.sample_below s n).1 + 1

module _ {S : Type 0} (random : EffectRoller S) (lasting : Lasting random) where
  rounds-ok :
      {T : Type 0} (i : ℕ) (s : S) (f : ℕ → ℕ → T → T) (t : T)
      → i + 1 < u32_bound
      → i ≤ lasting.left s
      → (r : List ShuffleSample × T × S) × (rounds random i s f t ≡ ok r)
        × (lasting.left s ≤ lasting.left r.2 + i)
  unfolding rounds
  rounds-ok zero s f t l enough = (([], t, s), refl, omega arith)
  rounds-ok (suc i) s f t l enough =
      let given = lasting.gives s (suc i + 1) (omega arith) (omega arith) in
      let lt = lasting.small s (suc i + 1) (omega arith) (omega arith) in
      let used = lasting.uses s (suc i + 1) (omega arith) (omega arith) in
      let fits : ltb (suc i + 1) u32_bound ≡ true = ground arith in
      let kept : below (suc i + 1) (some (lasting.drawn s (suc i + 1)))
          ≡ some (lasting.drawn s (suc i + 1)) =
        ground arith in
      let (rest, ran, after) =
        rounds-ok i (random.sample_below s (suc i + 1)).1 f
          (f (suc i) (lasting.drawn s (suc i + 1)) t) (omega (arith, l))
          (omega (arith, used, enough)) in
      (
        (
          record { upper_exclusive = suc i + 1; result = lasting.drawn s (suc i + 1) } ∷ rest.0,
          rest.1,
          rest.2,
        ),
        rw (fits, given, kept, ran) refl,
        omega (arith, used, after),
      )

  -- With a random source that gives a number below every positive bound while its budget lasts, one
  -- of it for each number, the shuffle of a pile whose length fits in 32 bits succeeds if the budget
  -- has one for each card but one, and uses up no more.
  pub shuffle-ok :
      (s : S) (cards : List String)
      → length cards < u32_bound
      → length cards ≤ lasting.left s + 1
      → (r : List ShuffleSample × List String × S) × (shuffle random s cards ≡ ok r)
        × (lasting.left s ≤ lasting.left r.2 + (length cards - 1))
  unfolding shuffle fisher_yates
  shuffle-ok s cards l enough =
      let (r, ran, after) =
        rounds-ok (length cards - 1) s swap cards (omega (arith, l)) (omega (arith, enough)) in
      (r, rw ran refl, after)
