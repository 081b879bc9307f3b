-- ===== src/Shuffling/Replay.antt =====
-- A shuffle and the check of its record agree (crates/game-domain/src/shuffling.rs).
use mathlib.Core.List.Perm
use rust_game_harry_potter.Base.{
  ℕ, zero, suc, ◌+◌, ◌-◌, ◌<◌, ◌≡◌, ◌≢◌, refl, sym, ap, subst, inl, inr, String, true, Option, none,
  some, List, [], ◌∷◌, Perm, ltb, nat_eq, string_eq, ok, ok_or, length, list_eq→eq, list_eq_refl,
  length-perm, map_err-eq-ok, ok_or-eq-ok, arith, Option-cases, Ensures, returns, yields,
  Ensures-ok, Ensures->>=, Ensures-ensure,
}
use rust_game_harry_potter.Effects.Outcomes.{EffectRoller, ShuffleSample, invalid_roll}
use rust_game_harry_potter.Shuffling.Sorting.{sort, sort-eq-perm}
use rust_game_harry_potter.Shuffling.Swaps.{swap, swap-perm}
use rust_game_harry_potter.Shuffling.{
  below, rounds, fisher_yates, shuffle, replay_samples, matches, u32_bound,
}

-- The samples of a shuffle from index `i` on: the bounds i + 1, i, ..., 2, each above its result.
abbrev pub Canonical : ℕ → List ShuffleSample → Type 0
Canonical i [] = i ≡ 0
Canonical zero (x ∷ samples) = ⊥
Canonical (suc i) (x ∷ samples) =
    (x.upper_exclusive ≡ suc i + 1) × (x.result < suc i + 1) × Canonical i samples

below-lt : (n : ℕ) (o : Option ℕ) {r : ℕ} → below n o ≡ some r → r < n
below-lt n none h = cc
below-lt n (some x) h = ground arith

module _ {S : Type 0} (random : EffectRoller S) where
  pub rounds-Canonical :
      {T : Type 0} (i : ℕ) (s : S) (f : ℕ → ℕ → T → T) (t : T)
      → Ensures (λ (r : List ShuffleSample × T × S). Canonical i r.0) (rounds random i s f t)
  unfolding rounds
  rounds-Canonical zero s f t = returns refl
  rounds-Canonical (suc i) s f t = Ensures-ensure (ltb (suc i + 1) u32_bound) _ _ λ _.
      Ensures->>= (ok_or (below (suc i + 1) (random.sample_below s (suc i + 1)).0) invalid_roll) _
        λ result drawn. Ensures->>= (rounds random i _ f _) _ λ rest ran.
          yields
            (refl, below-lt _ _ (ok_or-eq-ok _ _ drawn), Ensures-ok (rounds-Canonical i _ f _) ran)

  -- The recorded samples, replayed, give the shuffled cards, which are the cards rearranged.
  rounds-replay :
      (i : ℕ) (s : S) (cards : List String)
      → Ensures
          (λ (r : List ShuffleSample × List String × S).
            (replay_samples cards i r.0 ≡ some r.1) × Perm r.1 cards)
          (rounds random i s swap cards)
  unfolding rounds replay_samples
  rounds-replay zero s cards = returns (refl, Perm.refl cards)
  rounds-replay (suc i) s cards = Ensures-ensure (ltb (suc i + 1) u32_bound) _ _ λ _.
      Ensures->>= (ok_or (below (suc i + 1) (random.sample_below s (suc i + 1)).0) invalid_roll) _
        λ result drawn. Ensures->>= (rounds random i _ swap _) _ λ rest ran.
          let later = Ensures-ok (rounds-replay i _ (swap (suc i) result cards)) ran in
          let lt : result < suc i + 1 = below-lt _ _ (ok_or-eq-ok _ _ drawn) in
          yields (ground (arith, lt, later.0), Perm.trans later.1 (swap-perm (suc i) result cards))

length-Canonical : (i : ℕ) (samples : List ShuffleSample) → Canonical i samples → length samples ≡ i
length-Canonical i [] h = sym h
length-Canonical zero (x ∷ samples) h = absurd h
length-Canonical (suc i) (x ∷ samples) h = ap suc (length-Canonical i samples h.2)

replay_samples-perm :
    (cards : List String) (i : ℕ) (samples : List ShuffleSample) {out : List String}
    → replay_samples cards i samples ≡ some out
    → Perm cards out
unfolding replay_samples
replay_samples-perm cards i [] {out} h = subst (λ l. Perm cards l) {y = out} (cc) (Perm.refl cards)
replay_samples-perm cards zero (x ∷ samples) {out} h =
    subst (λ l. Perm cards l) {y = out} (cc) (Perm.refl cards)
replay_samples-perm cards (suc i) (x ∷ samples) h =
    Perm.trans (Perm.symm (swap-perm (suc i) x.result cards))
      (replay_samples-perm (swap (suc i) x.result cards) i samples (ground arith))

-- A record with samples passes only if replaying them gives the shuffled pile.
matches-replay_samples :
    (original shuffled : List String) (x : ShuffleSample) (samples : List ShuffleSample)
    → matches original shuffled (x ∷ samples) ≡ true
    → replay_samples original (length original - 1) (x ∷ samples) ≡ some shuffled
unfolding matches
matches-replay_samples original shuffled x samples h =
    elim (Option-cases (replay_samples original (length original - 1) (x ∷ samples))) [
      | inl e ↦ absurd (ground arith)
      | inr (out, e) ↦ ground (arith, list_eq→eq out shuffled)
    ]

-- A record that passes the check, whether or not it has samples, rearranges the original pile.
pub matches-perm :
    (original shuffled : List String) (samples : List ShuffleSample)
    → matches original shuffled samples ≡ true
    → Perm original shuffled
unfolding matches
matches-perm original shuffled [] h =
    sort-eq-perm original shuffled (ground (arith, list_eq→eq (sort original) (sort shuffled)))
matches-perm original shuffled (x ∷ samples) h =
    replay_samples-perm original (length original - 1) (x ∷ samples)
      (matches-replay_samples original shuffled x samples h)

-- The samples, when there are any, determine the pile that the check accepts.
pub matches_unique :
    (original left right : List String) (samples : List ShuffleSample)
    → samples ≢ []
    → matches original left samples ≡ true
    → matches original right samples ≡ true
    → left ≡ right
matches_unique original left right [] filled h k = absurd (filled refl)
matches_unique original left right (x ∷ samples) filled h k = cc (
  matches-replay_samples original left x samples h,
  matches-replay_samples original right x samples k,
)

-- What a shuffle returns: canonical samples, whose replay gives the new order of the same cards.
pub record Shuffled (cards : List String) (samples : List ShuffleSample) (out : List String)
    : Type 0 where
  pub canonical : Canonical (length cards - 1) samples
  pub replayed : replay_samples cards (length cards - 1) samples ≡ some out
  pub rearranged : Perm out cards

matches-Shuffled :
    (cards : List String) (samples : List ShuffleSample) (out : List String)
    → cards ≢ []
    → Shuffled cards samples out
    → matches cards out samples ≡ true
unfolding matches replay_samples
matches-Shuffled cards [] out filled h =
    ground (arith, length-perm h.rearranged, list_eq_refl (sort out), h.replayed)
matches-Shuffled cards (x ∷ samples) out filled h = ground (
  arith,
  length-perm h.rearranged,
  list_eq_refl out,
  h.replayed,
  length-Canonical (length cards - 1) (x ∷ samples) h.canonical,
)

module _ {S : Type 0} (random : EffectRoller S) (s : S) (cards : List String) where
  -- Every successful shuffle is such a rearrangement.
  pub shuffle-Shuffled :
      {r : List ShuffleSample × List String × S}
      → shuffle random s cards ≡ ok r
      → Shuffled cards r.0 r.1
  unfolding shuffle fisher_yates
  shuffle-Shuffled {r} h =
      let ran : rounds random (length cards - 1) s swap cards ≡ ok r = map_err-eq-ok _ _ h in
      let (same, perm) = Ensures-ok (rounds-replay random (length cards - 1) s cards) ran in
      record {
        canonical = Ensures-ok (rounds-Canonical random (length cards - 1) s swap cards) ran;
        replayed = same;
        rearranged = perm;
      }

  -- The check accepts the record of every shuffle of a pile that is not empty.
  pub matches-shuffle :
      {r : List ShuffleSample × List String × S}
      → cards ≢ []
      → shuffle random s cards ≡ ok r
      → matches cards r.1 r.0 ≡ true
  matches-shuffle {r} filled h = matches-Shuffled cards r.0 r.1 filled (shuffle-Shuffled h)
