-- ===== src/World/Named.antt =====
-- What a search finds, searched for by its id (crates/game-domain/src/effects.rs).
use rust_game_harry_potter.Base.{
  ◌≤◌, ◌≡◌, inl, inr, Bool, true, string_eq, some, List, [], ◌∷◌, find, find_last, count, subst,
  arith, Bool-cases, Option-cases,
}
use rust_game_harry_potter.Effects.Entities.{EffectEntity}
use rust_game_harry_potter.World.Store.{has_id}

first_named : (x : EffectEntity) (es : List EffectEntity) → 1 ≤ count (has_id x.id) (x ∷ es)
first_named x es = ground arith

first_found : (x : EffectEntity) (es : List EffectEntity) → find (has_id x.id) (x ∷ es) ≡ some x
first_found x es = ground arith

find-named :
    (p : EffectEntity → Bool) (es : List EffectEntity) {e : EffectEntity}
    → find p es ≡ some e
    → 1 ≤ count (has_id e.id) es
find-named p [] h = cc
find-named p (x ∷ es) {e} h = elim (Bool-cases (p x)) [
  | inl y ↦
      let same : x ≡ e = ground arith in
      subst (λ (d : EffectEntity). 1 ≤ count (has_id d.id) (x ∷ es)) same (first_named x es)
  | inr y ↦ let later = find-named p es {e = e} (ground arith) in ground arith
]

-- The first entity that passes a test is found under its id, if no other has it.
pub find-only :
    (p : EffectEntity → Bool) (es : List EffectEntity) {e : EffectEntity}
    → count (has_id e.id) es ≤ 1
    → find p es ≡ some e
    → find (has_id e.id) es ≡ some e
find-only p [] l h = cc
find-only p (x ∷ es) {e} l h = elim (Bool-cases (p x)) [
  | inl y ↦
      let same : x ≡ e = ground arith in
      subst (λ (d : EffectEntity). find (has_id d.id) (x ∷ es) ≡ some d) same (first_found x es)
  | inr y ↦
      let at : find p es ≡ some e = ground arith in
      let named = find-named p es at in
      elim (Bool-cases (has_id e.id x)) [
        | inl z ↦ absurd (ground arith)
        | inr z ↦ let later = find-only p es {e = e} (ground arith) at in ground arith
      ]
]

find_last-named :
    (p : EffectEntity → Bool) (es : List EffectEntity) {e : EffectEntity}
    → find_last p es ≡ some e
    → 1 ≤ count (has_id e.id) es
find_last-named p [] h = cc
find_last-named p (x ∷ es) {e} h = elim (Option-cases (find_last p es)) [
  | inl y ↦
      let same : x ≡ e = ground arith in
      subst (λ (d : EffectEntity). 1 ≤ count (has_id d.id) (x ∷ es)) same (first_named x es)
  | inr (a, y) ↦ let later = find_last-named p es {e = e} (ground arith) in ground arith
]

-- What a search from the end finds passes the test, and is found under its id if that is unique.
pub find_last-only :
    (p : EffectEntity → Bool) (es : List EffectEntity) {e : EffectEntity}
    → count (has_id e.id) es ≤ 1
    → find_last p es ≡ some e
    → (p e ≡ true) × (find (has_id e.id) es ≡ some e)
find_last-only p [] l h = cc
find_last-only p (x ∷ es) {e} l h = elim (Option-cases (find_last p es)) [
  | inl y ↦
      let same : x ≡ e = ground arith in
      let passes : p x ≡ true = ground arith in
      subst (λ (d : EffectEntity). (p d ≡ true) × (find (has_id d.id) (x ∷ es) ≡ some d)) same
        (passes, first_found x es)
  | inr (a, y) ↦
      let at : find_last p es ≡ some e = ground arith in
      let named = find_last-named p es at in
      elim (Bool-cases (has_id e.id x)) [
        | inl z ↦ absurd (ground arith)
        | inr z ↦
            let later = find_last-only p es {e = e} (ground arith) at in
            (later.0, ground (arith, later.1))
      ]
]
