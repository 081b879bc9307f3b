-- ===== src/Engine/EndTurn/Hand/Cards.antt =====
-- The cards of a hand that is drawn or discarded (`perform_end_turn` of
-- crates/game-domain/src/lib.rs).
use rust_game_harry_potter.Base.{
  ℕ, suc, ◌≤◌, ◌≡◌, refl, ap, ◌∙◌, inl, inr, String, Bool, none, some, List, [], ◌∷◌, ◌++◌, map,
  nat_eq, string_eq, option_eq, ok, length, keep, count, extract, raise_as, map_err-eq-ok, Ensures,
  yields, Ensures-ok, Ensures->>=, Option-cases, Bool-cases, arith, find_last,
}
use rust_game_harry_potter.Base.Counting.{extract-count}
use rust_game_harry_potter.Effects.Zones.{EffectZone, hero_discard_pile, hero_draw_pile, hero_hand}
use rust_game_harry_potter.Effects.Entities.{EffectEntity, kind_eq}
use rust_game_harry_potter.World.Store.{
  EffectWorld, entities_in, cards_in_zone, has_id, owned_by, id_of, top_card_id,
}
use rust_game_harry_potter.World.Moves.{move_card, arriving}
use rust_game_harry_potter.World.Census.{entities_in_found}
use rust_game_harry_potter.World.Lengths.{move_card-Moved, Moved-to, Moved-from}
use rust_game_harry_potter.Engine.EndTurn.{discard_all, discard_zone}
use rust_game_harry_potter.Engine.Types.{EndTurnOutcome, effect_execution_failed}

-- No two cards in the hands share an id.
abbrev pub DistinctHands : EffectWorld → Type 0
DistinctHands w = (id : String) → count (has_id id) (entities_in w hero_hand) ≤ 1

pub find_last-none :
    (p : EffectEntity → Bool) (es : List EffectEntity) → find_last p es ≡ none → keep p es ≡ []
find_last-none p [] h = refl
find_last-none p (e ∷ es) h = elim (Option-cases (find_last p es)) [
  | inl q ↦ ground (arith, find_last-none p es q, h, q)
  | inr (x, q) ↦ absurd (ground (arith, h, q))
]

-- Without a top card a pile has no card.
pub top_card_id-none :
    (w : EffectWorld) (actor : ℕ) (z : EffectZone)
    → top_card_id w actor z ≡ none
    → cards_in_zone w actor z ≡ []
unfolding top_card_id cards_in_zone
top_card_id-none w actor z h =
    elim (Option-cases (find_last (owned_by (some actor)) (entities_in w z))) [
      | inl q ↦ ap (map id_of) (find_last-none (owned_by (some actor)) (entities_in w z) q)
      | inr (x, q) ↦ absurd (ground (arith, h, q))
    ]

no_id :
    (id : String) (p : EffectEntity → Bool) (es : List EffectEntity) {ids : List String}
    → map id_of (keep p es) ≡ id ∷ ids
    → 1 ≤ count (has_id id) es
no_id id p [] h = cc
no_id id p (e ∷ es) {ids} h = elim (Bool-cases (p e)) [
  | inl q ↦ ground (arith, q, h)
  | inr q ↦
      let later : map id_of (keep p es) ≡ id ∷ ids = ground arith in
      ground (arith, no_id id p es later)
]

-- Taking out the card that comes first of the ones that a test keeps.
extract-kept :
    (id : String) (p : EffectEntity → Bool) (es : List EffectEntity) {c : EffectEntity}
    {rest : List EffectEntity} {ids : List String}
    → extract (has_id id) es ≡ some (c, rest)
    → count (has_id id) es ≤ 1
    → map id_of (keep p es) ≡ id ∷ ids
    → map id_of (keep p rest) ≡ ids
extract-kept id p [] h one k = cc
extract-kept id p (e ∷ es) {c} {rest} {ids} h one k = elim (Bool-cases (has_id id e)) [
  | inl q ↦ elim (Bool-cases (p e)) [
    | inl a ↦ ground (arith, q, a, h, k)
    | inr a ↦
        let later : map id_of (keep p es) ≡ id ∷ ids = ground arith in
        absurd (ground (arith, no_id id p es later, q, one))
  ]
  | inr q ↦ elim (Bool-cases (p e)) [
    | inl a ↦ absurd (ground (arith, q, a, k))
    | inr a ↦ elim (Option-cases (extract (has_id id) es)) [
      | inl f ↦ absurd (ground (arith, q, f, h))
      | inr ((x, xs), f) ↦
          let later : map id_of (keep p es) ≡ id ∷ ids = ground arith in
          let once : count (has_id id) es ≤ 1 = ground arith in
          let kept = extract-kept id p es f once later in
          let is_rest : e ∷ xs ≡ rest = ground arith in rw (← is_rest, a) kept
    ]
  ]
]

length-keep_snoc :
    (p : EffectEntity → Bool) (es : List EffectEntity) (e : EffectEntity)
    → length (keep p (es ++ e ∷ [])) ≤ suc (length (keep p es))
length-keep_snoc p [] e = elim (Bool-cases (p e)) [
  | inl q ↦ rw q (omega arith)
  | inr q ↦ rw q (omega arith)
]
length-keep_snoc p (x ∷ es) e = ground (arith, length-keep_snoc p es e)

length-map_id : (es : List EffectEntity) → length (map id_of es) ≡ length es
length-map_id [] = refl
length-map_id (e ∷ es) = ap suc (length-map_id es)

-- A card that is drawn makes the hand longer by one card at most.
pub draw-hand :
    (id : String) (actor : ℕ) (w : EffectWorld) {v : EffectWorld}
    → move_card id hero_draw_pile hero_hand w ≡ ok v
    → length (cards_in_zone v actor hero_hand) ≤ suc (length (cards_in_zone w actor hero_hand))
unfolding cards_in_zone
draw-hand id actor w {v} h =
    let (owner, m) = move_card-Moved id hero_draw_pile hero_hand w h in
    let p = owned_by (some actor) in
    let moved = arriving hero_hand (some owner) m.card in
    omega (
      arith,
      length-map_id (keep p (entities_in v hero_hand)),
      length-map_id (keep p (entities_in w hero_hand)),
      ap (λ es. length (keep p es)) (Moved-to m (λ e. cc)),
      length-keep_snoc p (entities_in w hero_hand) moved,
    )

-- Discarding the first card of a hand takes exactly it out of the hand.
discard_first :
    (id : String) (ids : List String) (actor : ℕ) (w : EffectWorld) {v : EffectWorld}
    → DistinctHands w
    → cards_in_zone w actor hero_hand ≡ id ∷ ids
    → move_card id hero_hand hero_discard_pile w ≡ ok v
    → (cards_in_zone v actor hero_hand ≡ ids) × DistinctHands v
unfolding cards_in_zone
discard_first id ids actor w {v} one held h =
    let (owner, m) = move_card-Moved id hero_hand hero_discard_pile w h in
    let source = entities_in_found w hero_hand m.found in
    let left = Moved-from m (λ e. cc) in
    let cut : extract (has_id id) (entities_in w hero_hand) ≡ some (m.card, m.rest) =
      rw source m.cut in
    (
      ap (λ es. map id_of (keep (owned_by (some actor)) es)) left
          ∙ extract-kept id (owned_by (some actor)) (entities_in w hero_hand) cut (one id) held,
      λ x. ground (
        arith,
        one x,
        ap (count (has_id x)) left,
        extract-count (has_id id) (has_id x) (entities_in w hero_hand) cut,
      ),
    )

discard_all-Emptied :
    (ids : List String) (actor : ℕ) (w : EffectWorld)
    → DistinctHands w
    → cards_in_zone w actor hero_hand ≡ ids
    → Ensures
        (λ (r : List EndTurnOutcome × EffectWorld). cards_in_zone r.1 actor hero_hand ≡ [])
        (discard_all hero_hand ids w)
unfolding discard_all
discard_all-Emptied [] actor w one held = yields held
discard_all-Emptied (id ∷ ids) actor w one held =
    Ensures->>= (raise_as effect_execution_failed (move_card id hero_hand hero_discard_pile w)) _
      λ v e.
        let (later, once) = discard_first id ids actor w one held (map_err-eq-ok _ _ e) in
        Ensures->>= (discard_all hero_hand ids v) _
          λ rest f. yields (Ensures-ok (discard_all-Emptied ids actor v once later) f)

-- Discarding a hand leaves it empty.
pub discard_zone-Emptied :
    (actor : ℕ) (w : EffectWorld)
    → DistinctHands w
    → Ensures
        (λ (r : List EndTurnOutcome × EffectWorld). cards_in_zone r.1 actor hero_hand ≡ [])
        (discard_zone actor hero_hand w)
unfolding discard_zone
discard_zone-Emptied actor w one =
    discard_all-Emptied (cards_in_zone w actor hero_hand) actor w one refl
