-- ===== src/World/Ordering.antt =====
-- Setting the order of a hero's cards (`set_card_order` of crates/game-domain/src/effects.rs).
use rust_game_harry_potter.Base.{
  ℕ, suc, ◌≤◌, ◌≡◌, refl, ap, ◌∙◌, inl, inr, String, Bool, true, ◌&&◌, not, some, List, [], ◌∷◌,
  map, Perm, ◌==◌, nat_eq, string_eq, option_eq, ltb, ok, ok_or, ok_or-eq-ok, length, keep, count,
  find, all, list_eq, list_eq→eq, length-perm, count-perm, Ensures, yields, Ensures-ok, Ensures->>=,
  Ensures-ensure, arith, Bool-cases,
}
use rust_game_harry_potter.Base.Counting.{find-holds}
use rust_game_harry_potter.Effects.Zones.{EffectZone, is_card_zone}
use rust_game_harry_potter.Effects.Entities.{EffectEntity}
use rust_game_harry_potter.Effects.Outcomes.{invalid_definition}
use rust_game_harry_potter.Shuffling.Sorting.{sort, sort-eq-perm}
use rust_game_harry_potter.World.Store.{
  EffectWorld, entities_in, cards_in_zone, has_id, owned_by, id_of,
}
use rust_game_harry_potter.World.Moves.{look_up, overwrite_owned, set_card_order}
use rust_game_harry_potter.World.Census.{entities_in-set_zone, entities_in_found}
use rust_game_harry_potter.World.Lookup.{Unique, count-census}

abbrev is_id : String → String → Bool
is_id id i = i == id

kept-named :
    (p : EffectEntity → Bool) (id : String) (es : List EffectEntity)
    → count (is_id id) (map id_of (keep p es)) ≤ count (has_id id) es
kept-named p id [] = omega arith
kept-named p id (e ∷ es) = let rest = kept-named p id es in ground arith

-- The only entity with an id passes a test that some entity with the id passes.
find-kept :
    (p : EffectEntity → Bool) (id : String) (es : List EffectEntity) {e : EffectEntity}
    → 1 ≤ count (is_id id) (map id_of (keep p es))
    → count (has_id id) es ≤ 1
    → find (has_id id) es ≡ some e
    → p e ≡ true
find-kept p id [] h l f = cc
find-kept p id (x ∷ es) {e} h l f =
    let few = kept-named p id es in
    let rest = find-kept p id es {e = e} in
    elim (Bool-cases (has_id id x)) [
      | inl named ↦ elim (Bool-cases (p x)) [
        | inl passes ↦ ground arith
        | inr fails_it ↦ absurd (ground arith)
      ]
      | inr other ↦ rest (ground arith) (ground arith) (ground arith)
    ]

-- What a look-up of ids gives: entities with these ids, in their order, that pass the test.
record Ordered (p : EffectEntity → Bool) (ids : List String) (os : List EffectEntity) : Type 0 where
  ids_of : map id_of os ≡ ids
  pass : all p os ≡ true

look_up-Ordered :
    (p : EffectEntity → Bool) (es : List EffectEntity) (ids : List String)
    → ((id : String) → count (has_id id) es ≤ 1)
    → ((id : String) → 1 ≤ count (is_id id) ids → 1 ≤ count (is_id id) (map id_of (keep p es)))
    → Ensures (Ordered p ids) (look_up es ids)
unfolding look_up
look_up-Ordered p es [] one among = yields (record { ids_of = refl; pass = refl })
look_up-Ordered p es (id ∷ ids) one among =
    Ensures->>= (ok_or (find (has_id id) es) invalid_definition) _ λ e f.
      let found = ok_or-eq-ok _ _ f in
      let named = find-holds (has_id id) es found in
      let mine = find-kept p id es (among id (ground arith)) (one id) found in
      Ensures->>= (look_up es ids) _ λ rest g.
        let later = Ensures-ok (look_up-Ordered p es ids one (λ i h. among i (ground arith))) g in
        yields (record {
          ids_of = ground (arith, named, later.ids_of);
          pass = ground (arith, mine, later.pass);
        })

keep-overwrite_owned :
    (owner : ℕ) (os es : List EffectEntity)
    → all (owned_by (some owner)) os ≡ true
    → length os ≡ length (keep (owned_by (some owner)) es)
    → keep (owned_by (some owner)) (overwrite_owned owner os es) ≡ os
unfolding overwrite_owned
keep-overwrite_owned owner [] [] mine same = refl
keep-overwrite_owned owner [] (e ∷ es) mine same = elim (Bool-cases (owned_by (some owner) e)) [
  | inl own ↦ absurd (ground arith)
  | inr free ↦ rw free (keep-overwrite_owned owner [] es refl (ground arith))
]
keep-overwrite_owned owner (o ∷ os) [] mine same = absurd (omega (arith, same))
keep-overwrite_owned owner (o ∷ os) (e ∷ es) mine same =
    elim (Bool-cases (owned_by (some owner) e)) [
      | inl own ↦ ground (arith, keep-overwrite_owned owner os es)
      | inr free ↦ ground (arith, keep-overwrite_owned owner (o ∷ os) es)
    ]

length-ids : (es : List EffectEntity) → length (map id_of es) ≡ length es
length-ids [] = refl
length-ids (e ∷ es) = ap suc (length-ids es)

set_card_order_lem :
    (owner : ℕ) (z : EffectZone) (order : List String) (w : EffectWorld)
    → Unique w
    → Ensures
        (λ (v : EffectWorld). cards_in_zone v owner z ≡ order)
        (set_card_order owner z order w)
unfolding set_card_order cards_in_zone
set_card_order_lem owner z order w one =
    Ensures-ensure (is_card_zone z && not (ltb 65535 (length order))) _ _ λ _.
      Ensures-ensure (list_eq (sort (cards_in_zone w owner z)) (sort order)) _ _ λ sorted.
        Ensures->>= (ok_or (w.zones z) invalid_definition) _ λ es f.
          let here : entities_in w z ≡ es = entities_in_found w z (ok_or-eq-ok _ _ f) in
          let perm : Perm (map id_of (keep (owned_by (some owner)) es)) order =
            rw (← here) (sort-eq-perm (cards_in_zone w owner z) order (list_eq→eq _ _ sorted)) in
          Ensures->>= (look_up es order) _ λ ordered g.
            let result =
              Ensures-ok
                (look_up-Ordered (owned_by (some owner)) es order
                  (λ id. rw (← here) (count-census id z w (one id)))
                  (λ id h. rw (count-perm (is_id id) perm) h))
                g in
            let same_length : length ordered ≡ length (keep (owned_by (some owner)) es) = omega (
              arith,
              length-ids ordered,
              ap length result.ids_of,
              length-perm perm,
              length-ids (keep (owned_by (some owner)) es),
            ) in
            yields (
              rw entities_in-set_zone (
                ap (map id_of) (keep-overwrite_owned owner ordered es result.pass same_length)
                ∙ result.ids_of))

-- In a table without duplicate ids, setting the order of a hero's cards in a zone makes exactly
-- that order, from bottom to top, the hero's cards in the zone.
pub cards_in_zone-set_card_order :
    (owner : ℕ) (z : EffectZone) (order : List String) (w : EffectWorld) {v : EffectWorld}
    → Unique w
    → set_card_order owner z order w ≡ ok v
    → cards_in_zone v owner z ≡ order
cards_in_zone-set_card_order owner z order w one =
    Ensures-ok (set_card_order_lem owner z order w one)
