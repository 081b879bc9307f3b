-- ===== src/World/Conservation.antt =====
-- What moves and refills keep (crates/game-domain/src/effects.rs).
use rust_game_harry_potter.Base.{
  ℕ, zero, suc, ◌+◌, ◌≤◌, ◌≡◌, ◌≢◌, refl, ap, ◌∙◌, inl, inr, ◌⊎◌, String, Bool, true, false, not,
  Option, none, some, List, [], ◌∷◌, ◌++◌, nat_eq, string_eq, option_eq, ltb, ok, length, first,
  raise, map_err-eq-ok, Ensures, yields, fails, Ensures-ok, Ensures->>=, Ensures-if, arith,
  Option-cases, extract, find_last,
}
use rust_game_harry_potter.Base.Counting.{extract-holds}
use rust_game_harry_potter.Effects.Zones.{EffectZone, active_villains, villain_deck}
use rust_game_harry_potter.Effects.Entities.{EffectEntity}
use rust_game_harry_potter.World.Store.{EffectWorld, entities_in, has_id, owned_by, top_card_id}
use rust_game_harry_potter.World.Moves.{move_to_back, arriving}
use rust_game_harry_potter.World.Census.{
  Moved-census, move_to_back-Moved, census, entities_in_found,
}
use rust_game_harry_potter.World.Lengths.{size, Moved-Shifted, Moved-to, Moved-from, Moved-others}
use rust_game_harry_potter.World.Upkeep.{refill_loop, refill_villains}

-- A move that succeeds neither makes nor loses an entity: every test that does not look at the
-- owner or at the copied ally passes for as many entities of the table as before.
pub census-move_to_back :
    (q : EffectEntity → Bool) (id : String) (from to : EffectZone) (owner : Option ℕ)
    (w : EffectWorld) {v : EffectWorld}
    → ((e : EffectEntity) → q (arriving to owner e) ≡ q e)
    → move_to_back id from to owner w ≡ ok v
    → census q v ≡ census q w
census-move_to_back q id from to owner w {v} keeps h =
    Moved-census id from to owner w v (move_to_back-Moved id from to owner w h) q keeps

-- Where a move between two zones leaves the entities.
pub record Transferred (id : String) (from to : EffectZone) (owner : Option ℕ) (w v : EffectWorld)
    : Type 0 where
  pub card : EffectEntity
  pub rest : List EffectEntity
  pub named : card.id ≡ id
  pub cut : extract (has_id id) (entities_in w from) ≡ some (card, rest)
  pub left : entities_in v from ≡ rest
  pub reached : entities_in v to ≡ entities_in w to ++ arriving to owner card ∷ []
  pub others : (z : EffectZone) → z ≢ from → z ≢ to → entities_in v z ≡ entities_in w z

-- A move that succeeds takes the first entity with the id out of its zone, puts it behind the
-- entities of the other zone with the new owner, and leaves all other zones as they were.
pub move_to_back-Transferred :
    (id : String) (from to : EffectZone) (owner : Option ℕ) (w : EffectWorld) {v : EffectWorld}
    → from ≢ to
    → move_to_back id from to owner w ≡ ok v
    → Transferred id from to owner w v
move_to_back-Transferred id from to owner w apart h =
    let m = move_to_back-Moved id from to owner w h in
    let holds = extract-holds (has_id id) m.source m.cut in
    record {
      card = m.card;
      rest = m.rest;
      named = ground arith;
      cut = rw (entities_in_found w from m.found) m.cut;
      left = Moved-from m apart;
      reached = Moved-to m apart;
      others = Moved-others m apart;
    }

find_last-snoc :
    (p : EffectEntity → Bool) (es : List EffectEntity) (e : EffectEntity)
    → p e ≡ true
    → find_last p (es ++ e ∷ []) ≡ some e
find_last-snoc p [] e h = rw h refl
find_last-snoc p (x ∷ es) e h = rw (find_last-snoc p es e h) refl

-- A card that is moved to another zone is there the top card of its owner.
pub top_card_id-move_to_back :
    (id : String) (from to : EffectZone) (owner : ℕ) (w : EffectWorld) {v : EffectWorld}
    → from ≢ to
    → move_to_back id from to (some owner) w ≡ ok v
    → top_card_id v owner to ≡ some id
unfolding top_card_id
top_card_id-move_to_back id from to owner w apart h =
    let t = move_to_back-Transferred id from to (some owner) w apart h in
    let e = arriving to (some owner) t.card in
    let own : owned_by (some owner) e ≡ true = ground arith in
    let mine = find_last-snoc (owned_by (some owner)) (entities_in w to) e own in
    rw (t.reached, mine) (ap some t.named)

-- What refilling the active villains reaches.
pub record Refilled (limit : ℕ) (w : EffectWorld) (r : List String × EffectWorld) : Type 0 where
  pub added : size active_villains r.1 ≡ size active_villains w + length r.0
  pub taken : size villain_deck w ≡ size villain_deck r.1 + length r.0
  pub enough : (limit ≤ size active_villains r.1) ⊎ (size villain_deck r.1 ≡ 0)
  pub bounded : (size active_villains r.1 ≤ limit) ⊎ (r.0 ≡ [])
  pub others :
      (z : EffectZone)
      → z ≢ active_villains
      → z ≢ villain_deck
      → entities_in r.1 z ≡ entities_in w z

first-none : (es : List EffectEntity) → first es ≡ none → length es ≡ 0
first-none [] h = refl
first-none (e ∷ es) h = cc

within : {m : ℕ} (n limit : ℕ) → not (ltb n limit) ≡ false → m ≡ suc n → m ≤ limit
within n limit more h = ground arith

refill_loop-Refilled :
    (fuel limit : ℕ) (w : EffectWorld) → Ensures (Refilled limit w) (refill_loop fuel limit w)
unfolding refill_loop
refill_loop-Refilled zero limit w = fails
refill_loop-Refilled (suc fuel) limit w =
    Ensures-if (not (ltb (size active_villains w) limit)) _ _
      (λ full. yields (record {
        added = omega arith;
        taken = omega arith;
        enough = inl (ground arith);
        bounded = inr refl;
        others = λ z h k. refl;
      }))
      λ more. elim (Option-cases (first (entities_in w villain_deck))) [
        | inl e ↦
            rw (e, refill_loop)
              (yields (record {
                added = omega arith;
                taken = omega arith;
                enough = inr (first-none _ e);
                bounded = inr refl;
                others = λ z h k. refl;
              }))
        | inr (next, e) ↦
            rw (e, refill_loop)
              (Ensures->>= (raise (move_to_back next.id villain_deck active_villains none w)) _
                λ v f.
                  let m =
                    move_to_back-Moved next.id villain_deck active_villains none w
                      (map_err-eq-ok _ _ f) in
                  let s = Moved-Shifted m (λ e. cc) in
                  Ensures->>= (refill_loop fuel limit v) _ λ rest g.
                    let later = Ensures-ok (refill_loop-Refilled fuel limit v) g in
                    yields (record {
                      added = omega (arith, later.added, s.arrives);
                      taken = omega (arith, later.taken, s.leaves);
                      enough = later.enough;
                      bounded = inl (elim later.bounded [
                        | inl le ↦ le
                        | inr none_left ↦
                            within (size active_villains w) limit more
                              (omega (arith, later.added, s.arrives, ap length none_left))
                      ]);
                      others = λ z h k. later.others z h k ∙ s.others z k h;
                    }))
      ]

-- A refill that succeeds moves as many villains as it lists from the deck to the active villains,
-- until the limit is reached or the deck is empty and never beyond the limit, and leaves the other
-- zones alone.
pub refill_villains-Refilled :
    (limit : ℕ) (w : EffectWorld) {r : List String × EffectWorld}
    → refill_villains limit w ≡ ok r
    → Refilled limit w r
unfolding refill_villains
refill_villains-Refilled limit w =
    Ensures-ok (refill_loop-Refilled (suc (size villain_deck w)) limit w)
