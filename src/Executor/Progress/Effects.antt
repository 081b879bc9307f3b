-- ===== src/Executor/Progress/Effects.antt =====
-- The operations of a card effect respect the cards and the record
-- (crates/game-domain/src/effects.rs, crates/game-domain/src/effects/game_two.rs).
use mathlib.Core.List.{append_assoc}
use rust_game_harry_potter.Base.Counting.{count-append}
use rust_game_harry_potter.Base.{
  ℕ, zero, suc, ◌+◌, ◌-◌, ◌*◌, ◌≡◌, refl, ap, ◌∙◌, String, ◌&&◌, ◌||◌, not, Option, none, some,
  List, [], ◌∷◌, ◌++◌, map, ◌==◌, nat_eq, ok_or, Ensures, yields, Ensures->>=, Ensures-ensure,
  Ensures-if, Ensures-weaken, Ensures-of, Ensures-ok, length, ltb, arith, count, keep, is_none, inl,
  inr, Option-cases, if◌then◌else◌, string_eq, option_eq,
}
use rust_game_harry_potter.Effects.Zones.{
  EffectZone, zone_eq, EffectResource, resource_eq, influence, health, control, hero_draw_pile,
  hero_discard_pile, hero_hand, hero_play_area, attack,
}
use rust_game_harry_potter.Effects.Entities.{kind_eq, hero}
use rust_game_harry_potter.Effects.Rules.{ℤ, pos, negsuc, card_type_eq, ally}
use rust_game_harry_potter.Effects.Outcomes.{
  EffectRoller, consumes_random_sample, invalid_definition, invalid_roll, ShuffleSample,
}
use rust_game_harry_potter.Shuffling.{below, u32_bound, rounds, fisher_yates}
use rust_game_harry_potter.Shuffling.Swaps.{swap}
use rust_game_harry_potter.World.Store.{
  EffectWorld, entity, entities_in, top_card_id, owned_by, id_of,
}
use rust_game_harry_potter.World.Moves.{move_to_back, move_card, owner_in}
use rust_game_harry_potter.Executor.Abilities.{
  card_type, drawing_prevented, control_removal_prevented,
}
use rust_game_harry_potter.Executor.Stun.{Table, modify_entity_resource}
use rust_game_harry_potter.Executor.Draw.{
  EffectSource, log, sampled, blocked, owner_of, move_entity, move_all, refill_shuffled_pile,
  ensure_pile, draw_loop, draw_cards, modify_resource, gain_influence_and_health, prevent_drawing,
  gain_attack_per_ally, gain_influence_and_draw,
}
use rust_game_harry_potter.Executor.Progress.{
  SameCards, SameCards-refl, Advances, Advances-refl, Advances-trans, log-Advances,
  entity_mut-SameCards, move_to_back-SameCards, Advances->>=,
}
use rust_game_harry_potter.Executor.Progress.Tables.{modify_entity_resource-Advances}

-- A shuffle records one sample for each card but one.
rounds-length :
    {S T : Type 0} (random : EffectRoller S) (i : ℕ) (s : S) (f : ℕ → ℕ → T → T) (t : T)
    → Ensures (λ r. length r.0 ≡ i) (rounds random i s f t)
unfolding rounds
rounds-length random zero s f t = yields refl
rounds-length random (suc i) s f t =
    let drawn = random.sample_below s (suc i + 1) in
    Ensures-ensure (ltb (suc i + 1) u32_bound) _ _ λ fits.
      Ensures->>= (ok_or (below (suc i + 1) drawn.0) invalid_roll) _ λ result h.
        Ensures->>= (rounds random i drawn.1 f (f (suc i) result t)) _ λ rest k.
          yields (ap suc (Ensures-ok (rounds-length random i drawn.1 f (f (suc i) result t)) k))

count-sampled :
    (id : String) (xs : List ShuffleSample)
    → count consumes_random_sample (sampled id xs) ≡ length xs
count-sampled id [] = refl
count-sampled id (x ∷ xs) = ap suc (count-sampled id xs)

pub move_card-SameCards :
    (id : String) (from to : EffectZone) (w : EffectWorld)
    → Ensures (SameCards w) (move_card id from to w)
unfolding move_card
move_card-SameCards id from to w =
    Ensures->>= (ok_or (owner_in from (entity w id)) invalid_definition) _ λ owner h.
      Ensures-of (move_to_back id from to (some owner) w)
        λ v. move_to_back-SameCards id from to (some owner) w

module _ {S : Type 0} where
  pub move_entity-Advances :
      (id rule_id : String) (to : EffectZone) (t : Table S)
      → Ensures (λ r. Advances t r.0) (move_entity id rule_id to t)
  unfolding move_entity
  move_entity-Advances id rule_id to t =
      Ensures->>= (ok_or (entity t.world id) invalid_definition) _ λ found h.
        let e = found.1 in
        Ensures->>= (move_to_back e.id found.0 to e.owner_position t.world) _ λ w k. yields (
          log-Advances _ w t refl
            (move_to_back-SameCards e.id found.0 to e.owner_position t.world k))

  pub move_all-Advances :
      (ids : List String) (from to : EffectZone) (owner : Option ℕ) (rule_id : String) (t : Table S)
      → Ensures (Advances t) (move_all ids from to owner rule_id t)
  unfolding move_all
  move_all-Advances [] from to owner rule_id t = yields (Advances-refl t)
  move_all-Advances (id ∷ ids) from to owner rule_id t =
      Ensures->>= (move_to_back id from to owner t.world) _ λ w k.
        Ensures-weaken (move_all-Advances ids from to owner rule_id _) (λ u.
          Advances-trans
            (log-Advances _ w t refl (move_to_back-SameCards id from to owner t.world k)))

module _ {S : Type 0} (random : EffectRoller S) where
  -- The caller adds the samples of a refill to the count.
  pub refill_shuffled_pile-Advances :
      (owner : Option ℕ) (from to : EffectZone) (rule_id : String) (t : Table S)
      → Ensures
          (λ r. Advances t (record r.0 { rolls_consumed = r.0.rolls_consumed + r.1 }))
          (refill_shuffled_pile random owner from to rule_id t)
  unfolding refill_shuffled_pile fisher_yates
  refill_shuffled_pile-Advances owner from to rule_id t =
      let cards = map id_of (keep (owned_by owner) (entities_in t.world from)) in
      Ensures->>= (fisher_yates random (length cards) t.roller swap cards) _ λ run h.
        let shuffled = log (sampled rule_id run.0) (record t { roller = run.2 }) in
        Ensures->>= (move_all run.1 from to owner rule_id shuffled) _ λ u k.
          let moved = Ensures-ok (move_all-Advances run.1 from to owner rule_id shuffled) k in
          yields (record {
            fresh = sampled rule_id run.0 ++ moved.fresh;
            recorded = moved.recorded ∙ append_assoc t.outcomes (sampled rule_id run.0) moved.fresh;
            counted = omega (
              arith,
              moved.counted,
              count-append consumes_random_sample (sampled rule_id run.0) moved.fresh,
              count-sampled rule_id run.0,
              Ensures-ok (rounds-length random (length cards - 1) t.roller swap cards) h,
            );
            cards = moved.cards;
          })

  pub ensure_pile-Advances :
      (position : ℕ) (rule_id : String) (t : Table S)
      → Ensures (Advances t) (ensure_pile random position rule_id t)
  unfolding ensure_pile
  ensure_pile-Advances position rule_id t =
      Ensures-if (not (is_none (top_card_id t.world position hero_draw_pile))) _ _
        (λ e. yields (Advances-refl t))
        λ e.
          let refill =
            refill_shuffled_pile random (some position) hero_discard_pile hero_draw_pile rule_id
              t in
          Ensures->>= refill _ λ run h. yields (
            Ensures-ok
              (refill_shuffled_pile-Advances (some position) hero_discard_pile hero_draw_pile
                rule_id t)
              h)

  pub draw_loop-Advances :
      (n position : ℕ) (rule_id : String) (t : Table S)
      → Ensures (Advances t) (draw_loop random n position rule_id t)
  unfolding draw_loop move_card
  draw_loop-Advances zero position rule_id t = yields (Advances-refl t)
  draw_loop-Advances (suc n) position rule_id t =
      Advances->>= (ensure_pile random position rule_id t) _
        (ensure_pile-Advances position rule_id t)
        λ u h. elim (Option-cases (top_card_id u.world position hero_draw_pile)) [
          | inl e ↦ rw e (yields (Advances-refl u))
          | inr (id, e) ↦ rw e (
              Ensures->>= (move_card id hero_draw_pile hero_hand u.world) _ λ w k.
                let cards =
                  Ensures-ok (move_card-SameCards id hero_draw_pile hero_hand u.world) k in
                Ensures-weaken (draw_loop-Advances n position rule_id _)
                  (λ v. Advances-trans (log-Advances _ w u refl cards)))
        ]

  pub draw_cards-Advances :
      (id : String) (source : EffectSource) (amount : ℕ) (t : Table S)
      → Ensures (λ r. Advances t r.0) (draw_cards random id source amount t)
  unfolding draw_cards
  draw_cards-Advances id source amount t =
      Ensures-if (drawing_prevented t.world source.rules || blocked (entity t.world id)) _ _
        (λ e. yields (log-Advances _ t.world t refl (SameCards-refl t.world)))
        λ e. Ensures->>= (ok_or (owner_of (entity t.world id)) invalid_definition) _ λ position h.
          Advances->>= (draw_loop random amount position source.rule_id t) _
            (draw_loop-Advances amount position source.rule_id t) λ u k. yields (Advances-refl u)

  pub gain_influence_and_draw-Advances :
      (id : String) (source : EffectSource) (gained cards : ℕ) (t : Table S)
      → Ensures (λ r. Advances t r.0) (gain_influence_and_draw random id source gained cards t)
  unfolding gain_influence_and_draw
  gain_influence_and_draw-Advances id source gained cards t =
      Advances->>= (modify_entity_resource id source.rule_id influence (pos gained) t) _
        (modify_entity_resource-Advances id source.rule_id influence (pos gained) t)
        λ first h. draw_cards-Advances id source cards first.0

module _ {S : Type 0} where
  pub modify_resource-Advances :
      (id : String) (source : EffectSource) (r : EffectResource) (amount : ℤ) (t : Table S)
      → Ensures (λ x. Advances t x.0) (modify_resource id source r amount t)
  unfolding modify_resource
  modify_resource-Advances id source r (pos n) t =
      modify_entity_resource-Advances id source.rule_id r (pos n) t
  modify_resource-Advances id source r (negsuc n) t =
      Ensures-if (r == control && control_removal_prevented t.world source.rules) _ _
        (λ e. yields (log-Advances _ t.world t refl (SameCards-refl t.world)))
        (λ e. modify_entity_resource-Advances id source.rule_id r _ t)

  pub gain_influence_and_health-Advances :
      (id : String) (source : EffectSource) (gained healed : ℕ) (t : Table S)
      → Ensures (λ r. Advances t r.0) (gain_influence_and_health id source gained healed t)
  unfolding gain_influence_and_health
  gain_influence_and_health-Advances id source gained healed t =
      Advances->>= (modify_entity_resource id source.rule_id influence (pos gained) t) _
        (modify_entity_resource-Advances id source.rule_id influence (pos gained) t)
        λ first h. modify_entity_resource-Advances id source.rule_id health (pos healed) first.0

  pub prevent_drawing-Advances :
      (id rule_id : String) (t : Table S)
      → Ensures (λ r. Advances t r.0) (prevent_drawing id rule_id t)
  unfolding prevent_drawing
  prevent_drawing-Advances id rule_id t =
      Ensures->>= (ok_or (entity t.world id) invalid_definition) _ λ found h.
        Ensures->>=
          (ok_or (if found.1.kind == hero then found.1.owner_position else none) invalid_definition)
          _
          λ position k.
            yields (log-Advances _ _ t refl (entity_mut-SameCards id _ t.world (λ e. refl)))

  pub gain_attack_per_ally-Advances :
      (id : String) (source : EffectSource) (amount : ℕ) (t : Table S)
      → Ensures (λ r. Advances t r.0) (gain_attack_per_ally id source amount t)
  unfolding gain_attack_per_ally
  gain_attack_per_ally-Advances id source amount t =
      Ensures->>= (ok_or (entity t.world id) invalid_definition) _ λ found h.
        Ensures->>= (ok_or found.1.owner_position invalid_definition) _ λ owner k.
          let allies =
            count (λ card. owned_by (some owner) card && card_type card source.rules == some ally)
              (entities_in t.world hero_play_area) in
          Ensures-ensure (ltb (allies * amount) 32768) _ _ λ fits.
            modify_entity_resource-Advances id source.rule_id attack (pos (allies * amount)) t
