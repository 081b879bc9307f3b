-- ===== src/Executor/Draw.antt =====
-- Moving and drawing cards, and the operations of a card effect
-- (crates/game-domain/src/effects.rs, crates/game-domain/src/effects/reactions.rs).
pub mod Replay
use rust_game_harry_potter.Base.{
  ℕ, zero, suc, ◌+◌, ◌-◌, ◌*◌, String, Bool, true, false, ◌&&◌, ◌||◌, not, Option, none, some, List,
  [], ◌∷◌, ◌++◌, map, ◌==◌, nat_eq, option_eq, if◌then◌else◌, ltb, Result, ok, err, ◌>>=◌, ◌>>◌,
  ensure, ok_or, length, keep, is_none, is_some_and, count,
}
use mathlib.Core.Option
use rust_game_harry_potter.Effects.Zones.{
  EffectResource, resource_eq, control, health, influence, attack, EffectZone, hero_discard_pile,
  hero_draw_pile, hero_hand, hero_play_area,
}
use rust_game_harry_potter.Effects.Entities.{kind_eq, hero, EffectEntity}
use rust_game_harry_potter.Effects.Rules.{ℤ, pos, negsuc, EffectRule, card_type_eq, ally}
use rust_game_harry_potter.Effects.Outcomes.{
  EffectOutcome, random_sampled, moved, no_op, drawing_was_blocked, EffectNoOpReason,
  drawing_blocked, control_removal_blocked, EffectRoller, ShuffleSample, invalid_definition,
}
use rust_game_harry_potter.Shuffling.{fisher_yates}
use rust_game_harry_potter.Shuffling.Swaps.{swap}
use rust_game_harry_potter.World.Store.{
  EffectWorld, entities_in, entity, entity_mut, top_card_id, owned_by, id_of,
}
use rust_game_harry_potter.World.Moves.{Outcome, move_to_back, move_card}
use rust_game_harry_potter.Executor.Abilities.{
  card_type, drawing_prevented, control_removal_prevented, protected_health_loss,
}
use rust_game_harry_potter.Executor.Stun.{Table, modify_entity_resource}

pub record EffectSource : Type 0 where
  pub actor_position : ℕ
  pub rule_id : String
  pub rules : List EffectRule

abbrev pub sampled : String → List ShuffleSample → List EffectOutcome
sampled rule_id = map λ x. random_sampled rule_id x.upper_exclusive x.result

abbrev pub blocked : Option (EffectZone × EffectEntity) → Bool
blocked found = is_some_and found (λ r. r.1.drawing_blocked)

abbrev pub owner_of : Option (EffectZone × EffectEntity) → Option ℕ
owner_of found = Option.bind found (λ r. r.1.owner_position)

module _ {S : Type 0} where
  abbrev pub log : List EffectOutcome → Table S → Table S
  log new t = record t { outcomes = t.outcomes ++ new }

  unfoldable pub move_entity : String → String → EffectZone → Table S → Outcome (Table S × Option ℕ)
  move_entity entity_id rule_id to t = do
    found ← ok_or (entity t.world entity_id) invalid_definition
    let e = found.1
    w ← move_to_back e.id found.0 to e.owner_position t.world
    ok (log (moved rule_id e.id e.owner_position found.0 to ∷ []) (record t { world = w }), none)

  -- `for card_id in cards { move_to_back; push }`
  unfoldable pub move_all :
      List String → EffectZone → EffectZone → Option ℕ → String → Table S → Outcome (Table S)
  move_all [] from to owner rule_id t = ok t
  move_all (id ∷ ids) from to owner rule_id t = do
    w ← move_to_back id from to owner t.world
    move_all ids from to owner rule_id
        (log (moved rule_id id owner from to ∷ []) (record t { world = w }))

module _ {S : Type 0} (random : EffectRoller S) where
  unfoldable pub refill_shuffled_pile :
      Option ℕ → EffectZone → EffectZone → String → Table S → Outcome (Table S × ℕ)
  unfolding move_all
  refill_shuffled_pile owner from to rule_id t = do
    let cards = map id_of (keep (owned_by owner) (entities_in t.world from))
    run ← fisher_yates random (length cards) t.roller swap cards
    done ←
        move_all run.1 from to owner rule_id
          (log (sampled rule_id run.0) (record t { roller = run.2 }))
    ok (done, length cards - 1)

  -- The draw pile is refilled from the discard pile if it is empty.
  unfoldable pub ensure_pile : ℕ → String → Table S → Outcome (Table S)
  unfolding refill_shuffled_pile
  ensure_pile position rule_id t =
      if not (is_none (top_card_id t.world position hero_draw_pile)) then ok t else do
        run ← refill_shuffled_pile (some position) hero_discard_pile hero_draw_pile rule_id t
        ok (record run.0 { rolls_consumed = run.0.rolls_consumed + run.1 })

  -- The loop of `draw_cards`; it breaks when no card is left to draw.
  unfoldable pub draw_loop : ℕ → ℕ → String → Table S → Outcome (Table S)
  unfolding ensure_pile
  draw_loop zero position rule_id t = ok t
  draw_loop (suc n) position rule_id t = do
    t1 ← ensure_pile position rule_id t
    elim (top_card_id t1.world position hero_draw_pile) [
      | none ↦ ok t1
      | some id ↦ do
        w ← move_card id hero_draw_pile hero_hand t1.world
        draw_loop n position rule_id (
            log (moved rule_id id (some position) hero_draw_pile hero_hand ∷ [])
              (record t1 { world = w }))
    ]

  unfoldable pub draw_cards : String → EffectSource → ℕ → Table S → Outcome (Table S × Option ℕ)
  unfolding draw_loop
  draw_cards entity_id source amount t =
      if drawing_prevented t.world source.rules || blocked (entity t.world entity_id)
      then ok (log (no_op source.rule_id drawing_blocked ∷ []) t, none)
      else do
        position ← ok_or (owner_of (entity t.world entity_id)) invalid_definition
        done ← draw_loop amount position source.rule_id t
        ok (done, none)

module _ {S : Type 0} where
  -- The `modify_resource` of reactions.rs, which guards `modify_entity_resource`.
  unfoldable pub modify_resource :
      String → EffectSource → EffectResource → ℤ → Table S → Outcome (Table S × Option ℕ)
  modify_resource entity_id source r amount t = elim amount [
    | pos n ↦ modify_entity_resource entity_id source.rule_id r (pos n) t
    | negsuc n ↦
        if r == control && control_removal_prevented t.world source.rules
        then ok (log (no_op source.rule_id control_removal_blocked ∷ []) t, none)
        else modify_entity_resource entity_id source.rule_id r
            (if r == health
              then protected_health_loss t.world entity_id source.rule_id source.rules (negsuc n)
              else negsuc n)
            t
  ]

  unfoldable pub gain_influence_and_health :
      String → EffectSource → ℕ → ℕ → Table S → Outcome (Table S × Option ℕ)
  gain_influence_and_health entity_id source gained healed t = do
    first ← modify_entity_resource entity_id source.rule_id influence (pos gained) t
    modify_entity_resource entity_id source.rule_id health (pos healed) first.0

  unfoldable pub prevent_drawing : String → String → Table S → Outcome (Table S × Option ℕ)
  prevent_drawing entity_id rule_id t = do
    found ← ok_or (entity t.world entity_id) invalid_definition
    position ←
        ok_or (if found.1.kind == hero then found.1.owner_position else none) invalid_definition
    ok (
      log (drawing_was_blocked rule_id entity_id position ∷ []) (record t {
        world = entity_mut entity_id (λ e. record e { drawing_blocked = true }) t.world;
      }),
      none,
    )

  -- `GainAttackPerAllyPlayed`: the amount must fit an `i16`.
  unfoldable pub gain_attack_per_ally :
      String → EffectSource → ℕ → Table S → Outcome (Table S × Option ℕ)
  gain_attack_per_ally entity_id source amount t = do
    found ← ok_or (entity t.world entity_id) invalid_definition
    owner ← ok_or found.1.owner_position invalid_definition
    let allies =
        count (λ card. owned_by (some owner) card && card_type card source.rules == some ally)
          (entities_in t.world hero_play_area)
    ensure (ltb (allies * amount) 32768) invalid_definition
    modify_entity_resource entity_id source.rule_id attack (pos (allies * amount)) t

  unfoldable pub gain_influence_and_draw :
      EffectRoller S → String → EffectSource → ℕ → ℕ → Table S → Outcome (Table S × Option ℕ)
  gain_influence_and_draw random entity_id source gained cards t = do
    first ← modify_entity_resource entity_id source.rule_id influence (pos gained) t
    draw_cards random entity_id source cards first.0
