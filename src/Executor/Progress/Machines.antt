-- ===== src/Executor/Progress/Machines.antt =====
-- What is enqueued after an effect, and the effects that reveal cards, respect the cards and the
-- record (crates/game-domain/src/effects.rs, effects/reactions.rs, effects/game_three.rs).
use rust_game_harry_potter.Base.{
  ℕ, ◌+◌, refl, String, not, none, some, List, [], ◌∷◌, map, nat_eq, ok_or, Ensures, yields,
  Ensures->>=, Ensures-ensure, Ensures-if, Ensures-ok, length, ltb, is_none, is_empty, first, inl,
  inr, Option-cases, string_eq, option_eq,
}
use mathlib.Core.Option
use rust_game_harry_potter.Effects.Zones.{
  zone_eq, heroes, active_villains, hero_draw_pile, hero_discard_pile, dark_arts_deck,
  dark_arts_discard,
}
use rust_game_harry_potter.Effects.Outcomes.{EffectRoller, EffectOutcome, invalid_definition}
use rust_game_harry_potter.Effects.Choices.{EffectCursor}
use rust_game_harry_potter.World.Store.{entity, entities_in, top_card_id, id_of}
use rust_game_harry_potter.World.Moves.{move_to_back}
use rust_game_harry_potter.Executor.Selectors.{within}
use rust_game_harry_potter.Executor.Reactions.{react_all}
use rust_game_harry_potter.Executor.TurnStates.{change_turn_state}
use rust_game_harry_potter.Executor.Draw.{move_entity}
use rust_game_harry_potter.Executor.Machine.{
  Context, Machine, since, max_execution_steps, copied_effects, enqueue_copied_effects,
  enqueue_reactions,
}
use rust_game_harry_potter.Executor.Machine.Bonuses.{
  bonuses_of, apply_bonuses, enqueue_other_ally_bonuses,
}
use rust_game_harry_potter.Executor.Machine.Abilities.{
  ability_of, ability_recipient, waits, activate_hero, activate_heroes, activate_all,
  enqueue_hero_abilities,
}
use rust_game_harry_potter.Executor.Machine.Reveals.{cost_of}
use rust_game_harry_potter.Executor.Machine.Reveals.{
  limit_villains, limit_villain_attack, refill_if, reveal_top_card,
}
use rust_game_harry_potter.Executor.Machine.Defeats.{free_rule, reveal_dark_arts}
use rust_game_harry_potter.Executor.Progress.{
  Advances-trans, Advances-log, log-Advances, move_to_back-SameCards, Evolves, Evolves-refl,
  Evolves->>=, enqueue-Evolves, table-Evolves,
}
use rust_game_harry_potter.Executor.Progress.Tables.{change_turn_state-Advances}
use rust_game_harry_potter.Executor.Progress.Effects.{move_entity-Advances}
use rust_game_harry_potter.Executor.Progress.Operations.{
  apply_bonuses-Advances, limit_villains-Advances, refill_if-Advances,
}

module _ {S : Type 0} where
  pub enqueue_copied_effects-Evolves :
      (start : ℕ) (m : Machine S) → Ensures (Evolves m) (enqueue_copied_effects start m)
  unfolding enqueue_copied_effects
  enqueue_copied_effects-Evolves start m =
      Ensures->>= (copied_effects m.table.world (since start m)) _
        λ queue h. yields (enqueue-Evolves _ m)

  pub enqueue_reactions-Evolves :
      (c : Context) (start : ℕ) (m : Machine S) → Ensures (Evolves m) (enqueue_reactions c start m)
  unfolding enqueue_reactions
  enqueue_reactions-Evolves c start m =
      Ensures->>= (react_all c.actor_position m.table.world c.rules (since start m)) _
        λ reactions h.
          Ensures-ensure (not (ltb max_execution_steps (length reactions + length m.queue))) _ _
            λ fits. yields (enqueue-Evolves _ m)

  pub enqueue_other_ally_bonuses-Evolves :
      (c : Context) (start : ℕ) (m : Machine S)
      → Ensures (Evolves m) (enqueue_other_ally_bonuses c start m)
  unfolding enqueue_other_ally_bonuses
  enqueue_other_ally_bonuses-Evolves c start m =
      let bonuses = bonuses_of m.table.world c.rules (since start m) in
      Ensures->>= (apply_bonuses c.rules bonuses m.table) _ λ t h.
        yields
          (table-Evolves m m.queue (Ensures-ok (apply_bonuses-Advances c.rules bonuses m.table) h))

  activate_hero-Evolves :
      (c : Context) (outcome : EffectOutcome) (id : String) (m : Machine S)
      → Ensures (λ r. Evolves m r.1) (activate_hero c outcome id m)
  unfolding activate_hero
  activate_hero-Evolves c outcome id m =
      Ensures->>= (ok_or (entity m.table.world id) invalid_definition) _ λ found h.
        elim (Option-cases (ability_of c.rules found.1)) [
          | inl e ↦ rw e (yields (Evolves-refl m))
          | inr ((state, rule_id, strategy), e) ↦ rw e (
              Ensures->>= (ability_recipient c m.table.world found.1 state strategy rule_id outcome)
                _
                λ benefits k. elim (Option-cases benefits) [
                  | inl x ↦ rw x (yields (Evolves-refl m))
                  | inr ((position, after), x) ↦ rw x (
                      Ensures->>= (change_turn_state id rule_id after m.table) _ λ t i.
                        let a =
                          Ensures-ok (change_turn_state-Advances id rule_id after m.table) i in
                        Ensures-if (waits strategy) _ _ (λ x. yields (table-Evolves m _ a))
                          (λ x. yields (table-Evolves m m.queue a)))
                ])
        ]

  activate_heroes-Evolves :
      (c : Context) (outcome : EffectOutcome) (ids : List String) (m : Machine S)
      → Ensures (λ r. Evolves m r.1) (activate_heroes c outcome ids m)
  unfolding activate_heroes
  activate_heroes-Evolves c outcome [] m = yields (Evolves-refl m)
  activate_heroes-Evolves c outcome (id ∷ ids) m =
      Evolves->>= (activate_hero c outcome id m) _ (activate_hero-Evolves c outcome id m) λ one h.
        Evolves->>= (activate_heroes c outcome ids one.1) _
          (activate_heroes-Evolves c outcome ids one.1) λ rest k. yields (Evolves-refl rest.1)

  activate_all-Evolves :
      (c : Context) (outcomes : List EffectOutcome) (ids : List String) (m : Machine S)
      → Ensures (λ r. Evolves m r.1) (activate_all c outcomes ids m)
  unfolding activate_all
  activate_all-Evolves c [] ids m = yields (Evolves-refl m)
  activate_all-Evolves c (o ∷ os) ids m =
      Evolves->>= (activate_heroes c o ids m) _ (activate_heroes-Evolves c o ids m) λ one h.
        Evolves->>= (activate_all c os ids one.1) _ (activate_all-Evolves c os ids one.1)
          λ rest k. yields (Evolves-refl rest.1)

  pub enqueue_hero_abilities-Evolves :
      (c : Context) (start : ℕ) (m : Machine S)
      → Ensures (Evolves m) (enqueue_hero_abilities c start m)
  unfolding enqueue_hero_abilities
  enqueue_hero_abilities-Evolves c start m =
      let ids = map id_of (entities_in m.table.world heroes) in
      Evolves->>= (activate_all c (since start m) ids m) _
        (activate_all-Evolves c (since start m) ids m) λ done h. yields (enqueue-Evolves _ done.1)

  pub limit_villain_attack-Evolves :
      (cursor : EffectCursor) (maximum : ℕ) (m : Machine S)
      → Ensures (λ r. Evolves m r.0) (limit_villain_attack cursor maximum m)
  unfolding limit_villain_attack
  limit_villain_attack-Evolves cursor maximum m =
      let ids = map id_of (entities_in m.table.world active_villains) in
      Ensures-ensure (within 1 16 maximum) _ _ λ fits.
        Ensures->>= (limit_villains cursor.rule_id maximum ids m.table) _ λ t h. yields (
          table-Evolves m m.queue
            (Ensures-ok (limit_villains-Advances cursor.rule_id maximum ids m.table) h))

module _ {S : Type 0} (random : EffectRoller S) where
  pub reveal_top_card-Evolves :
      (cursor : EffectCursor) (position least : ℕ) (m : Machine S)
      → Ensures (λ r. Evolves m r.0) (reveal_top_card random cursor position least m)
  unfolding reveal_top_card
  reveal_top_card-Evolves cursor position least m =
      let missing = is_none (top_card_id m.table.world position hero_draw_pile) in
      let refill =
        refill_if random missing (some position) hero_discard_pile hero_draw_pile cursor.rule_id
          m.table in
      Ensures->>= refill _ λ t h.
        let refilled =
          Ensures-ok
            (refill_if-Advances random missing (some position) hero_discard_pile hero_draw_pile
              cursor.rule_id m.table)
            h in
        elim (Option-cases (top_card_id t.world position hero_draw_pile)) [
          | inl e ↦ rw e (yields (table-Evolves m m.queue (Advances-log refilled _ refl)))
          | inr (id, e) ↦ rw e (
              Ensures-if (ltb (cost_of (entity t.world id)) least) _ _
                (λ x. yields (table-Evolves m m.queue (Advances-log refilled _ refl)))
                (λ x. Ensures->>= (move_entity id cursor.rule_id hero_discard_pile _) _ λ gone k.
                  let moved =
                    Ensures-ok (move_entity-Advances id cursor.rule_id hero_discard_pile _) k in
                  yields (table-Evolves m _ (Advances-trans (Advances-log refilled _ refl) moved))))
        ]

  pub reveal_dark_arts-Evolves :
      (c : Context) (cursor : EffectCursor) (position : ℕ) (m : Machine S)
      → Ensures (λ r. Evolves m r.0) (reveal_dark_arts random c cursor position m)
  unfolding reveal_dark_arts
  reveal_dark_arts-Evolves c cursor position m =
      let missing = is_empty (entities_in m.table.world dark_arts_deck) in
      let refill =
        refill_if random missing none dark_arts_discard dark_arts_deck cursor.rule_id m.table in
      Ensures->>= refill _ λ t h.
        let refilled =
          Ensures-ok
            (refill_if-Advances random missing none dark_arts_discard dark_arts_deck cursor.rule_id
              m.table)
            h in
        Ensures->>= (ok_or (first (entities_in t.world dark_arts_deck)) invalid_definition) _
          λ card i.
            Ensures->>=
              (ok_or (Option.bind card.effect_rule_id (free_rule c.rules)) invalid_definition) _
              λ rule j.
                Ensures->>= (move_to_back card.id dark_arts_deck dark_arts_discard none t.world) _
                  λ w k.
                    let cards =
                      move_to_back-SameCards card.id dark_arts_deck dark_arts_discard none t.world
                        k in
                    yields
                      (table-Evolves m _ (Advances-trans refilled (log-Advances _ w t refl cards)))
