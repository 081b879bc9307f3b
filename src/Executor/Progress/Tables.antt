-- ===== src/Executor/Progress/Tables.antt =====
-- The operations on resources and on turn states respect the cards and the record
-- (crates/game-domain/src/effects.rs, crates/game-domain/src/effects/game_three.rs).
use rust_game_harry_potter.Base.{
  ℕ, refl, String, ◌&&◌, Option, none, List, [], ◌∷◌, ◌==◌, nat_eq, ok_or, Ensures, yields,
  Ensures->>=, Ensures-ensure, Ensures-if, Ensures-weaken, contains,
}
use rust_game_harry_potter.Effects.Zones.{
  EffectResource, resource_eq, zone_eq, attack, influence, control,
}
use rust_game_harry_potter.Effects.Entities.{
  EffectTurnState, turn_state_eq, resource, resource_limit, with_resource, kind_eq, villain,
}
use rust_game_harry_potter.Effects.Zones
use rust_game_harry_potter.Effects.Rules.{ℤ}
use rust_game_harry_potter.Effects.Outcomes.{EffectChangeCause, effect, invalid_definition}
use rust_game_harry_potter.World.Store.{entity, entities, entities_in}
use rust_game_harry_potter.Executor.Stun.{
  Table, stun_rule_id, set_resource, reset_one, apply_stun_resource_reset, only_one, finish_stun,
  stun, modify_entity_resource, changed, newly_stunned,
}
use rust_game_harry_potter.Executor.Draw.{EffectSource}
use rust_game_harry_potter.Executor.TurnStates.{
  set_turn_state, change_turn_state, change_all, begin_turn, renewals, suppress_villain,
}
use rust_game_harry_potter.Executor.Progress.{
  Advances, Advances-refl, Advances-trans, log-Advances, world-Advances, entity_mut-SameCards,
  Advances->>=,
}

module _ {S : Type 0} where
  pub set_resource-Advances :
      (rule_id id : String) (position : Option ℕ) (r : EffectResource) (before after : ℕ)
      (cause : EffectChangeCause) (t : Table S)
      → Advances t (set_resource rule_id id position r before after cause t)
  set_resource-Advances rule_id id position r before after cause t =
      log-Advances _ _ t refl (entity_mut-SameCards id (with_resource r after) t.world (λ e. refl))

  reset_one-Advances :
      (r : EffectResource) (id : String) (position : ℕ) (t : Table S)
      → Ensures (Advances t) (reset_one r id position t)
  unfolding reset_one
  reset_one-Advances r id position t =
      Ensures->>= (ok_or (entity t.world id) invalid_definition) _ λ found h.
        Ensures-if (resource found.1 r == 0) _ _ (λ e. yields (Advances-refl t))
          (λ e. yields (set_resource-Advances stun_rule_id id _ r _ 0 effect t))

  pub apply_stun_resource_reset-Advances :
      (id : String) (position : ℕ) (t : Table S)
      → Ensures (λ r. Advances t r.0) (apply_stun_resource_reset id position t)
  unfolding apply_stun_resource_reset
  apply_stun_resource_reset-Advances id position t =
      Advances->>= (reset_one attack id position t) _ (reset_one-Advances attack id position t)
        λ u h.
          Advances->>= (reset_one influence id position u) _
            (reset_one-Advances influence id position u) λ v k. yields (Advances-refl v)

  pub finish_stun-Advances : (t : Table S) → Ensures (Advances t) (finish_stun t)
  unfolding finish_stun
  finish_stun-Advances t =
      Ensures->>= (ok_or (only_one (entities_in t.world Zones.active_location)) invalid_definition)
        _
        λ l h. Ensures->>= (ok_or (resource_limit l control) invalid_definition) _ λ maximum k.
          Ensures->>= (ok_or (entity t.world l.id) invalid_definition) _
            λ found i. yields (set_resource-Advances stun_rule_id l.id none control _ _ effect t)

  pub stun-Advances :
      (id : String) (owner : Option ℕ) (t : Table S)
      → Ensures (λ r. Advances t r.0) (stun id owner t)
  unfolding stun
  stun-Advances id owner t = Ensures->>= (ok_or owner invalid_definition) _ λ position h.
      Advances->>= (apply_stun_resource_reset id position t) _
        (apply_stun_resource_reset-Advances id position t)
        λ reset k.
          Ensures-if reset.1 _ _ (λ e. yields (Advances-refl reset.0))
            λ e.
              Advances->>= (finish_stun reset.0) _ (finish_stun-Advances reset.0)
                λ u i. yields (Advances-refl u)

  pub modify_entity_resource-Advances :
      (id rule_id : String) (r : EffectResource) (amount : ℤ) (t : Table S)
      → Ensures (λ x. Advances t x.0) (modify_entity_resource id rule_id r amount t)
  unfolding modify_entity_resource
  modify_entity_resource-Advances id rule_id r amount t =
      Ensures->>= (ok_or (entity t.world id) invalid_definition) _ λ found h.
        let e = found.1 in
        let written =
          set_resource-Advances rule_id e.id e.owner_position r (resource e r) (changed e r amount)
            effect t in
        Ensures-if (newly_stunned e r (changed e r amount)) _ _
          (λ x.
            Ensures-weaken (stun-Advances e.id e.owner_position _) (λ a. Advances-trans written))
          (λ x. yields written)

  pub change_turn_state-Advances :
      (id rule_id : String) (after : EffectTurnState) (t : Table S)
      → Ensures (Advances t) (change_turn_state id rule_id after t)
  unfolding change_turn_state
  change_turn_state-Advances id rule_id after t =
      let cards = entity_mut-SameCards id (set_turn_state after) t.world (λ e. refl) in
      Ensures->>= (ok_or (entity t.world id) invalid_definition) _ λ found h.
        Ensures->>= (ok_or found.1.turn_state invalid_definition) _ λ before k.
          Ensures-if (before == after) _ _ (λ e. yields (world-Advances _ t cards))
            (λ e. yields (log-Advances _ _ t refl cards))

  pub change_all-Advances :
      (rule_id : String) (changes : List (String × EffectTurnState)) (t : Table S)
      → Ensures (Advances t) (change_all rule_id changes t)
  unfolding change_all
  change_all-Advances rule_id [] t = yields (Advances-refl t)
  change_all-Advances rule_id ((id, after) ∷ changes) t =
      Advances->>= (change_turn_state id rule_id after t) _
        (change_turn_state-Advances id rule_id after t) λ u h. change_all-Advances rule_id changes u

  pub begin_turn-Advances :
      (position : ℕ) (t : Table S) → Ensures (Advances t) (begin_turn position t)
  unfolding begin_turn
  begin_turn-Advances position t = change_all-Advances _ (renewals position (entities t.world)) t

  pub suppress_villain-Advances :
      (id : String) (source : EffectSource) (t : Table S)
      → Ensures (λ r. Advances t r.0) (suppress_villain id source t)
  unfolding suppress_villain
  suppress_villain-Advances id source t =
      Ensures->>= (ok_or (entity t.world id) invalid_definition) _ λ found h.
        Ensures-ensure (found.0 == Zones.active_villains && found.1.kind == villain) _ _ λ fits.
          Ensures->>= (ok_or found.1.turn_state invalid_definition) _ λ state k.
            Ensures-if (contains state.suppressed_by source.actor_position) _ _
              (λ e. yields (Advances-refl t))
              λ e.
                Advances->>= (change_turn_state id source.rule_id _ t) _
                  (change_turn_state-Advances id source.rule_id _ t) λ u i. yields (Advances-refl u)
