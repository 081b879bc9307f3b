-- ===== src/Executor/Replay.antt =====
-- Recorded outcomes reproduce the execution that recorded them
-- (`apply_effect_outcomes` against the operations of crates/game-domain/src/effects.rs).
use mathlib.Core.List.{append-nil, append_assoc}
use rust_game_harry_potter.Base.{
  ℕ, ◌≡◌, refl, sym, String, true, Option, some, List, [], ◌∷◌, ◌++◌, nat_eq, string_eq, option_eq,
  ok, ◌>>=◌, >>=-chain, arith,
}
use rust_game_harry_potter.Effects.Zones.{
  EffectResource, resource_eq, EffectZone, zone_eq, supports_resource,
}
use rust_game_harry_potter.Effects.Entities.{EffectEntity, kind_eq, resource}
use rust_game_harry_potter.Effects.Outcomes.{EffectOutcome, EffectChangeCause, resource_changed}
use rust_game_harry_potter.World.Store.{EffectWorld, entity}
use rust_game_harry_potter.Executor.Stun.{Table, set_resource}
use rust_game_harry_potter.Executor.Apply.{
  apply_resource_changed, apply_outcome, apply_effect_outcomes,
}

-- Replaying two stretches of outcomes is replaying one after the other.
pub apply_effect_outcomes-append :
    (os ps : List EffectOutcome) (w : EffectWorld)
    → apply_effect_outcomes (os ++ ps) w
      ≡ (apply_effect_outcomes os w >>= λ v. apply_effect_outcomes ps v)
unfolding apply_effect_outcomes
apply_effect_outcomes-append [] ps w = refl
apply_effect_outcomes-append (o ∷ os) ps w =
    >>=-chain (apply_outcome o w) _ _ _ λ v. apply_effect_outcomes-append os ps v

-- The outcomes recorded between two tables lead from the one world to the other.
pub record Replays {S : Type 0} (t u : Table S) : Type 0 where
  pub fresh : List EffectOutcome
  pub recorded : u.outcomes ≡ t.outcomes ++ fresh
  pub applied : apply_effect_outcomes fresh t.world ≡ ok u.world

module _ {S : Type 0} where
  pub Replays-refl : (t : Table S) → Replays t t
  unfolding apply_effect_outcomes
  Replays-refl t = record { fresh = []; recorded = sym (append-nil t.outcomes); applied = refl }

  pub Replays-trans : {t u v : Table S} → Replays t u → Replays u v → Replays t v
  Replays-trans {t} {u} {v} p q = record {
    fresh = p.fresh ++ q.fresh;
    recorded = cc (p.recorded, q.recorded, append_assoc t.outcomes p.fresh q.fresh);
    applied = rw (apply_effect_outcomes-append p.fresh q.fresh t.world, p.applied) q.applied;
  }

  -- A write of a resource that the entity's zone supports.
  pub set_resource-Replays :
      (rule_id id : String) (position : Option ℕ) (r : EffectResource) (before after : ℕ)
      (cause : EffectChangeCause) (t : Table S) {z : EffectZone} {e : EffectEntity}
      → entity t.world id ≡ some (z, e)
      → e.owner_position ≡ position
      → supports_resource z r ≡ true
      → resource e r ≡ before
      → Replays t (set_resource rule_id id position r before after cause t)
  unfolding apply_effect_outcomes apply_resource_changed
  set_resource-Replays rule_id id position r before after cause t {z} {e} found own can was =
      record {
        fresh = resource_changed rule_id id position r before after cause ∷ [];
        recorded = refl;
        applied = ground arith;
      }
