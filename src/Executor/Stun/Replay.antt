-- ===== src/Executor/Stun/Replay.antt =====
-- Changing a resource, with the stun that it may cause, records what it does
-- (`modify_entity_resource` against `apply_effect_outcomes` of crates/game-domain/src/effects.rs).
use rust_game_harry_potter.Base.{
  ℕ, ◌≡◌, refl, sym, ◌∙◌, subst, inl, inr, String, Bool, true, Option, none, some, List, [], ◌∷◌,
  ◌==◌, nat_eq, string_eq, option_eq, ok, ok_or, ok_or-eq-ok, Ensures, yields, fails, Ensures->>=,
  Ensures-ok, Ensures-if, Ensures-weaken, find, arith, Bool-cases,
}
use rust_game_harry_potter.Base.Counting.{find-holds}
use rust_game_harry_potter.Effects.Zones.{
  EffectResource, resource_eq, attack, control, influence, EffectZone, zone_eq, heroes,
  active_location, supports_resource,
}
use rust_game_harry_potter.Effects.Entities.{
  EffectEntity, kind_eq, hero, resource, resource_limit, with_resource,
}
use rust_game_harry_potter.Effects.Rules.{ℤ}
use rust_game_harry_potter.Effects.Outcomes.{EffectChangeCause, effect, invalid_definition}
use rust_game_harry_potter.World.Store.{EffectWorld, entities_in, entity, find_over, has_id}
use rust_game_harry_potter.World.Lookup.{entity-find, entity-entity_mut, entity_mut_lem}
use rust_game_harry_potter.World.Census.{entities_in-set_zone_ne}
use rust_game_harry_potter.Executor.Stun.{
  Table, stun_rule_id, set_resource, reset_one, apply_stun_resource_reset, only_one, finish_stun,
  stun, modify_entity_resource, changed, newly_stunned,
}
use rust_game_harry_potter.Executor.Replay.{
  Replays, Replays-refl, Replays-trans, set_resource-Replays,
}

-- The hero that a stun is about, in the zone of the heroes.
record HeroAt (w : EffectWorld) (id : String) (position : ℕ) : Type 0 where
  hero : EffectEntity
  at : entity w id ≡ some (heroes, hero)
  own : hero.owner_position ≡ some position

-- A replayed stretch that keeps the hero in place and leaves the active location alone.
record HeroStep {S : Type 0} (id : String) (position : ℕ) (t u : Table S) : Type 0 where
  replays : Replays t u
  stays : HeroAt u.world id position
  location : entities_in u.world active_location ≡ entities_in t.world active_location

module _ {S : Type 0} where
  set_resource-HeroStep :
      (rule_id id : String) (position : ℕ) (r : EffectResource) (before after : ℕ)
      (cause : EffectChangeCause) (t : Table S)
      → (h : HeroAt t.world id position) → supports_resource heroes r ≡ true
      → resource h.hero r ≡ before
      → HeroStep id position t (set_resource rule_id id (some position) r before after cause t)
  set_resource-HeroStep rule_id id position r before after cause t h can was = record {
    replays =
        set_resource-Replays rule_id id (some position) r before after cause t h.at h.own can was;
    stays = record {
      hero = with_resource r after h.hero;
      at = entity-entity_mut id (with_resource r after) t.world h.at (λ x. refl);
      own = h.own;
    };
    location =
        rw (entity_mut_lem id (with_resource r after) t.world h.at)
          (entities_in-set_zone_ne heroes active_location _ t.world (λ e. cc));
  }

  reset_one-HeroStep :
      (r : EffectResource) (id : String) (position : ℕ) (t : Table S)
      → HeroAt t.world id position
      → supports_resource heroes r ≡ true
      → Ensures (HeroStep id position t) (reset_one r id position t)
  unfolding reset_one
  reset_one-HeroStep r id position t h can = elim (Bool-cases (resource h.hero r == 0)) [
    | inl e ↦
        rw (h.at, e) (yields (record { replays = Replays-refl t; stays = h; location = refl }))
    | inr e ↦
        rw (h.at, e)
          (yields (set_resource-HeroStep stun_rule_id id position r _ 0 effect t h can refl))
  ]

only_one-eq : (es : List EffectEntity) {l : EffectEntity} → only_one es ≡ some l → es ≡ l ∷ []
only_one-eq [] h = cc
only_one-eq (e ∷ []) h = cc
only_one-eq (e ∷ d ∷ es) h = cc

find_only : (l : EffectEntity) → find (has_id l.id) (l ∷ []) ≡ some l
find_only l = ground arith

only_location-found :
    (w : EffectWorld) {l : EffectEntity}
    → only_one (entities_in w active_location) ≡ some l
    → entity w l.id ≡ some (active_location, l)
unfolding entity find_over
only_location-found w {l} h =
    let only : find (has_id l.id) (entities_in w active_location) ≡ some l =
      rw (only_one-eq (entities_in w active_location) h) (find_only l) in
    rw (find_over, only) refl

-- The active location belongs to no hero.
abbrev pub FreeLocation : EffectWorld → Type 0
FreeLocation w =
    (l : EffectEntity) → only_one (entities_in w active_location) ≡ some l → l.owner_position ≡ none

module _ {S : Type 0} where
  finish_stun-Replays : (t : Table S) → FreeLocation t.world → Ensures (Replays t) (finish_stun t)
  unfolding finish_stun
  finish_stun-Replays t free =
      Ensures->>= (ok_or (only_one (entities_in t.world active_location)) invalid_definition) _
        λ l e. Ensures->>= (ok_or (resource_limit l control) invalid_definition) _ λ m f.
          Ensures->>= (ok_or (entity t.world l.id) invalid_definition) _ λ found g.
            let only = ok_or-eq-ok _ _ e in
            yields (
              set_resource-Replays stun_rule_id l.id none control _ _ effect t
                (only_location-found t.world only) (free l only) refl refl)

  HeroStep-trans :
      {id : String} {position : ℕ} {t u v : Table S}
      → HeroStep id position t u
      → HeroStep id position u v
      → HeroStep id position t v
  HeroStep-trans p q = record {
    replays = Replays-trans p.replays q.replays;
    stays = q.stays;
    location = q.location ∙ p.location;
  }

  reset-HeroStep :
      (id : String) (position : ℕ) (t : Table S)
      → HeroAt t.world id position
      → Ensures
          (λ (r : Table S × Bool). HeroStep id position t r.0)
          (apply_stun_resource_reset id position t)
  unfolding apply_stun_resource_reset
  reset-HeroStep id position t h = Ensures->>= (reset_one attack id position t) _ λ t1 e.
      let first = Ensures-ok (reset_one-HeroStep attack id position t h refl) e in
      Ensures->>= (reset_one influence id position t1) _ λ t2 f.
        let second = Ensures-ok (reset_one-HeroStep influence id position t1 first.stays refl) f in
        yields (HeroStep-trans first second)

  stun-Replays :
      (id : String) (position : ℕ) (t : Table S)
      → HeroAt t.world id position
      → FreeLocation t.world
      → Ensures (λ (r : Table S × Option ℕ). Replays t r.0) (stun id (some position) t)
  unfolding stun
  stun-Replays id position t h free =
      Ensures->>= (apply_stun_resource_reset id position t) _ λ reset e.
        let first = Ensures-ok (reset-HeroStep id position t h) e in
        let still : FreeLocation reset.0.world = λ l only. free l (rw (← first.location) only) in
        Ensures-if reset.1 _ _ (λ _. yields first.replays)
          λ _. Ensures->>= (finish_stun reset.0) _ λ done f.
            yields (Replays-trans first.replays (Ensures-ok (finish_stun-Replays reset.0 still) f))

  -- The stunned branch: the change of health, then the stun.
  stunned-Replays :
      (rule_id : String) (e : EffectEntity) (r : EffectResource) (after : ℕ) (t : Table S)
      (owner : Option ℕ)
      → e.owner_position ≡ owner
      → entity t.world e.id ≡ some (heroes, e)
      → supports_resource heroes r ≡ true
      → FreeLocation t.world
      → Ensures
          (λ (p : Table S × Option ℕ). Replays t p.0)
          (stun e.id owner (set_resource rule_id e.id owner r (resource e r) after effect t))
  unfolding stun
  stunned-Replays rule_id e r after t none own found can free = fails
  stunned-Replays rule_id e r after t (some position) own found can free =
      let h : HeroAt t.world e.id position = record { hero = e; at = found; own = own } in
      let first =
        set_resource-HeroStep rule_id e.id position r (resource e r) after effect t h can refl in
      Ensures-weaken
        (stun-Replays e.id position _ first.stays (λ l only. free l (rw (← first.location) only)))
        λ p later. Replays-trans first.replays later

  -- Changing a resource that the zone of the entity supports, stun included.
  modify_entity_resource_lem :
      (entity_id rule_id : String) (r : EffectResource) (amount : ℤ) (t : Table S) {z : EffectZone}
      {e : EffectEntity}
      → entity t.world entity_id ≡ some (z, e)
      → supports_resource z r ≡ true
      → (e.kind ≡ hero → z ≡ heroes)
      → FreeLocation t.world
      → Ensures
          (λ (p : Table S × Option ℕ). Replays t p.0)
          (modify_entity_resource entity_id rule_id r amount t)
  unfolding modify_entity_resource
  modify_entity_resource_lem entity_id rule_id r amount t {z} {e} found can home free =
      let named : (e.id == entity_id) ≡ true =
        find-holds (has_id entity_id) (entities_in t.world z)
          (entity-find entity_id t.world found) in
      let same : e.id ≡ entity_id = ground arith in
      let at : entity t.world e.id ≡ some (z, e) =
        subst (λ i. entity t.world i ≡ some (z, e)) (sym same) found in
      let after = changed e r amount in
      rw found (
        Ensures-if (newly_stunned e r after) _ _
          (λ stunned.
            let in_heroes : z ≡ heroes = home (ground arith) in
            stunned-Replays rule_id e r after t e.owner_position refl (rw (← in_heroes) at)
              (rw (← in_heroes) can) free)
          λ _. yields (
            set_resource-Replays rule_id e.id e.owner_position r _ after effect t at refl can refl))

  -- What changing a resource of an entity records, the stun of a hero and the control that it adds
  -- included, leads from the table before to the table after when it is applied: for a resource
  -- that the zone of the entity supports, heroes in their zone and an active location that belongs
  -- to no hero.
  pub modify_entity_resource-Replays :
      (entity_id rule_id : String) (r : EffectResource) (amount : ℤ) (t : Table S) {z : EffectZone}
      {e : EffectEntity} {p : Table S × Option ℕ}
      → entity t.world entity_id ≡ some (z, e)
      → supports_resource z r ≡ true
      → (e.kind ≡ hero → z ≡ heroes)
      → FreeLocation t.world
      → modify_entity_resource entity_id rule_id r amount t ≡ ok p
      → Replays t p.0
  modify_entity_resource-Replays entity_id rule_id r amount t found can home free =
      Ensures-ok (modify_entity_resource_lem entity_id rule_id r amount t found can home free)
