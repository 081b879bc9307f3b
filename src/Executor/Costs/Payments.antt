-- ===== src/Executor/Costs/Payments.antt =====
-- A hero that has what is due pays, and the other way around (`pay_costs` of
-- crates/game-domain/src/effects.rs).
use rust_game_harry_potter.Base.{
  ℕ, ◌+◌, ◌-◌, ◌≤◌, ◌≡◌, ◌↔◌, refl, sym, ap, subst, inl, inr, String, Bool, true, false, not, some,
  List, [], ◌∷◌, nat_eq, string_eq, option_eq, ◌==◌, ltb, ok, err, ensure, ◌>>◌, all, find,
  modify_first, Ensures, yields, fails, Ensures-ok, Ensures->>=, arith, if◌then◌else◌, Bool-cases,
  Result-cases, ◌<◌,
}
use rust_game_harry_potter.Base.Counting.{find-holds}
use rust_game_harry_potter.Effects.Zones.{
  EffectResource, resource_eq, attack, control, health, influence, heroes, EffectResource-discrete,
}
use rust_game_harry_potter.Effects.Entities.{EffectEntity, resource, with_resource}
use rust_game_harry_potter.Effects.Rules.{EffectResourceCost}
use rust_game_harry_potter.Effects.Outcomes.{
  EffectOutcome, EffectExecutionError, resource_changed, cost, unaffordable_cost,
}
use rust_game_harry_potter.World.Store.{
  EffectWorld, entities_in, entity, entity_mut, hero_at, has_id, owned_by,
}
use rust_game_harry_potter.World.WholeTable.{resources}
use rust_game_harry_potter.World.Census.{entities_in-set_zone}
use rust_game_harry_potter.World.Lookup.{Unique, entity-find, census-entity_mut, entity_mut_lem}
use rust_game_harry_potter.Executor.Costs.{pay_one, pay_all}
use rust_game_harry_potter.Executor.Costs.Replay.{hero_at-entity}
use rust_game_harry_potter.Executor.Costs.Amounts.{due, get-insert_other}

pub all-resources :
    (f : EffectResource → Bool) → all f resources ≡ true → (r : EffectResource) → f r ≡ true
all-resources f h attack = ground arith
all-resources f h control = ground arith
all-resources f h health = ground arith
all-resources f h influence = ground arith

pub resources-all :
    (f : EffectResource → Bool) → ((r : EffectResource) → f r ≡ true) → all f resources ≡ true
resources-all f h = rw (h attack, h control, h health, h influence) refl

find-modified :
    {A : Type 0} (p q : A → Bool) (f : A → A) (es : List A) {e : A}
    → find p es ≡ some e
    → find q es ≡ some e
    → p (f e) ≡ true
    → find p (modify_first q f es) ≡ some (f e)
find-modified p q f [] h k same = cc
find-modified p q f (x ∷ xs) {e} h k same = elim (Bool-cases (q x)) [
  | inl a ↦ let found : x ≡ e = ground arith in rw (a, found, same) refl
  | inr a ↦ elim (Bool-cases (p x)) [
    | inl b ↦ absurd (ground (arith, find-holds q (x ∷ xs) k))
    | inr b ↦ rw (a, b) (find-modified p q f xs (ground arith) (ground arith) same)
  ]
]

-- The hero at a position after a write to it.
module _ (actor : ℕ) (w : EffectWorld) {e : EffectEntity} (one : Unique w)
    (here : hero_at w actor ≡ some e) where
  hero_at-with_resource :
      (r : EffectResource) (v : ℕ)
      → hero_at (entity_mut e.id (with_resource r v) w) actor ≡ some (with_resource r v e)
  hero_at-with_resource r v =
      let at = hero_at-entity actor w one here in
      rw (entity_mut_lem e.id (with_resource r v) w at, entities_in-set_zone heroes _ w)
        (find-modified (owned_by (some actor)) (has_id e.id) (with_resource r v)
          (entities_in w heroes) here (entity-find e.id w at)
          (find-holds (owned_by (some actor)) (entities_in w heroes) here))

  with_resource-Unique :
      (r : EffectResource) (v : ℕ) → Unique (entity_mut e.id (with_resource r v) w)
  with_resource-Unique r v id =
      let at = hero_at-entity actor w one here in
      rw (census-entity_mut e.id (with_resource r v) w at (has_id id) (λ x. refl)) (one id)

resource-with_resource_self :
    (s : EffectResource) (v : ℕ) (e : EffectEntity) → resource (with_resource s v e) s ≡ v
resource-with_resource_self attack v e = refl
resource-with_resource_self control v e = refl
resource-with_resource_self health v e = refl
resource-with_resource_self influence v e = refl

resource-with_resource :
    (r s : EffectResource) (v : ℕ) (e : EffectEntity)
    → resource (with_resource r v e) s ≡ (if r == s then v else resource e s)
resource-with_resource r s v e = elim (EffectResource-discrete r s) [
  | yes h ↦
      let own : (s == s) ≡ true = ground arith in
      subst (λ x. resource (with_resource x v e) s ≡ (if x == s then v else resource e s)) (sym h)
        (rw own (resource-with_resource_self s v e))
  | no d ↦
      let apart : (r == s) ≡ false = ground arith in
      rw (apart, resource, get-insert_other r s v e.resources apart) refl
]

-- What the hero has left after a cost is due for the others, and the other way around.
due-with_resource :
    (c : EffectResourceCost) (s : EffectResource) (rest : ℕ) (e : EffectEntity)
    → c.amount ≤ resource e c.resource
    → (rest ≤ resource (with_resource c.resource (resource e c.resource - c.amount) e) s)
      ↔ ((if c.resource == s then c.amount else 0) + rest ≤ resource e s)
due-with_resource c s rest e enough =
    let left = resource-with_resource c.resource s (resource e c.resource - c.amount) e in
    elim (EffectResource-discrete c.resource s) [
      | yes h ↦
          let own : (c.resource == s) ≡ true = ground arith in
          let same = ap (λ r. resource e r) h in
          rw (left, own) (λ l. omega (arith, same, enough), λ l. omega (arith, same, enough))
      | no d ↦
          let apart : (c.resource == s) ≡ false = ground arith in
          rw (left, apart) (λ l. omega arith, λ l. omega arith)
    ]

-- One payment of a hero that is there.
pay_one-here :
    (actor : ℕ) (id : String) (c : EffectResourceCost) (w : EffectWorld) {e : EffectEntity}
    → hero_at w actor ≡ some e
    → entity w e.id ≡ some (heroes, e)
    → pay_one actor id c w ≡ (
        ensure (not (ltb (resource e c.resource) c.amount)) unaffordable_cost
        >> ok (
          resource_changed id e.id e.owner_position c.resource
              (resource e c.resource)
              (resource e c.resource - c.amount)
              cost,
          entity_mut e.id (with_resource c.resource (resource e c.resource - c.amount)) w,
        ))
unfolding pay_one
pay_one-here actor id c w here at = rw (here, at) refl

-- A hero that has what is due pays.
pub paid-ok :
    (actor : ℕ) (cs : List (String × EffectResourceCost)) (w : EffectWorld) {e : EffectEntity}
    → Unique w
    → hero_at w actor ≡ some e
    → ((r : EffectResource) → due r cs ≤ resource e r)
    → (r : List EffectOutcome × EffectWorld) × (pay_all actor cs w ≡ ok r)
unfolding pay_all due
paid-ok actor [] w one here enough = (([], w), refl)
paid-ok actor ((id, c) ∷ cs) w {e} one here enough =
    let own : (c.resource == c.resource) ≡ true = ground arith in
    let le : c.amount ≤ resource e c.resource = ground (arith, enough c.resource) in
    let fits : ltb (resource e c.resource) c.amount ≡ false = ground arith in
    let v = resource e c.resource - c.amount in
    let (rest, ran) =
      paid-ok actor cs (entity_mut e.id (with_resource c.resource v) w)
        (with_resource-Unique actor w one here c.resource v)
        (hero_at-with_resource actor w one here c.resource v)
        (λ r. (due-with_resource c r (due r cs) e le).1 (enough r)) in
    (
      (
        resource_changed id e.id e.owner_position c.resource (resource e c.resource) v cost
            ∷ rest.0,
        rest.1,
      ),
      rw (pay_one-here actor id c w here (hero_at-entity actor w one here), fits, ran) refl,
    )

-- A hero that paid had what was due.
pub pay_all-due :
    (actor : ℕ) (cs : List (String × EffectResourceCost)) (w : EffectWorld) {e : EffectEntity}
    → Unique w
    → hero_at w actor ≡ some e
    → Ensures (λ r. (s : EffectResource) → due s cs ≤ resource e s) (pay_all actor cs w)
unfolding pay_all due
pay_all-due actor [] w one here = yields (λ s. omega arith)
pay_all-due actor ((id, c) ∷ cs) w {e} one here =
    let paying = pay_one-here actor id c w here (hero_at-entity actor w one here) in
    let v = resource e c.resource - c.amount in
    let w2 = entity_mut e.id (with_resource c.resource v) w in
    elim (Bool-cases (ltb (resource e c.resource) c.amount)) [
      | inl b ↦ rw (paying, b) fails
      | inr b ↦
          rw (paying, b)
            (Ensures->>= (pay_all actor cs w2) _ λ rest k. yields λ s.
              let later =
                pay_all-due actor cs w2 (with_resource-Unique actor w one here c.resource v)
                  (hero_at-with_resource actor w one here c.resource v) in
              (due-with_resource c s (due s cs) e (ground arith)).0 (Ensures-ok later k s))
    ]

-- The cost that a hero cannot pay.
pub record Short (cs : List (String × EffectResourceCost)) (e : EffectEntity) : Type 0 where
  pub wanted : EffectResource
  pub lacking : resource e wanted < due wanted cs

-- Paying fails only for want of a resource, of which more is due than the hero has.
pub pay_all-Short :
    (actor : ℕ) (cs : List (String × EffectResourceCost)) (w : EffectWorld) {e : EffectEntity}
    {x : EffectExecutionError}
    → Unique w
    → hero_at w actor ≡ some e
    → pay_all actor cs w ≡ err x
    → (x ≡ unaffordable_cost) × Short cs e
unfolding pay_all due
pay_all-Short actor [] w one here h = cc
pay_all-Short actor ((id, c) ∷ cs) w {e} one here h =
    let paying = pay_one-here actor id c w here (hero_at-entity actor w one here) in
    let v = resource e c.resource - c.amount in
    let w2 = entity_mut e.id (with_resource c.resource v) w in
    let own : (c.resource == c.resource) ≡ true = ground arith in
    let head =
      resource_changed id e.id e.owner_position c.resource (resource e c.resource) v cost in
    elim (Bool-cases (ltb (resource e c.resource) c.amount)) [
      | inl b ↦
          let raised : pay_all actor ((id, c) ∷ cs) w ≡ err unaffordable_cost =
            rw (paying, b) refl in
          (cc (h, raised), record { wanted = c.resource; lacking = ground arith })
      | inr b ↦ elim (Result-cases (pay_all actor cs w2)) [
        | inl (r, k) ↦
            let paid : pay_all actor ((id, c) ∷ cs) w ≡ ok (head ∷ r.0, r.1) =
              rw (paying, b, k) refl in
            cc (h, paid)
        | inr (y, k) ↦
            let raised : pay_all actor ((id, c) ∷ cs) w ≡ err y = rw (paying, b, k) refl in
            let (same, short) =
              pay_all-Short actor cs w2 (with_resource-Unique actor w one here c.resource v)
                (hero_at-with_resource actor w one here c.resource v) k in
            let back =
              (due-with_resource c short.wanted (due short.wanted cs) e (ground arith)).1 in
            (
              cc (h, raised, same),
              record {
                wanted = short.wanted;
                lacking =
                    elim (Bool-cases
                      (ltb (resource e short.wanted) (due short.wanted ((id, c) ∷ cs)))) [
                        | inl z ↦ ground arith
                        | inr z ↦ absurd (omega (arith, back (ground arith), short.lacking))
                      ];
              },
            )
      ]
    ]
