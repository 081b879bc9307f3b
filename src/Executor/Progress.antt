-- ===== src/Executor/Progress.antt =====
-- What every operation of the executor respects: the cards are the same, the record only grows and
-- the random samples are counted (crates/game-domain/src/effects.rs).
pub mod Tables
pub mod Effects
pub mod Operations
pub mod Costs
pub mod Machines
pub mod Steps
use mathlib.Core.List.{append-nil, append_assoc}
use rust_game_harry_potter.Base.{
  ℕ, ◌+◌, ◌≡◌, refl, sym, ap, ◌∙◌, inl, inr, String, Bool, false, Option, none, some, List, [], ◌∷◌,
  ◌++◌, Result, ok, err, ◌>>=◌, Ensures, returns, fails, Ensures->>=, Ensures-weaken, count, arith,
  Option-cases,
}
use rust_game_harry_potter.Base.Counting.{count-append}
use rust_game_harry_potter.Effects.Zones.{EffectZone}
use rust_game_harry_potter.Effects.Resources
use rust_game_harry_potter.Effects.Entities.{EffectEntity}
use rust_game_harry_potter.Effects.Outcomes.{EffectOutcome, consumes_random_sample}
use rust_game_harry_potter.World.Store.{EffectWorld, entity, entity_mut}
use rust_game_harry_potter.World.Lookup.{census-entity_mut}
use rust_game_harry_potter.World.Moves.{Outcome, move_to_back}
use rust_game_harry_potter.World.Census.{census, Moved-census, move_to_back-Moved}
use rust_game_harry_potter.Effects.Choices.{QueuedEffect}
use rust_game_harry_potter.Executor.Stun.{Table}
use rust_game_harry_potter.Executor.Machine.{Machine}
use rust_game_harry_potter.Executor.Draw.{log}

-- What is printed on a card: all of an entity but its owner, its resources and what happens to it.
abbrev pub printed : EffectEntity → EffectEntity
printed e = record e {
  owner_position = none;
  resources = Resources.empty;
  drawing_blocked = false;
  copied_ally_id = none;
  turn_state = none;
}

-- Two tables with the same cards, each as often.
pub record SameCards (w v : EffectWorld) : Type 0 where
  pub same :
      (q : EffectEntity → Bool) → census (λ e. q (printed e)) v ≡ census (λ e. q (printed e)) w

pub SameCards-refl : (w : EffectWorld) → SameCards w w
SameCards-refl w = record { same = λ q. refl }

pub SameCards-trans : {u v w : EffectWorld} → SameCards u v → SameCards v w → SameCards u w
SameCards-trans h k = record { same = λ q. k.same q ∙ h.same q }

pub entity_mut-SameCards :
    (id : String) (f : EffectEntity → EffectEntity) (w : EffectWorld)
    → ((e : EffectEntity) → printed (f e) ≡ printed e)
    → SameCards w (entity_mut id f w)
unfolding entity_mut
entity_mut-SameCards id f w keeps = elim (Option-cases (entity w id)) [
  | inl e ↦ rw e (SameCards-refl w)
  | inr ((z, x), e) ↦ record { same = λ q. census-entity_mut id f w e _ (λ y. ap q (keeps y)) }
]

pub move_to_back-SameCards :
    (id : String) (from to : EffectZone) (owner : Option ℕ) (w : EffectWorld) {v : EffectWorld}
    → move_to_back id from to owner w ≡ ok v
    → SameCards w v
move_to_back-SameCards id from to owner w {v} h = record {
  same = λ q.
      Moved-census id from to owner w v (move_to_back-Moved id from to owner w h) _ (λ e. refl);
}

-- Work that leads from a table to another one.
pub record Advances {S : Type 0} (t u : Table S) : Type 0 where
  pub fresh : List EffectOutcome
  pub recorded : u.outcomes ≡ t.outcomes ++ fresh
  pub counted : u.rolls_consumed ≡ t.rolls_consumed + count consumes_random_sample fresh
  pub cards : SameCards t.world u.world

module _ {S : Type 0} where
  pub Advances-refl : (t : Table S) → Advances t t
  Advances-refl t = record {
    fresh = [];
    recorded = sym (append-nil t.outcomes);
    counted = omega arith;
    cards = SameCards-refl t.world;
  }

  pub Advances-trans : {t u v : Table S} → Advances t u → Advances u v → Advances t v
  Advances-trans {t} {u} {v} p q = record {
    fresh = p.fresh ++ q.fresh;
    recorded = cc (p.recorded, q.recorded, append_assoc t.outcomes p.fresh q.fresh);
    counted =
        omega (arith, p.counted, q.counted, count-append consumes_random_sample p.fresh q.fresh);
    cards = SameCards-trans p.cards q.cards;
  }

  -- A change of the world with what is recorded of it.
  pub log-Advances :
      (new : List EffectOutcome) (w : EffectWorld) (t : Table S)
      → count consumes_random_sample new ≡ 0
      → SameCards t.world w
      → Advances t (log new (record t { world = w }))
  log-Advances new w t none_random cards = record {
    fresh = new;
    recorded = refl;
    counted = omega arith;
    cards = cards;
  }

  pub Advances-log :
      {t u : Table S}
      → Advances t u
      → (new : List EffectOutcome) → count consumes_random_sample new ≡ 0
      → Advances t (log new u)
  Advances-log {u} p new none_random =
      Advances-trans p (log-Advances new u.world u none_random (SameCards-refl u.world))

  -- A change of the world that leaves no record.
  pub world-Advances :
      (w : EffectWorld) (t : Table S) → SameCards t.world w → Advances t (record t { world = w })
  world-Advances w t cards = record {
    fresh = [];
    recorded = sym (append-nil t.outcomes);
    counted = omega arith;
    cards = cards;
  }

-- The steps of a `do` block, for a relation between states that can be chained.
module _ {X : Type 0} (R : X → X → Type 0) (chain : (x y z : X) → R x y → R y z → R x z) where
  pub Ensures-chain :
      {E A B : Type 0} {x : X} (f : A → X) (g : B → X) (m : Result E A) (k : A → Result E B)
      → Ensures (λ a. R x (f a)) m
      → ((a : A) → m ≡ ok a → Ensures (λ b. R (f a) (g b)) (k a))
      → Ensures (λ b. R x (g b)) (m >>= k)
  Ensures-chain {x} f g (ok a) k (returns p) next =
      Ensures-weaken (next a refl) (λ b. chain x (f a) (g b) p)
  Ensures-chain f g (err e) k p next = fails

module _ {S : Type 0} {E A B : Type 0} {t : Table S} {f : A → Table S} {g : B → Table S} where
  pub Advances->>= :
      (m : Result E A) (k : A → Result E B)
      → Ensures (λ a. Advances t (f a)) m
      → ((a : A) → m ≡ ok a → Ensures (λ b. Advances (f a) (g b)) (k a))
      → Ensures (λ b. Advances t (g b)) (m >>= k)
  Advances->>= = Ensures-chain Advances (λ x y z. Advances-trans) f g

-- Work of the executor that takes no step.
pub record Evolves {S : Type 0} (m n : Machine S) : Type 0 where
  pub table : Advances m.table n.table
  pub steps : n.steps ≡ m.steps

module _ {S : Type 0} where
  pub Evolves-refl : (m : Machine S) → Evolves m m
  Evolves-refl m = record { table = Advances-refl m.table; steps = refl }

  pub Evolves-trans : {m n o : Machine S} → Evolves m n → Evolves n o → Evolves m o
  Evolves-trans p q = record { table = Advances-trans p.table q.table; steps = q.steps ∙ p.steps }

  pub enqueue-Evolves :
      (queue : List QueuedEffect) (m : Machine S) → Evolves m (record m { queue = queue })
  enqueue-Evolves queue m = record { table = Advances-refl m.table; steps = refl }

  pub table-Evolves :
      (m : Machine S) {t : Table S} (queue : List QueuedEffect)
      → Advances m.table t
      → Evolves m (record m { table = t; queue = queue })
  table-Evolves m queue a = record { table = a; steps = refl }

module _ {S : Type 0} {E A B : Type 0} {m : Machine S} {f : A → Machine S} {g : B → Machine S} where
  pub Evolves->>= :
      (r : Result E A) (k : A → Result E B)
      → Ensures (λ a. Evolves m (f a)) r
      → ((a : A) → r ≡ ok a → Ensures (λ b. Evolves (f a) (g b)) (k a))
      → Ensures (λ b. Evolves m (g b)) (r >>= k)
  Evolves->>= = Ensures-chain Evolves (λ x y z. Evolves-trans) f g
