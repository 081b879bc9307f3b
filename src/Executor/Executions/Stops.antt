-- ===== src/Executor/Executions/Stops.antt =====
-- The choices at which an effect stops (crates/game-domain/src/effects.rs).

use rust_game_harry_potter.Base.{
  ℕ, zero, suc, ◌/◌, ◌≡◌, ◌≤◌, ◌⊎◌, refl, ap, String, true, ◌&&◌, not, Option, none, some, List, [],
  ◌∷◌, ◌==◌, nat_eq, err, Ensures, yields, fails, Ensures->>=, Ensures-ensure, Ensures-if, any,
  length, ltb, arith, is_some, first, inl, inr, Option-cases, string_eq, option_eq,
}
use rust_game_harry_potter.Effects.Zones.{hero_hand}
use rust_game_harry_potter.Effects.Rules.{
  EffectSelector, EffectOperation, EffectChoiceAudience, EffectGameOutcome, trigger_eq,
}
use rust_game_harry_potter.Effects.Outcomes.{EffectRoller, invalid_definition}
use rust_game_harry_potter.Effects.Choices.{
  EffectCursor, EffectStop, finish_stun, stun_discard, PendingEffectChoiceKind, PendingEffectChoice,
}
use rust_game_harry_potter.World.Store.{cards_in_zone}
use rust_game_harry_potter.Executor.Selectors.{
  selector_is_valid, operation_is_valid_for_zone, eligible_entity_ids,
}
use rust_game_harry_potter.Executor.Cursors.{effect_at_cursor}
use rust_game_harry_potter.Executor.Stun
use rust_game_harry_potter.Executor.Machine.{Context, Machine, push_front, push_front_all}
use rust_game_harry_potter.Executor.Machine.Definitions.Applying.{
  apply_each, apply_to, apply_unbound, binding_of, binding_is_valid, is_manual, execute_apply,
}
use rust_game_harry_potter.Executor.Machine.Definitions.Choosing.{
  continuation, pending_choice_id, stop_for, execute_choice, hero_positions,
  execute_choice_audience, execute_stun_choice, waiting_choices, numbered_options,
}

-- A choice that a resumption accepts: its cause is the rule of its cursor, its steps are those that
-- were taken, its options suffice, and an effect stands at its cursor unless a stun is its reason.
pub record Resumable (c : Context) (steps : ℕ) (p : PendingEffectChoice) : Type 0 where
  pub cause : p.cause ≡ p.continuation.choice_cursor.rule_id
  pub taken : p.continuation.steps_completed ≡ steps
  pub ordered : p.min ≤ p.max
  pub enough : p.max ≤ length p.options
  pub known :
      (p.kind ≡ stun_discard)
      ⊎ (is_some (effect_at_cursor c.rules p.continuation.choice_cursor) ≡ true)

pub data Halts (c : Context) (steps : ℕ) : Option EffectStop → Type 0 where
  goes_on : Halts c steps none
  chooses :
      {p : PendingEffectChoice} → Resumable c steps p → Halts c steps (some (EffectStop.choice p))
  ends : {o : EffectGameOutcome} → Halts c steps (some (EffectStop.terminal o))

length-numbered_options : (n i : ℕ) → length (numbered_options n i) ≡ n
unfolding numbered_options
length-numbered_options zero i = refl
length-numbered_options (suc n) i = ap suc (length-numbered_options n (suc i))

selector-ordered : (s : EffectSelector) → selector_is_valid s ≡ true → s.min ≤ s.max
unfolding selector_is_valid
selector-ordered s h = ground arith

module _ {S : Type 0} where
  stop_for-Halts :
      (c : Context) (cursor : EffectCursor) (kind : PendingEffectChoiceKind) (position : ℕ)
      (options : List String) (min max : ℕ) (m : Machine S)
      → min ≤ max
      → max ≤ length options
      → (kind ≡ stun_discard) ⊎ (is_some (effect_at_cursor c.rules cursor) ≡ true)
      → Ensures (λ r. Halts c m.steps r.1) (stop_for c cursor kind position options min max m)
  unfolding stop_for continuation
  stop_for-Halts c cursor kind position options min max m ordered enough known =
      Ensures->>= (pending_choice_id c cursor kind m) _ λ id h. yields (
        chooses (record {
          cause = refl;
          taken = refl;
          ordered = ordered;
          enough = enough;
          known = known;
        }))

  pub execute_choice-Halts :
      (c : Context) (cursor : EffectCursor) (position count : ℕ) (m : Machine S)
      → is_some (effect_at_cursor c.rules cursor) ≡ true
      → Ensures (λ r. Halts c m.steps r.1) (execute_choice c cursor position count m)
  unfolding execute_choice
  execute_choice-Halts c cursor position count m known =
      Ensures-ensure (not (ltb count 2)) _ _ λ several.
        stop_for-Halts c cursor PendingEffectChoiceKind.effect position (numbered_options count 1) 1
          1 m (omega arith) (ground (arith, length-numbered_options count 1)) (inr known)

  pub execute_choice_audience-Halts :
      (c : Context) (cursor : EffectCursor) (position : ℕ) (audience : EffectChoiceAudience)
      (count : ℕ) (m : Machine S)
      → is_some (effect_at_cursor c.rules cursor) ≡ true
      → Ensures
          (λ r. Halts c m.steps r.1)
          (execute_choice_audience c cursor position audience count m)
  unfolding execute_choice_audience
  execute_choice_audience-Halts c cursor position EffectChoiceAudience.choice_actor count m known =
      execute_choice-Halts c cursor position count m known
  execute_choice_audience-Halts c cursor position EffectChoiceAudience.each_hero count m known =
      elim (hero_positions m.table.world)
        as (λ ps.
          Ensures (λ r. Halts c m.steps r.1)
            (elim ps [
              | [] ↦ err invalid_definition
              | first ∷ remaining ↦
                  execute_choice c cursor first count
                    (push_front_all (waiting_choices cursor remaining) m)
            ])) [
              | [] ↦ fails
              | first ∷ remaining ↦ execute_choice-Halts c cursor first count _ known
            ]

  pub execute_stun_choice-Halts :
      (c : Context) (cursor : EffectCursor) (position : ℕ) (m : Machine S)
      → Ensures (λ r. Halts c m.steps r.1) (execute_stun_choice c cursor position m)
  unfolding execute_stun_choice
  execute_stun_choice-Halts c cursor position m =
      let options = cards_in_zone m.table.world position hero_hand in
      Ensures-if (length options / 2 == 0) _ _
        (λ x. Ensures->>= (Stun.finish_stun m.table) _ λ t h. yields goes_on)
        (λ x. Ensures-ensure (ltb (length options / 2) 65536) _ _ λ fits.
          stop_for-Halts c cursor PendingEffectChoiceKind.stun_discard position options
            (length options / 2) (length options / 2) (push_front (finish_stun cursor position) m)
            (omega arith) (omega arith) (inl refl))

module _ {S : Type 0} (random : EffectRoller S) where
  apply_to-Halts :
      (c : Context) (cursor : EffectCursor) (position : ℕ) (operation : EffectOperation)
      (ids : List String) (m : Machine S)
      → Ensures (λ r. Halts c m.steps r.1) (apply_to random c cursor position operation ids m)
  unfolding apply_to
  apply_to-Halts c cursor position operation ids m =
      Ensures->>= (apply_each random ids _ operation m.table) _ λ done h. yields goes_on

  pub execute_apply-Halts :
      (c : Context) (cursor : EffectCursor) (position : ℕ) (target : EffectSelector)
      (operation : EffectOperation) (m : Machine S)
      → is_some (effect_at_cursor c.rules cursor) ≡ true
      → Ensures
          (λ r. Halts c m.steps r.1)
          (execute_apply random c cursor position target operation m)
  unfolding execute_apply apply_unbound
  execute_apply-Halts c cursor position target operation m known =
      let candidates = eligible_entity_ids m.table.world position target c.rules in
      Ensures-ensure (selector_is_valid target && operation_is_valid_for_zone operation target.zone)
        _ _
        λ valid.
          Ensures-if (target.max == 0) _ _ (λ x. yields goes_on)
            λ x.
              Ensures-if (ltb (length candidates) target.min) _ _ (λ y. yields goes_on)
                λ y. elim (Option-cases (binding_of c cursor.rule_id target)) [
                  | inl e ↦ rw e (
                      Ensures-if
                        (is_some target.id
                          && c.require_named_target_bindings
                          && any (is_manual cursor.rule_id) c.rules)
                        _ _ (λ z. fails)
                        λ z.
                          Ensures-if (ltb target.max (length candidates)) _ _
                            (λ many.
                              stop_for-Halts c cursor PendingEffectChoiceKind.target position
                                candidates target.min target.max m
                                (selector-ordered target (ground arith)) (ground arith) (inr known))
                            (λ few. apply_to-Halts c cursor position operation candidates m))
                  | inr (binding, e) ↦ rw e (
                      Ensures-ensure (binding_is_valid target candidates binding.target_ids) _ _
                        λ fits. apply_to-Halts c cursor position operation binding.target_ids m)
                ]
