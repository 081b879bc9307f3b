-- ===== src/Executor/Machine/Definitions/Applying.antt =====
-- Applying an operation to the targets of a selector (`execute_apply` of
-- crates/game-domain/src/effects.rs).
use rust_game_harry_potter.Base.{
  ℕ, String, Bool, ◌&&◌, Option, none, some, List, [], ◌∷◌, map, ◌==◌, nat_eq, string_eq, option_eq,
  if◌then◌else◌, ltb, leb, ok, err, ◌>>=◌, ◌>>◌, ensure, any, all, find, length, contains, is_some,
}
use mathlib.Core.Option
use rust_game_harry_potter.Base.Sets.{all_distinct}
use rust_game_harry_potter.Effects.Zones.{zone_eq}
use rust_game_harry_potter.Effects.Rules.{
  EffectRule, trigger_eq, manual, EffectSelector, EffectOperation,
}
use rust_game_harry_potter.Effects.Outcomes.{
  EffectOutcome, no_op, die_rolled, explicit, zero_cardinality, no_eligible_target, EffectRoller,
  invalid_definition, invalid_roll, invalid_target_selection, step_limit_exceeded,
}
use rust_game_harry_potter.Effects.Outcomes
use rust_game_harry_potter.Effects.Choices.{EffectCursor, stun_choice, PendingEffectChoiceKind}
use rust_game_harry_potter.World.Moves.{Outcome}
use rust_game_harry_potter.Executor.Selectors.{
  selector_is_valid, operation_is_valid_for_zone, eligible_entity_ids,
}
use rust_game_harry_potter.Executor.Stun.{Table}
use rust_game_harry_potter.Executor.Draw.{EffectSource, log}
use rust_game_harry_potter.Executor.Operations.{apply_operation}
use rust_game_harry_potter.Executor.Machine.{
  Context, EffectTargetBinding, Machine, with_table, push_front_all,
}
use rust_game_harry_potter.Executor.Machine.Definitions.Choosing.{Step, stop_for}

abbrev pub is_manual : String → EffectRule → Bool
is_manual id rule = rule.id == id && rule.trigger == manual

-- The caller's binding of the selector, for the rule of a played card.
abbrev pub binding_of : Context → String → EffectSelector → Option EffectTargetBinding
binding_of c rule_id target =
    if any (is_manual rule_id) c.rules
    then Option.bind target.id (λ id. find (λ binding. binding.selector_id == id) c.target_bindings)
    else none

abbrev pub binding_is_valid : EffectSelector → List String → List String → Bool
binding_is_valid target candidates ids =
    all_distinct ids
    && leb target.min (length ids)
    && leb (length ids) target.max
    && all (contains candidates) ids

abbrev pub cons_some {ℓ} : {A : Type ℓ} → Option A → List A → List A
cons_some none xs = xs
cons_some (some x) xs = x ∷ xs

module _ {S : Type 0} where
  -- The operation on every target in order; the positions of the heroes that have to discard.
  unfoldable pub apply_each :
      EffectRoller S
      → List String
      → EffectSource
      → EffectOperation
      → Table S
      → Outcome (List ℕ × Table S)
  apply_each random [] source operation t = ok ([], t)
  apply_each random (id ∷ ids) source operation t = do
    first ← apply_operation random id source operation t
    rest ← apply_each random ids source operation first.0
    ok (cons_some first.1 rest.0, rest.1)

  unfoldable pub apply_to :
      EffectRoller S
      → Context
      → EffectCursor
      → ℕ
      → EffectOperation
      → List String
      → Machine S
      → Outcome (Step S)
  unfolding apply_each
  apply_to random c cursor position operation ids m = do
    done ←
        apply_each random ids
          (record { actor_position = position; rule_id = cursor.rule_id; rules = c.rules })
          operation m.table
    ok (push_front_all (map (stun_choice cursor) done.0) (with_table m done.1), none)

  abbrev pub nothing_done : EffectCursor → Outcomes.EffectNoOpReason → Machine S → Outcome (Step S)
  nothing_done cursor reason m =
      ok (with_table m (log (no_op cursor.rule_id reason ∷ []) m.table), none)

  -- Without a binding of the selector: a choice if there are too many candidates.
  unfoldable pub apply_unbound :
      EffectRoller S
      → Context
      → EffectCursor
      → ℕ
      → EffectSelector
      → EffectOperation
      → List String
      → Machine S
      → Outcome (Step S)
  unfolding apply_to
  apply_unbound random c cursor position target operation candidates m =
      if is_some target.id
        && c.require_named_target_bindings
        && any (is_manual cursor.rule_id) c.rules
      then err invalid_target_selection
      else if ltb target.max (length candidates)
      then stop_for c cursor PendingEffectChoiceKind.target position candidates target.min
          target.max m
      else apply_to random c cursor position operation candidates m

  unfoldable pub execute_apply :
      EffectRoller S
      → Context
      → EffectCursor
      → ℕ
      → EffectSelector
      → EffectOperation
      → Machine S
      → Outcome (Step S)
  unfolding apply_to apply_unbound
  execute_apply random c cursor position target operation m = do
    ensure (selector_is_valid target && operation_is_valid_for_zone operation target.zone)
        invalid_definition
    let candidates = eligible_entity_ids m.table.world position target c.rules
    if target.max == 0
        then nothing_done cursor zero_cardinality m
        else if ltb (length candidates) target.min
        then nothing_done cursor no_eligible_target m
        else elim (binding_of c cursor.rule_id target) [
          | some binding ↦ do
            ensure (binding_is_valid target candidates binding.target_ids) invalid_target_selection
            apply_to random c cursor position operation binding.target_ids m
          | none ↦ apply_unbound random c cursor position target operation candidates m
        ]
