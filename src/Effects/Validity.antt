-- ===== src/Effects/Validity.antt =====
-- What a stored choice and its queue must satisfy (crates/game-domain/src/effects.rs).
use Prim.Native.String.{len}
use rust_game_harry_potter.Base.{
  ℕ, ◌/◌, String, Bool, true, not, ◌&&◌, List, ◌==◌, nat_eq, string_eq, ltb, leb, length, all,
  contains,
}
use rust_game_harry_potter.Base.Sets.{all_distinct}
use rust_game_harry_potter.Effects.Choices.{
  EffectPathSegment, EffectCursor, QueuedEffect, PendingEffectChoiceKind, PendingEffectChoice,
  effect, stun_discard, target,
}
use rust_game_harry_potter.World.Validity.{max_choice_value_length}
use rust_game_harry_potter.Executor.Reactions.{max_effect_path_depth}
use rust_game_harry_potter.Executor.Machine.{max_execution_steps}

abbrev pub max_effect_branch_index : ℕ
max_effect_branch_index = 1023

abbrev pub max_effect_roll_index : ℕ
max_effect_roll_index = 7

abbrev pub max_choice_options : ℕ
max_choice_options = 4096

abbrev pub max_choice_selections : ℕ
max_choice_selections = 32

-- A text that is not empty and at most as long as a choice value may be.
abbrev value_fits : String → Bool
value_fits s = not (s == "") && leb (len s) max_choice_value_length

unfoldable pub segment_is_valid : EffectPathSegment → Bool
segment_is_valid (EffectPathSegment.choice_option index) = leb index max_effect_branch_index
segment_is_valid (EffectPathSegment.sequence_effect index) = leb index max_effect_branch_index
segment_is_valid (EffectPathSegment.roll_outcome index) = leb index max_effect_roll_index
segment_is_valid _ = true

unfoldable pub is_structurally_valid : EffectCursor → Bool
unfolding segment_is_valid
is_structurally_valid cursor =
    value_fits cursor.rule_id
    && leb (length cursor.path) max_effect_path_depth
    && all segment_is_valid cursor.path

unfoldable pub queued_is_valid : List ℕ → QueuedEffect → Bool
unfolding is_structurally_valid
queued_is_valid positions (QueuedEffect.definition cursor actor) =
    is_structurally_valid cursor && contains positions actor
queued_is_valid positions (QueuedEffect.queued_choice cursor responsible) =
    is_structurally_valid cursor && contains positions responsible
queued_is_valid positions (QueuedEffect.finish_stun cursor responsible) =
    is_structurally_valid cursor && contains positions responsible
queued_is_valid positions (QueuedEffect.stun_choice cursor responsible) =
    is_structurally_valid cursor && contains positions responsible

-- The numbers of options that a choice of each kind may ask for: `min`, `max` and the options there.
abbrev kind_allows : PendingEffectChoiceKind → ℕ → ℕ → ℕ → Bool
kind_allows effect min max options = min == 1 && max == 1
kind_allows stun_discard min max options = ltb 0 min && min == max && max == options / 2
kind_allows target min max options = ltb 0 max && ltb max options

unfoldable pub choice_is_valid : List ℕ → PendingEffectChoice → Bool
unfolding queued_is_valid is_structurally_valid
choice_is_valid positions choice =
    contains positions choice.responsible_position
    && value_fits choice.id
    && value_fits choice.cause
    && leb 2 (length choice.options)
    && leb (length choice.options) max_choice_options
    && all_distinct choice.options
    && all value_fits choice.options
    && leb choice.min choice.max
    && leb choice.max max_choice_selections
    && leb choice.max (length choice.options)
    && kind_allows choice.kind choice.min choice.max (length choice.options)
    && ltb 0 choice.continuation.steps_completed
    && leb choice.continuation.steps_completed max_execution_steps
    && choice.continuation.choice_cursor.rule_id == choice.cause
    && is_structurally_valid choice.continuation.choice_cursor
    && leb (length choice.continuation.queue) max_execution_steps
    && all (queued_is_valid positions) choice.continuation.queue
