-- ===== src/Effects/Choices.antt =====
-- The choices at which an execution stops, and what it still has queued
-- (crates/game-domain/src/effects.rs).
use rust_game_harry_potter.Base.{ℕ, String, List}
use rust_game_harry_potter.Effects.Rules.{EffectGameOutcome}

pub data EffectPathSegment : Type 0 where
  hero_ability_effect revealed_card_effect reaction_effect : EffectPathSegment
  choice_option : ℕ → EffectPathSegment
  condition_then condition_otherwise repeat_effect : EffectPathSegment
  roll_outcome : ℕ → EffectPathSegment
  sequence_effect : ℕ → EffectPathSegment

pub record EffectCursor : Type 0 where
  pub rule_id : String
  pub path : List EffectPathSegment

-- The fields in the source's order.
pub data QueuedEffect : Type 0 where
  definition : EffectCursor → ℕ → QueuedEffect
  queued_choice : EffectCursor → ℕ → QueuedEffect
  finish_stun : EffectCursor → ℕ → QueuedEffect
  stun_choice : EffectCursor → ℕ → QueuedEffect

pub record EffectContinuation : Type 0 where
  pub choice_cursor : EffectCursor
  pub queue : List QueuedEffect
  pub steps_completed : ℕ

pub data PendingEffectChoiceKind : Type 0 where
  effect stun_discard target : PendingEffectChoiceKind

pub record PendingEffectChoice : Type 0 where
  pub id : String
  pub cause : String
  pub responsible_position : ℕ
  pub kind : PendingEffectChoiceKind
  pub options : List String
  pub min : ℕ
  pub max : ℕ
  pub continuation : EffectContinuation

pub data EffectStop : Type 0 where
  choice : PendingEffectChoice → EffectStop
  stable : EffectStop
  terminal : EffectGameOutcome → EffectStop
