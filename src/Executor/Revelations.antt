-- ===== src/Executor/Revelations.antt =====
-- What villains do when others are revealed (`villain_revelation_queue` of
-- crates/game-domain/src/effects/reactions.rs).
use rust_game_harry_potter.Base.{
  ℕ, String, Bool, ◌||◌, List, [], ◌∷◌, ◌++◌, map, ◌==◌, nat_eq, string_eq, option_eq,
  if◌then◌else◌, ok, ◌>>=◌, ok_or, keep, any,
}
use rust_game_harry_potter.Effects.Zones.{zone_eq, resource_eq, active_villains}
use rust_game_harry_potter.Effects.Entities.{EffectEntity, kind_eq, villain_ability_suppressed}
use rust_game_harry_potter.Effects.Rules.{EffectReactionTrigger, EffectRule, card_type_eq}
use rust_game_harry_potter.Effects.Outcomes.{invalid_definition}
use rust_game_harry_potter.Effects.Choices.{QueuedEffect, definition}
use rust_game_harry_potter.World.Store.{EffectWorld, entities_in}
use rust_game_harry_potter.World.Moves.{Outcome}
use rust_game_harry_potter.Executor.Abilities.{rule_of}
use rust_game_harry_potter.Executor.Cursors.{root}
use rust_game_harry_potter.Executor.Reactions.{reaction_trigger_eq, Declaration, collect_reactions}

abbrev pub revealed_later : List String → EffectEntity → Bool
revealed_later ids source = any (λ id. id == source.id) ids

abbrev pub on_revelation : ℕ → List Declaration → List QueuedEffect
on_revelation position declared =
    map (λ (d : Declaration). definition d.1 position)
      (keep (λ (d : Declaration). d.0 == EffectReactionTrigger.villain_revealed) declared)

-- The active villains that react to one revealed villain; those revealed after it do not.
unfoldable pub revelation_reactions :
    ℕ → List EffectRule → String → List String → List EffectEntity → Outcome (List QueuedEffect)
unfolding collect_reactions
revelation_reactions position rules revealed later [] = ok []
revelation_reactions position rules revealed later (source ∷ sources) =
    if source.id == revealed || villain_ability_suppressed source || revealed_later later source
    then revelation_reactions position rules revealed later sources
    else do
      rule ← ok_or (rule_of rules source) invalid_definition
      declared ← collect_reactions rule.effect (root rule.id)
      rest ← revelation_reactions position rules revealed later sources
      ok (on_revelation position declared ++ rest)

unfoldable pub villain_revelation_queue :
    EffectWorld → List EffectRule → List String → ℕ → Outcome (List QueuedEffect)
unfolding revelation_reactions
villain_revelation_queue w rules [] position = ok []
villain_revelation_queue w rules (revealed ∷ later) position = do
  first ← revelation_reactions position rules revealed later (entities_in w active_villains)
  rest ← villain_revelation_queue w rules later position
  ok (first ++ rest)
