-- ===== src/Executor/Reactions.antt =====
-- Which reactions an outcome calls for (crates/game-domain/src/effects/reactions.rs).
use rust_game_harry_potter.Base.{
  ℕ, zero, suc, ◌-◌, String, Bool, false, ◌&&◌, ◌||◌, not, Option, none, some, List, [], ◌∷◌, ◌++◌,
  ◌==◌, nat_eq, string_eq, option_eq, Eq, if◌then◌else◌, ltb, ok, ◌>>=◌, ◌>>◌, ensure, length,
  is_some_and,
}
use mathlib.Core.Option
use rust_game_harry_potter.Effects.Zones.{
  EffectZone, zone_eq, resource_eq, active_villains, dark_arts_deck, dark_arts_discard,
  hero_discard_pile, hero_draw_pile, hero_hand, hero_play_area, villain_deck, villain_discard,
  control,
}
use rust_game_harry_potter.Effects.Entities.{
  EffectEntity, kind_eq, villain, villain_ability_suppressed,
}
use rust_game_harry_potter.Effects.Rules.{
  EffectDefinition, EffectDefinitions, EffectReactionTrigger, EffectRule, card_type_eq, ally,
}
use rust_game_harry_potter.Effects.Outcomes.{
  EffectOutcome, moved, resource_changed, effect, invalid_definition,
}
use rust_game_harry_potter.Effects.Choices.{
  EffectPathSegment, EffectCursor, QueuedEffect, definition,
}
use rust_game_harry_potter.World.Store.{EffectWorld, entity, entities, owned_by}
use rust_game_harry_potter.World.Moves.{Outcome}
use rust_game_harry_potter.Executor.Abilities.{card_type, is_harmful_rule}
use rust_game_harry_potter.Executor.Cursors.{root, child, rule_named}
use rust_game_harry_potter.Executor.Operations.{voluntary_discard}

unfoldable pub EffectReactionTrigger-discrete : Discrete EffectReactionTrigger
EffectReactionTrigger-discrete = hlevel

instance abbrev pub reaction_trigger_eq : Eq EffectReactionTrigger
reaction_trigger_eq = record { dec = EffectReactionTrigger-discrete }

abbrev pub max_effect_path_depth : ℕ
max_effect_path_depth = 32

abbrev pub Declaration : Type 0
Declaration = EffectReactionTrigger × EffectCursor

-- The reactions that a definition declares, with the cursors of their effects.
unfoldable mutual
  pub collect_reactions : EffectDefinition → EffectCursor → Outcome (List Declaration)
  collect_reactions (EffectDefinition.reaction trigger e) cursor = do
    ensure (ltb (length cursor.path) max_effect_path_depth) invalid_definition
    ok ((trigger, child cursor EffectPathSegment.reaction_effect) ∷ [])
  collect_reactions (EffectDefinition.sequence effects) cursor = do
    ensure (ltb (length cursor.path) max_effect_path_depth) invalid_definition
    collect_each effects 0 cursor
  collect_reactions _ cursor = do
    ensure (ltb (length cursor.path) max_effect_path_depth) invalid_definition
    ok []

  -- The effects of a sequence, counted from an index that must fit a `u16`.
  pub collect_each : EffectDefinitions → ℕ → EffectCursor → Outcome (List Declaration)
  collect_each EffectDefinitions.nil i cursor = ok []
  collect_each (EffectDefinitions.cons e es) i cursor = do
    ensure (ltb i 65536) invalid_definition
    first ← collect_reactions e (child cursor (EffectPathSegment.sequence_effect i))
    rest ← collect_each es (suc i) cursor
    ok (first ++ rest)

abbrev pub play_card : String
play_card = "system:play-card"

abbrev pub defeat_villain : String
defeat_villain = "system:defeat-villain"

abbrev pub is_ally : EffectWorld → List EffectRule → String → Bool
is_ally w rules id =
    is_some_and (entity w id)
      (λ (found : EffectZone × EffectEntity). card_type found.1 rules == some ally)

abbrev pub is_dark_mark : EffectWorld → String → Bool
is_dark_mark w id =
    is_some_and (entity w id)
      (λ (found : EffectZone × EffectEntity). found.1.catalog_id == some "dark-arts:016")

abbrev pub active_villain : EffectZone → EffectEntity → Bool
active_villain z source = z == active_villains && source.kind == villain

abbrev pub when : Bool → ℕ → ℕ → Option (ℕ × ℕ)
when test position times = if test then some (position, times) else none

unfoldable pub revelation_context :
    EffectReactionTrigger
    → EffectZone
    → EffectEntity
    → EffectOutcome
    → ℕ
    → EffectWorld
    → Option (ℕ × ℕ)
revelation_context EffectReactionTrigger.morsmordre_revealed_v1 z source
      (moved rule_id id owner from to) position w =
    when
      (from == dark_arts_deck
        && to == dark_arts_discard
        && active_villain z source
        && is_dark_mark w id)
      position 1
revelation_context EffectReactionTrigger.villain_revealed z source (moved rule_id id owner from to)
      position w =
    when
      (from == villain_deck
        && to == active_villains
        && active_villain z source
        && not (source.id == id))
      position 1
revelation_context _ z source outcome position w = none

-- The guard of the reactions to a discard.
unfoldable pub discard_is_met :
    EffectReactionTrigger
    → EffectZone
    → EffectEntity
    → String
    → String
    → EffectWorld
    → List EffectRule
    → Bool
discard_is_met EffectReactionTrigger.hero_forced_discard z source rule_id id w rules =
    active_villain z source && not (rule_id == voluntary_discard)
discard_is_met EffectReactionTrigger.self_forced_discard z source rule_id id w rules =
    source.id == id && z == hero_discard_pile
discard_is_met EffectReactionTrigger.self_harmful_discard z source rule_id id w rules =
    source.id == id
    && z == hero_discard_pile
    && not (rule_id == voluntary_discard)
    && (rule_id == "system:stunned" || is_harmful_rule w rule_id rules)
discard_is_met _ z source rule_id id w rules = false

abbrev pub is_discard : EffectZone → EffectZone → Bool
is_discard from to = (from == hero_hand || from == hero_draw_pile) && to == hero_discard_pile

unfoldable pub reaction_context :
    EffectReactionTrigger
    → EffectZone
    → EffectEntity
    → EffectOutcome
    → ℕ
    → EffectWorld
    → List EffectRule
    → Option (ℕ × ℕ)
unfolding revelation_context discard_is_met
reaction_context EffectReactionTrigger.morsmordre_revealed_v1 z source outcome position w rules =
    revelation_context EffectReactionTrigger.morsmordre_revealed_v1 z source outcome position w
reaction_context EffectReactionTrigger.villain_revealed z source outcome position w rules =
    revelation_context EffectReactionTrigger.villain_revealed z source outcome position w
reaction_context EffectReactionTrigger.owner_plays_ally z source
      (moved rule_id id (some owner) from to) position w rules =
    when
      (from == hero_hand
        && to == hero_play_area
        && rule_id == play_card
        && z == hero_play_area
        && owned_by (some owner) source
        && is_ally w rules id)
      owner 1
reaction_context EffectReactionTrigger.control_added z source
      (resource_changed rule_id id owner r before after effect) position w rules =
    when (r == control && active_villain z source && ltb before after) position (after - before)
reaction_context EffectReactionTrigger.owner_defeats_villain z source
      (moved rule_id id owner from to) position w rules =
    when
      (from == active_villains
        && to == villain_discard
        && rule_id == defeat_villain
        && z == hero_play_area
        && owned_by (some position) source)
      position 1
reaction_context trigger z source (moved rule_id id (some owner) from to) position w rules =
    when (is_discard from to && discard_is_met trigger z source rule_id id w rules) owner 1
reaction_context trigger z source outcome position w rules = none

abbrev pub repeated {ℓ} : {A : Type ℓ} → ℕ → A → List A
repeated zero a = []
repeated (suc n) a = a ∷ repeated n a

abbrev pub reactions_at : EffectCursor → Option (ℕ × ℕ) → List QueuedEffect
reactions_at cursor none = []
reactions_at cursor (some (position, times)) = repeated times (definition cursor position)

-- What the declarations of one source contribute to the reactions on one outcome.
unfoldable pub reactions_of :
    ℕ
    → EffectWorld
    → List EffectRule
    → EffectOutcome
    → EffectZone
    → EffectEntity
    → List Declaration
    → List QueuedEffect
unfolding reaction_context
reactions_of position w rules outcome z source [] = []
reactions_of position w rules outcome z source ((trigger, cursor) ∷ rest) =
    reactions_at cursor (reaction_context trigger z source outcome position w rules)
    ++ reactions_of position w rules outcome z source rest

abbrev pub declared_by : List EffectRule → Option String → Outcome (List Declaration)
declared_by rules none = ok []
declared_by rules (some id) = elim (rule_named id rules) [
  | none ↦ ok []
  | some rule ↦ collect_reactions rule.effect (root rule.id)
]

-- The rule of the ally that a card copies.
abbrev pub copied_rule : EffectWorld → EffectEntity → Option String
copied_rule w source =
    Option.bind source.copied_ally_id
      λ id. Option.bind (entity w id) λ (found : EffectZone × EffectEntity). found.1.effect_rule_id

-- The reactions of the sources of a table on one outcome.
unfoldable pub react_each :
    ℕ
    → EffectWorld
    → List EffectRule
    → EffectOutcome
    → List (EffectZone × EffectEntity)
    → Outcome (List QueuedEffect)
unfolding reactions_of collect_reactions
react_each position w rules outcome [] = ok []
react_each position w rules outcome ((z, source) ∷ sources) =
    if villain_ability_suppressed source then react_each position w rules outcome sources else do
      own ← declared_by rules source.effect_rule_id
      copied ← declared_by rules (copied_rule w source)
      rest ← react_each position w rules outcome sources
      ok (reactions_of position w rules outcome z source (own ++ copied) ++ rest)

unfoldable pub react_all :
    ℕ → EffectWorld → List EffectRule → List EffectOutcome → Outcome (List QueuedEffect)
unfolding react_each
react_all position w rules [] = ok []
react_all position w rules (outcome ∷ outcomes) = do
  first ← react_each position w rules outcome (entities w)
  rest ← react_all position w rules outcomes
  ok (first ++ rest)
