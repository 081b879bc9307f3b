-- ===== src/Executor/Machine/Definitions/Choosing.antt =====
-- The choices that stop an execution (crates/game-domain/src/effects.rs).
use rust_game_harry_potter.Base.{
  ℕ, zero, suc, ◌-◌, ◌/◌, String, Option, none, some, List, [], ◌∷◌, ◌==◌, nat_eq, string_eq,
  option_eq, if◌then◌else◌, ltb, ok, err, ◌>>=◌, ◌>>◌, ensure, ok_or, length, not,
}
use rust_game_harry_potter.Base.Sets.{sort_numbers}
use rust_game_harry_potter.Base.Text.{join, decimal}
use rust_game_harry_potter.Effects.Zones.{heroes, hero_hand}
use rust_game_harry_potter.Effects.Entities.{EffectEntity}
use rust_game_harry_potter.Effects.Rules.{trigger_eq, dark_arts_completed, EffectChoiceAudience}
use rust_game_harry_potter.Effects.Outcomes.{invalid_definition}
use rust_game_harry_potter.Effects.Choices.{
  EffectCursor, QueuedEffect, queued_choice, finish_stun, EffectStop, EffectContinuation,
  PendingEffectChoiceKind,
}
use rust_game_harry_potter.World.Store.{EffectWorld, entities_in, cards_in_zone}
use rust_game_harry_potter.World.Moves.{Outcome}
use rust_game_harry_potter.Executor.Cursors.{rule_named}
use rust_game_harry_potter.Executor.Stun
use rust_game_harry_potter.Executor.Machine.{
  Context, Machine, with_table, push_front, push_front_all,
}

-- What an effect leaves, and the stop it asks for.
abbrev pub Step : Type 0 → Type 0
Step S = Machine S × Option EffectStop

abbrev pub kind_name : PendingEffectChoiceKind → String
kind_name PendingEffectChoiceKind.effect = "effect"
kind_name PendingEffectChoiceKind.stun_discard = "stun-discard"
kind_name PendingEffectChoiceKind.target = "target"

-- `format!("{prefix}:{kind}:{step}")`
abbrev pub choice_name : String → PendingEffectChoiceKind → ℕ → String
choice_name prefix kind step =
    join prefix (join ":" (join (kind_name kind) (join ":" (decimal step))))

-- `filter_map(|entity| entity.owner_position)`
abbrev pub owners : List EffectEntity → List ℕ
owners [] = []
owners (e ∷ es) = elim e.owner_position [ none ↦ owners es | some position ↦ position ∷ owners es ]

-- `Vec::dedup`
abbrev pub dedup : List ℕ → List ℕ
dedup [] = []
dedup (n ∷ []) = n ∷ []
dedup (n ∷ m ∷ ns) = let rest = dedup (m ∷ ns) in if n == m then rest else n ∷ rest

unfoldable pub hero_positions : EffectWorld → List ℕ
hero_positions w = dedup (sort_numbers (owners (entities_in w heroes)))

-- `(first..).take(count).map(|index| format!("option:{index}"))`
unfoldable pub numbered_options : ℕ → ℕ → List String
numbered_options zero i = []
numbered_options (suc n) i = join "option:" (decimal i) ∷ numbered_options n (suc i)

abbrev pub waiting_choices : EffectCursor → List ℕ → List QueuedEffect
waiting_choices cursor [] = []
waiting_choices cursor (p ∷ ps) = queued_choice cursor p ∷ waiting_choices cursor ps

module _ {S : Type 0} where
  unfoldable pub continuation : EffectCursor → Machine S → EffectContinuation
  continuation cursor m = record {
    choice_cursor = cursor;
    queue = m.queue;
    steps_completed = m.steps;
  }

  unfoldable pub pending_choice_id :
      Context → EffectCursor → PendingEffectChoiceKind → Machine S → Outcome String
  pending_choice_id c cursor kind m = do
    ensure (ltb 0 m.steps) invalid_definition
    rule ← ok_or (rule_named cursor.rule_id c.rules) invalid_definition
    if rule.trigger == dark_arts_completed
        then ok (choice_name cursor.rule_id kind (m.steps - 1))
        else ok (choice_name "choice" kind (m.steps - 1))

  -- `Ok(Some(EffectStop::Choice(PendingEffectChoice { .. })))`
  unfoldable pub stop_for :
      Context
      → EffectCursor
      → PendingEffectChoiceKind
      → ℕ
      → List String
      → ℕ
      → ℕ
      → Machine S
      → Outcome (Step S)
  unfolding continuation pending_choice_id
  stop_for c cursor kind position options min max m = do
    id ← pending_choice_id c cursor kind m
    ok (
      m,
      some (
          EffectStop.choice (record {
            id = id;
            cause = cursor.rule_id;
            responsible_position = position;
            kind = kind;
            options = options;
            min = min;
            max = max;
            continuation = continuation cursor m;
          })),
    )

  unfoldable pub execute_choice : Context → EffectCursor → ℕ → ℕ → Machine S → Outcome (Step S)
  unfolding stop_for
  execute_choice c cursor position count m = do
    ensure (not (ltb count 2)) invalid_definition
    stop_for c cursor PendingEffectChoiceKind.effect position (numbered_options count 1) 1 1 m

  unfoldable pub execute_choice_audience :
      Context → EffectCursor → ℕ → EffectChoiceAudience → ℕ → Machine S → Outcome (Step S)
  unfolding execute_choice
  execute_choice_audience c cursor position EffectChoiceAudience.choice_actor count m =
      execute_choice c cursor position count m
  execute_choice_audience c cursor position EffectChoiceAudience.each_hero count m =
      elim (hero_positions m.table.world) [
        | [] ↦ err invalid_definition
        | first ∷ remaining ↦
            execute_choice c cursor first count
              (push_front_all (waiting_choices cursor remaining) m)
      ]

  unfoldable pub execute_stun_choice : Context → EffectCursor → ℕ → Machine S → Outcome (Step S)
  unfolding stop_for
  execute_stun_choice c cursor position m =
      let options = cards_in_zone m.table.world position hero_hand in
      let discard = length options / 2 in
      if discard == 0 then (Stun.finish_stun m.table >>= λ t. ok (with_table m t, none)) else do
        ensure (ltb discard 65536) invalid_definition
        stop_for c cursor PendingEffectChoiceKind.stun_discard position options discard discard
            (push_front (finish_stun cursor position) m)
