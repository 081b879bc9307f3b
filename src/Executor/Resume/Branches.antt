-- ===== src/Executor/Resume/Branches.antt =====
-- A choice between effects and its resumption (`execute_choice` and `resume_effects` of
-- crates/game-domain/src/effects.rs).
use mathlib.Core.Option
use rust_game_harry_potter.Base.{
  ℕ, zero, suc, ◌≡◌, ◌≤◌, ◌<◌, refl, sym, ap, ◌∙◌, inl, inr, String, true, not, Option, some, List,
  [], ◌∷◌, ◌++◌, nat_eq, string_eq, ◌==◌, ltb, ok, length, contains, get_elem?, arith, Option-cases,
  Bool-cases, Ensures, yields, Ensures-ok, Ensures->>=, Ensures-ensure,
}
use rust_game_harry_potter.Effects.Rules.{
  EffectDefinition, EffectDefinitions, EffectRule, EffectChoiceAudience,
}
use rust_game_harry_potter.Effects.Choices.{
  EffectCursor, EffectPathSegment, EffectStop, PendingEffectChoice, PendingEffectChoiceKind,
  definition,
}
use rust_game_harry_potter.Executor.Cursors.{
  child, rule_named, effect_count, effect_at, descend, follow, effect_at_cursor,
}
use rust_game_harry_potter.Executor.Machine.{Context, Machine, push_front}
use rust_game_harry_potter.Executor.Machine.Definitions.Choosing.{
  continuation, numbered_options, pending_choice_id, stop_for, execute_choice,
}
use rust_game_harry_potter.Executor.Resume.{index_of, cursor_of, choose_effect}

-- An option of a list stands at the index that is found for it.
record Place (option : String) (options : List String) : Type 0 where
  at : ℕ
  found : index_of option options ≡ some at
  there : get_elem? options at ≡ some option
  small : at < length options

index_of_lem :
    (option : String) (options : List String)
    → contains options option ≡ true
    → Place option options
unfolding index_of
index_of_lem option [] h = cc
index_of_lem option (x ∷ xs) h = elim (Bool-cases (x == option)) [
  | inl e ↦ record { at = 0; found = rw e refl; there = ground arith; small = omega arith }
  | inr e ↦
      let later = index_of_lem option xs (ground arith) in
      record {
        at = suc later.at;
        found = rw (e, later.found) refl;
        there = later.there;
        small = omega (arith, later.small);
      }
]

effect_at-some :
    (es : EffectDefinitions) (i : ℕ)
    → i < effect_count es
    → (e : EffectDefinition) × (effect_at es i ≡ some e)
unfolding effect_at effect_count
effect_at-some EffectDefinitions.nil i h = absurd (omega arith)
effect_at-some (EffectDefinitions.cons e es) zero h = (e, refl)
effect_at-some (EffectDefinitions.cons e es) (suc i) h = effect_at-some es i (omega arith)

follow-append :
    (e : EffectDefinition) (path : List EffectPathSegment) (segment : EffectPathSegment)
    → follow e (path ++ segment ∷ []) ≡ Option.bind (follow e path) (λ d. descend d segment)
unfolding follow Option.bind
follow-append e [] segment = elim (Option-cases (descend e segment)) [
  | inl h ↦ rw h refl
  | inr (d, h) ↦ rw h refl
]
follow-append e (s ∷ path) segment = elim (Option-cases (descend e s)) [
  | inl h ↦ rw h refl
  | inr (d, h) ↦ rw h (follow-append d path segment)
]

-- One segment further from where a cursor stands.
pub effect_at_cursor-child :
    (rules : List EffectRule) (cursor : EffectCursor) (segment : EffectPathSegment)
    → effect_at_cursor rules (child cursor segment)
      ≡ Option.bind (effect_at_cursor rules cursor) (λ e. descend e segment)
unfolding effect_at_cursor Option.bind
effect_at_cursor-child rules cursor segment =
    elim (Option-cases (rule_named cursor.rule_id rules)) [
      | inl h ↦ rw h refl
      | inr (rule, h) ↦ rw h (follow-append rule.effect cursor.path segment)
    ]

choice_of :
    {p q : PendingEffectChoice} → some (EffectStop.choice p) ≡ some (EffectStop.choice q) → p ≡ q
choice_of h = cc

-- What a choice between effects asks.
record Asked (cursor : EffectCursor) (count : ℕ) (stop : Option EffectStop) : Type 0 where
  same : (p : PendingEffectChoice) → stop ≡ some (EffectStop.choice p) → cursor_of p ≡ cursor
  asks :
      (p : PendingEffectChoice)
      → stop ≡ some (EffectStop.choice p)
      → p.options ≡ numbered_options count 1

length-numbered : (n i : ℕ) → length (numbered_options n i) ≡ n
unfolding numbered_options
length-numbered zero i = refl
length-numbered (suc n) i = ap suc (length-numbered n (suc i))

module _ {S : Type 0} where
  execute_choice-Asked :
      (c : Context) (cursor : EffectCursor) (position count : ℕ) (m : Machine S)
      → Ensures (λ r. Asked cursor count r.1) (execute_choice c cursor position count m)
  unfolding execute_choice stop_for continuation
  execute_choice-Asked c cursor position count m = Ensures-ensure (not (ltb count 2)) _ _ λ several.
      Ensures->>= (pending_choice_id c cursor PendingEffectChoiceKind.effect m) _ λ id h.
        yields (record {
          same = λ p e. ap (λ (x : PendingEffectChoice). cursor_of x) (sym (choice_of e));
          asks = λ p e. ap (λ (x : PendingEffectChoice). x.options) (sym (choice_of e));
        })

-- The branch that a selected option leads to.
pub record Branch {S : Type 0} (rules : List EffectRule) (options : EffectDefinitions)
    (pending : PendingEffectChoice) (option : String) (m : Machine S) : Type 0 where
  pub index : ℕ
  pub effect : EffectDefinition
  pub chosen : get_elem? pending.options index ≡ some option
  pub branch : effect_at options index ≡ some effect
  pub reached :
      effect_at_cursor rules (child (cursor_of pending) (EffectPathSegment.choice_option index))
      ≡ some effect
  pub resumed :
      choose_effect pending (option ∷ []) (effect_count options) m
      ≡ ok (
          push_front
            (definition
              (child (cursor_of pending) (EffectPathSegment.choice_option index))
              pending.responsible_position)
            m)

-- When an effect stops at a choice between its options, every option that may be selected resumes it:
-- the effect in the option's place, which the cursor reaches, goes to the front of the queue. There
-- are no more options than a path can name.
pub choose_effect-execute_choice :
    {S : Type 0} (c : Context) (cursor : EffectCursor) (position : ℕ) (m n o : Machine S)
    (audience : EffectChoiceAudience) (options : EffectDefinitions) (pending : PendingEffectChoice)
    (option : String)
    → effect_at_cursor c.rules cursor ≡ some (EffectDefinition.choice audience options)
    → effect_count options ≤ 65536
    → execute_choice c cursor position (effect_count options) m
      ≡ ok (n, some (EffectStop.choice pending))
    → contains pending.options option ≡ true
    → Branch c.rules options pending option o
unfolding choose_effect descend Option.bind
choose_effect-execute_choice c cursor position m n o audience options pending option at few h k =
    let asked = Ensures-ok (execute_choice-Asked c cursor position (effect_count options) m) h in
    let place = index_of_lem option pending.options k in
    let as_many : length pending.options ≡ effect_count options =
      ap length (asked.asks pending refl) ∙ length-numbered (effect_count options) 1 in
    let (e, branch) = effect_at-some options place.at (omega (arith, place.small, as_many)) in
    let fits : (length pending.options == effect_count options) ≡ true = ground (arith, as_many) in
    let small : ltb place.at 65536 ≡ true = ground (arith, place.small, as_many, few) in
    record {
      index = place.at;
      effect = e;
      chosen = place.there;
      branch = branch;
      reached =
          effect_at_cursor-child c.rules (cursor_of pending)
            (EffectPathSegment.choice_option place.at)
          ∙ rw (asked.same pending refl, at) branch;
      resumed = rw (fits, place.found, small) refl;
    }
