-- ===== src/Executor/Resume/Selections.antt =====
-- The selections that a choice accepts (`normalize_effect_choice_selection` of
-- crates/game-domain/src/effects.rs).
use rust_game_harry_potter.Base.{
  and-left, ◌≡◌, refl, sym, ap, subst, ◌∙◌, suc, ◌||◌, String, Bool, true, false, ◌&&◌, some, List,
  [], ◌∷◌, ◌==◌, nat_eq, string_eq, length, contains, keep, all, arith, Bool-cases, inl, inr,
}
use rust_game_harry_potter.Base.Sets.{all_distinct}
use rust_game_harry_potter.Effects.Choices.{PendingEffectChoice}
use rust_game_harry_potter.Executor.Resume.{
  effect_choice_selection_is_valid, normalize_effect_choice_selection,
}

contains-keep :
    (p : String → Bool) (xs : List String) (x : String)
    → contains (keep p xs) x ≡ (contains xs x && p x)
contains-keep p [] x = refl
contains-keep p (y ∷ ys) x = elim (Bool-cases (p y)) [
  | inl e ↦ ground (arith, contains-keep p ys x, e)
  | inr e ↦ ground (arith, contains-keep p ys x, e)
]

all_distinct-keep :
    (p : String → Bool) (xs : List String)
    → all_distinct xs ≡ true
    → all_distinct (keep p xs) ≡ true
all_distinct-keep p [] h = refl
all_distinct-keep p (x ∷ xs) h = elim (Bool-cases (p x)) [
  | inl e ↦ ground (arith, e, h, contains-keep p xs x, all_distinct-keep p xs)
  | inr e ↦ rw e (all_distinct-keep p xs (ground arith))
]

-- A text that is not in the list makes no difference to what is kept.
keep-absent :
    (s : String) (q : String → Bool) (xs : List String)
    → contains xs s ≡ false
    → keep (λ x. s == x || q x) xs ≡ keep q xs
keep-absent s q [] h = refl
keep-absent s q (x ∷ xs) h =
    let apart : (s == x) ≡ false = ground arith in
    rw (apart, keep-absent s q xs (ground arith)) refl

length-keep_one :
    (s : String) (q : String → Bool) (xs : List String)
    → all_distinct xs ≡ true
    → contains xs s ≡ true
    → q s ≡ false
    → length (keep (λ x. s == x || q x) xs) ≡ suc (length (keep q xs))
length-keep_one s q [] h k l = cc
length-keep_one s q (x ∷ xs) h k l = elim (Bool-cases (s == x)) [
  | inl e ↦
      let same : s ≡ x = ground arith in
      let once : contains xs s ≡ false = ground arith in
      let unkept : q x ≡ false = ground arith in rw (e, unkept, keep-absent s q xs once) refl
  | inr e ↦
      let later = length-keep_one s q xs (ground arith) (ground arith) l in
      elim (Bool-cases (q x)) [ inl a ↦ rw (e, a, later) refl | inr a ↦ rw (e, a, later) refl ]
]

keep-nothing : (xs : List String) → keep (contains []) xs ≡ []
keep-nothing [] = refl
keep-nothing (x ∷ xs) = keep-nothing xs

-- As many options are kept as were selected.
length-keep_selected :
    (selected options : List String)
    → all_distinct options ≡ true
    → all_distinct selected ≡ true
    → all (contains options) selected ≡ true
    → length (keep (contains selected) options) ≡ length selected
length-keep_selected [] options h k l = ap length (keep-nothing options)
length-keep_selected (s ∷ selected) options h k l =
    length-keep_one s (contains selected) options h (ground arith) (ground arith)
    ∙ ap suc (length-keep_selected selected options h (ground arith) (ground arith))

all-holds :
    (q : String → Bool) (xs : List String) (x : String)
    → all q xs ≡ true
    → contains xs x ≡ true
    → q x ≡ true
all-holds q [] x h k = cc
all-holds q (y ∷ ys) x h k = elim (Bool-cases (y == x)) [
  | inl e ↦ let same : y ≡ x = ground arith in rw (← same) (ground arith)
  | inr e ↦ all-holds q ys x (ground arith) (ground arith)
]

holds-all :
    (q : String → Bool) (xs : List String)
    → ((x : String) → contains xs x ≡ true → q x ≡ true)
    → all q xs ≡ true
holds-all q [] h = refl
holds-all q (x ∷ xs) h =
    let own : (x == x) ≡ true = ground arith in
    let here : contains (x ∷ xs) x ≡ true = rw own refl in
    rw (h x here) (holds-all q xs λ y k. h y (ground arith))

keep-ext :
    (p q : String → Bool) (xs : List String) → ((x : String) → p x ≡ q x) → keep p xs ≡ keep q xs
keep-ext p q [] h = refl
keep-ext p q (x ∷ xs) h = rw (h x, keep-ext p q xs h) refl

selected-offered :
    (options selected : List String) (option : String)
    → all (contains options) selected ≡ true
    → (contains options option && contains selected option) ≡ contains selected option
selected-offered options selected option h = elim (Bool-cases (contains selected option)) [
  | inl e ↦ rw (e, all-holds (contains options) selected option h e) refl
  | inr e ↦ ground (arith, e)
]

-- A list that leaves out some elements of another one and keeps the order of the rest.
pub data Sublist : List String → List String → Type 0 where
  nothing : Sublist [] []
  dropped : {xs ys : List String} (y : String) → Sublist xs ys → Sublist xs (y ∷ ys)
  taken : {xs ys : List String} (y : String) → Sublist xs ys → Sublist (y ∷ xs) (y ∷ ys)

keep-Sublist : (p : String → Bool) (xs : List String) → Sublist (keep p xs) xs
keep-Sublist p [] = nothing
keep-Sublist p (x ∷ xs) = elim (Bool-cases (p x)) [
  | inl e ↦ rw e (taken x (keep-Sublist p xs))
  | inr e ↦ rw e (dropped x (keep-Sublist p xs))
]

-- A normalized selection: it is a valid selection of the same options, in the order of the choice,
-- and normalizing it again changes nothing.
pub record Normalized (choice : PendingEffectChoice) (selected out : List String) : Type 0 where
  pub valid : effect_choice_selection_is_valid choice out ≡ true
  pub same : (option : String) → contains out option ≡ contains selected option
  pub ordered : Sublist out choice.options
  pub stable : normalize_effect_choice_selection choice out ≡ some out

kept-Normalized :
    (choice : PendingEffectChoice) (selected : List String)
    → all_distinct choice.options ≡ true
    → effect_choice_selection_is_valid choice selected ≡ true
    → Normalized choice selected (keep (contains selected) choice.options)
unfolding effect_choice_selection_is_valid normalize_effect_choice_selection
kept-Normalized choice selected distinct h =
    let out = keep (contains selected) choice.options in
    let among : all (contains choice.options) selected ≡ true = ground arith in
    let once : all_distinct selected ≡ true = ground arith in
    let as_many = length-keep_selected selected choice.options distinct once among in
    let same : (option : String) → contains out option ≡ contains selected option = λ option.
      contains-keep (contains selected) choice.options option
      ∙ selected-offered choice.options selected option among in
    let offered = holds-all (contains choice.options) out λ x k.
      and-left (contains choice.options x) (contains selected x)
        (sym (contains-keep (contains selected) choice.options x) ∙ k) in
    let valid : effect_choice_selection_is_valid choice out ≡ true =
      ground (
        arith,
        h,
        as_many,
        offered,
        all_distinct-keep (contains selected) choice.options distinct,
      ) in
    record {
      valid = valid;
      same = same;
      ordered = keep-Sublist (contains selected) choice.options;
      stable =
          rw (valid) (ap some (keep-ext (contains out) (contains selected) choice.options same));
    }

-- Normalizing a selection of a choice with distinct options keeps the selected options, puts them in
-- the order in which the choice offers them, gives a valid selection again, and changes nothing the
-- second time.
pub normalize_effect_choice_selection-Normalized :
    (choice : PendingEffectChoice) (selected : List String) {out : List String}
    → all_distinct choice.options ≡ true
    → normalize_effect_choice_selection choice selected ≡ some out
    → Normalized choice selected out
unfolding normalize_effect_choice_selection
normalize_effect_choice_selection-Normalized choice selected {out} distinct h =
    elim (Bool-cases (effect_choice_selection_is_valid choice selected)) [
      | inl e ↦
          let is_out : keep (contains selected) choice.options ≡ out = ground arith in
          subst (Normalized choice selected) is_out (kept-Normalized choice selected distinct e)
      | inr e ↦ absurd (ground arith)
    ]
