-- ===== src/Matching/Policy.antt =====
-- `match_fields` against what it means for an event to meet a policy, and patterns with a pin.
use luaml.Prelude.{
  Bool, true, false, none, some, ◌≡◌, refl, ◌↔◌, ◌⊎◌, inl, inr, arith, Option-cases, ◌||◌,
}
use luaml.Prelude.Maybe.{>>=-eq-some, if_some}
use luaml.Types.{FieldValue, Values, FieldMap, nil, cons, get, extend}
use luaml.Pattern.{
  Pattern, ListPattern, Patterns, Fields, enum, pin, list, map, head_tail, elements, no_patterns,
  pattern_cons, no_fields, field,
}
use luaml.Matching.{match_field_value, match_fields, match_fields_loop, is_global_enum}
use luaml.Matching.Fits.{Fits, FitsList, FitsElements, FitsMap, Anything, match_iff}

-- An event meets a policy if each field of the policy is there with a value that fits, or is
-- missing under the pattern `:global:`.
abbrev pub Meets : {F : Type 0} → Fields → FieldMap F → Type 0
Meets no_fields input = Unit
Meets {F} (field k p fs) input =
    (((get input k ≡ none) × (is_global_enum p ≡ true))
      ⊎ ((v : FieldValue F) × (get input k ≡ some v) × Fits Anything p v))
    × Meets fs input

Meets-complete :
    {F : Type 0} (fs : Fields) (input m : FieldMap F)
    → Meets fs input
    → (b : FieldMap F) × (match_fields_loop fs input m ≡ some b)
unfolding match_fields_loop
Meets-complete no_fields input m h = (m, refl)
Meets-complete (field k p fs) input m (inl (absent, global), h) =
    rw (absent, match_fields_loop) (rw global (Meets-complete fs input m h))
Meets-complete (field k p fs) input m (inr (v, present, fit), h) =
    let (b, e) = (match_iff p v).1 fit in
    rw (present, match_fields_loop) (rw e (Meets-complete fs input (extend m b) h))

Meets-sound :
    {F : Type 0} (fs : Fields) (input m b : FieldMap F)
    → match_fields_loop fs input m ≡ some b
    → Meets fs input
unfolding match_fields_loop
Meets-sound no_fields input m b h = tt
Meets-sound (field k p fs) input m b h = elim (Option-cases (get input k)) [
  | inl absent ↦
      let (g, h') = if_some (is_global_enum p) (rw (absent, match_fields_loop) at h) in
      (inl (absent, g), Meets-sound fs input m b h')
  | inr (v, present) ↦
      let (b₁, e₁, h₁) =
        >>=-eq-some (match_field_value p v) _ (rw (present, match_fields_loop) at h) in
      (inr (v, present, (match_iff p v).0 (b₁, e₁)), Meets-sound fs input (extend m b₁) b h₁)
]

pub match_fields_iff :
    {F : Type 0} (fs : Fields) (input : FieldMap F)
    → ((b : FieldMap F) × (match_fields fs input ≡ some b)) ↔ Meets fs input
unfolding match_fields
match_fields_iff fs input =
    (λ (b, e). Meets-sound fs input FieldMap.empty b e, Meets-complete fs input FieldMap.empty)

-- Whether a pin `^name` stands anywhere in a pattern.
unfoldable mutual
  pub has_pin : Pattern → Bool
  has_pin (pin x) = true
  has_pin (list lp) = has_pin_list lp
  has_pin (map fs) = has_pin_fields fs
  has_pin _ = false

  pub has_pin_list : ListPattern → Bool
  has_pin_list (head_tail p q) = has_pin p || has_pin q
  has_pin_list (elements ps) = has_pin_elements ps
  has_pin_list ListPattern.empty = false

  pub has_pin_elements : Patterns → Bool
  has_pin_elements no_patterns = false
  has_pin_elements (pattern_cons p ps) = has_pin p || has_pin_elements ps

  pub has_pin_fields : Fields → Bool
  has_pin_fields no_fields = false
  has_pin_fields (field k p fs) = has_pin p || has_pin_fields fs

or-false : (a b : Bool) → a ≡ false → b ≡ false → (a || b) ≡ false
or-false a b h g = ground arith

mutual
  unfolding Fits has_pin

  fit_no_pin : {F : Type 0} (p : Pattern) (v : FieldValue F) → Fits Anything p v → has_pin p ≡ false
  fit_no_pin (pin x) v h = absurd h
  fit_no_pin (list lp) v h = fit_no_pin_list lp v h
  fit_no_pin (map fs) (FieldValue.map obj) h = fit_no_pin_fields fs obj h
  fit_no_pin (map fs) _ h = absurd h
  fit_no_pin _ v h = refl

  fit_no_pin_list :
      {F : Type 0} (lp : ListPattern) (v : FieldValue F)
      → FitsList Anything lp v
      → has_pin_list lp ≡ false
  fit_no_pin_list ListPattern.empty v h = refl
  fit_no_pin_list (head_tail p q) (FieldValue.list (cons x xs)) h =
      or-false _ _ (fit_no_pin p x h.0) (fit_no_pin q (FieldValue.list xs) h.1)
  fit_no_pin_list (elements ps) (FieldValue.list xs) h = fit_no_pin_elements ps xs h
  fit_no_pin_list _ _ h = absurd h

  fit_no_pin_elements :
      {F : Type 0} (ps : Patterns) (xs : Values F)
      → FitsElements Anything ps xs
      → has_pin_elements ps ≡ false
  fit_no_pin_elements no_patterns xs h = refl
  fit_no_pin_elements (pattern_cons p ps) (cons x xs) h =
      or-false _ _ (fit_no_pin p x h.0) (fit_no_pin_elements ps xs h.1)
  fit_no_pin_elements (pattern_cons p ps) nil h = absurd h

  fit_no_pin_fields :
      {F : Type 0} (fs : Fields) (obj : FieldMap F)
      → FitsMap Anything fs obj
      → has_pin_fields fs ≡ false
  fit_no_pin_fields no_fields obj h = refl
  fit_no_pin_fields (field k p fs) obj ((v, g, f), h) =
      or-false _ _ (fit_no_pin p v f) (fit_no_pin_fields fs obj h)

global_no_pin : (p : Pattern) → is_global_enum p ≡ true → has_pin p ≡ false
unfolding is_global_enum has_pin
global_no_pin (enum s) h = refl
global_no_pin _ h = cc

Meets-no_pin :
    {F : Type 0} (fs : Fields) (input : FieldMap F) → Meets fs input → has_pin_fields fs ≡ false
unfolding has_pin
Meets-no_pin no_fields input h = refl
Meets-no_pin (field k p fs) input (inl (absent, g), h) =
    or-false _ _ (global_no_pin p g) (Meets-no_pin fs input h)
Meets-no_pin (field k p fs) input (inr (v, present, f), h) =
    or-false _ _ (fit_no_pin p v f) (Meets-no_pin fs input h)

-- A policy with a pin anywhere in it matches no event.
pub match_fields-pin :
    {F : Type 0} (fs : Fields) (input : FieldMap F)
    → has_pin_fields fs ≡ true
    → match_fields fs input ≡ none
match_fields-pin fs input h = elim (Option-cases (match_fields fs input)) [
  | inl e ↦ e
  | inr (b, e) ↦ cc (Meets-no_pin fs input ((match_fields_iff fs input).0 (b, e)))
]
