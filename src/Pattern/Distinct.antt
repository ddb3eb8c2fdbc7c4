-- ===== src/Pattern/Distinct.antt =====
-- `check_duplicate_variables` against the absence of a repeated variable.
use luaml.Prelude.{
  ℕ, ◌+◌, ◌≤◌, text_eq_iff, text_eq_refl, subst, ◌≡◌, refl, Text, Bool, true, false, ◌||◌, List, [],
  ◌∷◌, ◌++◌, ◌↔◌, text_eq, Bool-cases, inl, inr, arith,
}
use luaml.Prelude.Outcome.{ok}
use luaml.Pattern.{
  Pattern, ListPattern, Patterns, Fields, wildcard, enum, string_literal, number_literal,
  bool_literal, pin, variable, list, map, empty, head_tail, elements, no_patterns, pattern_cons,
  no_fields, field, elem, collect_vars_inner, collect_vars_list, collect_vars_elements,
  collect_vars_fields, collect_variables, all_variables, first_duplicate, check_duplicate_variables,
}

abbrev one : Bool → ℕ
one true = 1
one false = 0

cons-inj : {A : Type 0} {x y : A} {xs ys : List A} → (x ∷ xs) ≡ (y ∷ ys) → (x ≡ y) × (xs ≡ ys)
cons-inj h = (cc, cc)

or_false : (a : Bool) → (a || false) ≡ false → a ≡ false
or_false false h = refl
or_false true h = h

-- No text stands twice, and none is one of those seen before.
abbrev Distinct : List Text → List Text → Type 0
Distinct seen [] = Unit
Distinct seen (x ∷ xs) = (elem x seen ≡ false) × Distinct (x ∷ seen) xs

-- How often a variable stands in a pattern, and in the fields of a policy.
unfoldable mutual
  pub occurrences : Text → Pattern → ℕ
  occurrences x (variable name) = one (text_eq name x)
  occurrences x (list lp) = occurrences_list x lp
  occurrences x (map fields) = occurrences_fields x fields
  occurrences x _ = 0

  pub occurrences_list : Text → ListPattern → ℕ
  occurrences_list x empty = 0
  occurrences_list x (head_tail head tail) = occurrences x head + occurrences x tail
  occurrences_list x (elements ps) = occurrences_elements x ps

  pub occurrences_elements : Text → Patterns → ℕ
  occurrences_elements x no_patterns = 0
  occurrences_elements x (pattern_cons p ps) = occurrences x p + occurrences_elements x ps

  pub occurrences_fields : Text → Fields → ℕ
  occurrences_fields x no_fields = 0
  occurrences_fields x (field k p fs) = occurrences x p + occurrences_fields x fs

unfoldable count : Text → List Text → ℕ
count x [] = 0
count x (y ∷ ys) = one (text_eq y x) + count x ys

count-append : (x : Text) (ys zs : List Text) → count x (ys ++ zs) ≡ count x ys + count x zs
unfolding count
count-append x [] zs = omega arith
count-append x (y ∷ ys) zs = omega (arith, count-append x ys zs)

mutual
  unfolding collect_vars_inner occurrences count

  count_vars :
      (x : Text) (p : Pattern) (vars : List Text)
      → count x (collect_vars_inner p vars) ≡ count x vars + occurrences x p
  count_vars x (variable name) vars = omega (arith, count-append x vars (name ∷ []))
  count_vars x (list lp) vars = count_list x lp vars
  count_vars x (map fields) vars = count_fields x fields vars
  count_vars x wildcard vars = omega arith
  count_vars x (enum s) vars = omega arith
  count_vars x (string_literal s) vars = omega arith
  count_vars x (number_literal n) vars = omega arith
  count_vars x (bool_literal b) vars = omega arith
  count_vars x (pin s) vars = omega arith

  count_list :
      (x : Text) (lp : ListPattern) (vars : List Text)
      → count x (collect_vars_list lp vars) ≡ count x vars + occurrences_list x lp
  count_list x empty vars = omega arith
  count_list x (head_tail head tail) vars =
      omega (arith, count_vars x tail (collect_vars_inner head vars), count_vars x head vars)
  count_list x (elements ps) vars = count_elements x ps vars

  count_elements :
      (x : Text) (ps : Patterns) (vars : List Text)
      → count x (collect_vars_elements ps vars) ≡ count x vars + occurrences_elements x ps
  count_elements x no_patterns vars = omega arith
  count_elements x (pattern_cons p ps) vars =
      omega (arith, count_elements x ps (collect_vars_inner p vars), count_vars x p vars)

  count_fields :
      (x : Text) (fs : Fields) (vars : List Text)
      → count x (collect_vars_fields fs vars) ≡ count x vars + occurrences_fields x fs
  count_fields x no_fields vars = omega arith
  count_fields x (field k p fs) vars =
      omega (arith, count_fields x fs (collect_vars_inner p vars), count_vars x p vars)

count-all_variables :
    (x : Text) (fs : Fields) → count x (all_variables fs) ≡ occurrences_fields x fs
unfolding all_variables collect_variables occurrences count
count-all_variables x no_fields = refl
count-all_variables x (field k p fs) = omega (
  arith,
  count-append x (collect_vars_inner p []) (all_variables fs),
  count_vars x p [],
  count-all_variables x fs,
)

Distinct-count :
    (seen xs : List Text) → Distinct seen xs → (x : Text) → count x xs + one (elem x seen) ≤ 1
unfolding elem count
Distinct-count seen [] h x = ground arith
Distinct-count seen (y ∷ ys) h x = elim (Bool-cases (text_eq y x)) [
  | inl e ↦
      let same = (text_eq_iff y x).0 e in
      let new : elem x seen ≡ false = subst (λ z. elem z seen ≡ false) same h.0 in
      let rest = Distinct-count (y ∷ seen) ys h.1 x in ground arith
  | inr e ↦ let rest = Distinct-count (y ∷ seen) ys h.1 x in ground arith
]

count-Distinct :
    (seen xs : List Text) → ((x : Text) → count x xs + one (elem x seen) ≤ 1) → Distinct seen xs
unfolding elem count
count-Distinct seen [] h = tt
count-Distinct seen (y ∷ ys) h =
    let here = h y in
    let own = text_eq_refl y in
    (ground arith, count-Distinct (y ∷ seen) ys λ x. let there = h x in ground arith)

duplicate_sound : (seen xs : List Text) → first_duplicate seen xs ≡ ok tt → Distinct seen xs
unfolding first_duplicate
duplicate_sound seen [] h = tt
duplicate_sound seen (x ∷ xs) h = elim (Bool-cases (elem x seen)) [
  | inl e ↦ cc (rw (e) at h)
  | inr e ↦ (e, duplicate_sound (x ∷ seen) xs (rw e at h))
]

duplicate_complete : (seen xs : List Text) → Distinct seen xs → first_duplicate seen xs ≡ ok tt
unfolding first_duplicate
duplicate_complete seen [] h = refl
duplicate_complete seen (x ∷ xs) h = rw h.0 (duplicate_complete (x ∷ seen) xs h.1)

-- `check_duplicate_variables` accepts exactly the policies in whose fields no variable stands twice,
-- however deep in their patterns it stands.
pub check_duplicate_variables_iff :
    (fs : Fields)
    → (check_duplicate_variables fs ≡ ok tt) ↔ ((x : Text) → occurrences_fields x fs ≤ 1)
unfolding check_duplicate_variables elem
check_duplicate_variables_iff fs = (
  λ h x.
      let once = Distinct-count [] (all_variables fs) (duplicate_sound [] (all_variables fs) h) x in
      omega (arith, once, count-all_variables x fs),
  λ h.
      duplicate_complete [] (all_variables fs)
        (count-Distinct [] (all_variables fs) λ x. omega (arith, h x, count-all_variables x fs)),
)
