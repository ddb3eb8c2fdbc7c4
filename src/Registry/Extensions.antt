-- ===== src/Registry/Extensions.antt =====
-- The queries on extensions agree with each other.
use luaml.Prelude.{
  ◌≡◌, refl, ap, subst, ◌∙◌, Text, Bool, true, false, not, ◌||◌, Option, none, some, List, [], ◌∷◌,
  text_eq, text_eq_iff, Bool-cases, inl, inr, arith,
}
use luaml.Pattern.{elem}
use luaml.Matching.Domain.{elem-append, or_assoc}
use luaml.Clause.{Script}
use luaml.Registry.{
  ScriptRegistry, any_extension, has_extension, add_name, names_loop, extension_names,
  filter_extension, scripts_for_extension,
}

-- `scripts_for_extension(…).is_empty()`.
abbrev pub is_empty : List Script → Bool
is_empty [] = true
is_empty (s ∷ ss) = false

abbrev declared : Text → Option Text → Bool
declared x none = false
declared x (some e) = text_eq e x

elem-add_name :
    (x : Text) (names : List Text) (e : Option Text)
    → elem x (add_name names e) ≡ (elem x names || declared x e)
unfolding elem
elem-add_name x names none = ground arith
elem-add_name x names (some e) = elim (Bool-cases (elem e names)) [
  | inl h ↦ elim (Bool-cases (text_eq e x)) [
    | inl g ↦
        let there : elem x names ≡ true =
          subst (λ y. elem y names ≡ true) ((text_eq_iff e x).0 g) h in
        ground arith
    | inr g ↦ ground arith
  ]
  | inr h ↦ let grown = elem-append x names (e ∷ []) in ground arith
]

elem-names_loop :
    (x : Text) (names : List Text) (ss : List Script)
    → elem x (names_loop names ss) ≡ (elem x names || any_extension x ss)
unfolding names_loop any_extension
elem-names_loop x names [] = ground arith
elem-names_loop x names (s ∷ ss) =
    elem-names_loop x (add_name names s.extension) ss
    ∙ ap (λ b. b || any_extension x ss) (elem-add_name x names s.extension)
    ∙ or_assoc (elem x names) (declared x s.extension) (any_extension x ss)

filter-any :
    (x : Text) (ss : List Script) → is_empty (filter_extension x ss) ≡ not (any_extension x ss)
unfolding filter_extension any_extension
filter-any x [] = refl
filter-any x (s ∷ ss) = ground (arith, filter-any x ss)

-- A name is among the extension names exactly when some script declares it, and then there are
-- scripts for that extension, and only then.
pub elem-extension_names :
    (r : ScriptRegistry) (x : Text)
    → (elem x (extension_names r) ≡ has_extension r x)
      × (is_empty (scripts_for_extension r x) ≡ not (has_extension r x))
unfolding extension_names has_extension scripts_for_extension elem
elem-extension_names r x = (elem-names_loop x [] r.scripts, filter-any x r.scripts)
