-- ===== src/Stdlib/Path/Relative.antt =====
-- Where a relative path leads.
use luaml.Prelude.{
  ◌≡◌, refl, ap, sym, ◌∙◌, Text, Bool, true, false, List, [], ◌∷◌, Bool-cases, if◌then◌else◌, inl,
  inr,
}
use luaml.Matching.{bool_eq}
use luaml.Paths.{Component, root_dir, cur_dir, parent_dir, normal, component_eq, components}
use luaml.Paths.Equality.{component_eq_iff}
use luaml.Stdlib.Path.{
  normalize_lexical, is_absolute, up, relative_parts, relative_lexical, relative,
}
use luaml.Stdlib.Path.Normal.{above, step, lead, lead-append, lead-normalize, lead-dot}
use luaml.Stdlib.Path.Tidy.{Names}

-- Names, or the root and names below it: no dot and no step up.
abbrev pub Plain : List Component → Type 0
Plain (root_dir ∷ cs) = Names cs
Plain cs = Names cs

up-above :
    (dir : List Text) (cs : List Component) → lead (above dir) (up cs) ≡ above (lead dir (up cs))
unfolding lead
up-above dir [] = refl
up-above dir (c ∷ cs) = up-above (above dir) cs

-- Steps up undo names.
Names-up : (dir : List Text) (cs : List Component) → Names cs → lead (lead dir cs) (up cs) ≡ dir
unfolding lead
Names-up dir [] h = refl
Names-up dir (normal s ∷ cs) h =
    up-above (lead (s ∷ dir) cs) cs ∙ ap above (Names-up (s ∷ dir) cs h)
Names-up dir (root_dir ∷ cs) h = absurd h
Names-up dir (cur_dir ∷ cs) h = absurd h
Names-up dir (parent_dir ∷ cs) h = absurd h

Names-relative :
    (dir : List Text) (from to : List Component)
    → Names from
    → lead (lead dir from) (relative_parts from to) ≡ lead dir to
unfolding relative_parts lead
Names-relative dir [] to h = refl
Names-relative dir (c ∷ from) [] h =
    lead-append (lead dir (c ∷ from)) (up (c ∷ from)) [] ∙ Names-up dir (c ∷ from) h
Names-relative dir (normal s ∷ from) (d ∷ to) h = elim (Bool-cases (component_eq (normal s) d)) [
  | inl e ↦
      rw (e, if◌then◌else◌)
        (Names-relative (s ∷ dir) from to h
          ∙ ap (λ c. lead (step dir c) to) ((component_eq_iff (normal s) d).0 e))
  | inr e ↦
      rw (e, if◌then◌else◌)
        (lead-append (lead dir (normal s ∷ from)) (up (normal s ∷ from)) (d ∷ to)
          ∙ ap (λ x. lead x (d ∷ to)) (Names-up dir (normal s ∷ from) h))
]
Names-relative dir (root_dir ∷ from) (d ∷ to) h = absurd h
Names-relative dir (cur_dir ∷ from) (d ∷ to) h = absurd h
Names-relative dir (parent_dir ∷ from) (d ∷ to) h = absurd h

Plain-relative :
    (dir : List Text) (from to : List Component)
    → Plain from
    → is_absolute from ≡ is_absolute to
    → lead (lead dir from) (relative_parts from to) ≡ lead dir to
unfolding relative_parts lead is_absolute component_eq
Plain-relative dir (root_dir ∷ from) (root_dir ∷ to) h a = Names-relative [] from to h
Plain-relative dir (root_dir ∷ from) [] h a = cc
Plain-relative dir (root_dir ∷ from) (cur_dir ∷ to) h a = cc
Plain-relative dir (root_dir ∷ from) (parent_dir ∷ to) h a = cc
Plain-relative dir (root_dir ∷ from) (normal s ∷ to) h a = cc
Plain-relative dir [] to h a = Names-relative dir [] to h
Plain-relative dir (normal s ∷ from) to h a = Names-relative dir (normal s ∷ from) to h
Plain-relative dir (cur_dir ∷ from) to h a = absurd h
Plain-relative dir (parent_dir ∷ from) to h a = absurd h

bool_eq-same : (a b : Bool) → a ≡ b → bool_eq a b ≡ true
bool_eq-same true true h = refl
bool_eq-same false false h = refl
bool_eq-same true false h = cc
bool_eq-same false true h = cc

-- When both paths are absolute or neither is, and the first, normalized, is of names only, below
-- the root or not, then the relative path leads from where the first leads to where the second
-- leads, as far as no links are followed.
pub relative-lead :
    (dir : List Text) (from to : Text)
    → Plain (normalize_lexical (components from))
    → is_absolute (normalize_lexical (components from))
      ≡ is_absolute (normalize_lexical (components to))
    → lead (lead dir (components from)) (relative (components from) (components to))
      ≡ lead dir (components to)
unfolding relative relative_lexical
relative-lead dir from to h a =
    let from_n = normalize_lexical (components from) in
    let to_n = normalize_lexical (components to) in
    rw (bool_eq-same (is_absolute from_n) (is_absolute to_n) a, if◌then◌else◌)
      (lead-dot (lead dir (components from)) (relative_parts from_n to_n)
        ∙ ap (λ d. lead d (relative_parts from_n to_n)) (sym (lead-normalize dir (components from)))
        ∙ Plain-relative dir from_n to_n h a
        ∙ lead-normalize dir (components to))
