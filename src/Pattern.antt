-- ===== src/Pattern.antt =====
-- crates/luaml/src/pattern.rs: the pattern AST, and the variables that a pattern binds.
pub mod Chars
pub mod Split
pub mod Number
pub mod Parse
pub mod Lengths
pub mod Total
pub mod Distinct
use luaml.Prelude.{Text, Bool, false, List, [], ◌∷◌, ◌++◌, text_eq, if◌then◌else◌, ◌||◌}
use luaml.Prelude.Int.{ℤ}
use luaml.Prelude.Outcome.{Outcome, ok, err}

-- `Patterns` and `Fields` are `Vec<Pattern>` and `Vec<(String, Pattern)>`.
mutual
  pub data Pattern : Type 0 where
    wildcard : Pattern
    enum : Text → Pattern
    string_literal : Text → Pattern
    number_literal : ℤ → Pattern
    bool_literal : Bool → Pattern
    variable : Text → Pattern
    pin : Text → Pattern
    list : ListPattern → Pattern
    map : Fields → Pattern

  pub data ListPattern : Type 0 where
    empty : ListPattern
    head_tail : Pattern → Pattern → ListPattern
    elements : Patterns → ListPattern

  pub data Patterns : Type 0 where
    no_patterns : Patterns
    pattern_cons : Pattern → Patterns → Patterns

  pub data Fields : Type 0 where
    no_fields : Fields
    field : Text → Pattern → Fields → Fields

-- `collect_vars_inner` pushes onto a vector; here it returns the vector.
unfoldable mutual
  pub collect_vars_inner : Pattern → List Text → List Text
  collect_vars_inner (variable name) vars = vars ++ name ∷ []
  collect_vars_inner (list lp) vars = collect_vars_list lp vars
  collect_vars_inner (map fields) vars = collect_vars_fields fields vars
  collect_vars_inner _ vars = vars

  pub collect_vars_list : ListPattern → List Text → List Text
  collect_vars_list empty vars = vars
  collect_vars_list (head_tail head tail) vars =
      collect_vars_inner tail (collect_vars_inner head vars)
  collect_vars_list (elements ps) vars = collect_vars_elements ps vars

  pub collect_vars_elements : Patterns → List Text → List Text
  collect_vars_elements no_patterns vars = vars
  collect_vars_elements (pattern_cons p ps) vars =
      collect_vars_elements ps (collect_vars_inner p vars)

  pub collect_vars_fields : Fields → List Text → List Text
  collect_vars_fields no_fields vars = vars
  collect_vars_fields (field k p fs) vars = collect_vars_fields fs (collect_vars_inner p vars)

unfoldable pub collect_variables : Pattern → List Text
unfolding collect_vars_inner
collect_variables p = collect_vars_inner p []

-- Membership in a list of texts: `HashSet::insert` answers its negation.
unfoldable pub elem : Text → List Text → Bool
elem x [] = false
elem x (y ∷ ys) = text_eq y x || elem x ys

-- `all.extend(collect_variables(pat))` over the fields.
unfoldable pub all_variables : Fields → List Text
all_variables no_fields = []
all_variables (field k p fs) = collect_variables p ++ all_variables fs

-- The loop over `all` with the set `seen`; the error names the variable.
unfoldable pub first_duplicate : List Text → List Text → Outcome Text (Unit {0})
unfolding elem
first_duplicate seen [] = ok tt
first_duplicate seen (x ∷ xs) = if elem x seen then err x else first_duplicate (x ∷ seen) xs

unfoldable pub check_duplicate_variables : Fields → Outcome Text (Unit {0})
unfolding all_variables collect_variables first_duplicate
check_duplicate_variables fields = first_duplicate [] (all_variables fields)
