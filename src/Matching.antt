-- ===== src/Matching.antt =====
-- crates/luaml/src/pattern_match.rs: matching patterns against values, with bindings.
pub mod Fits
pub mod Domain
pub mod Policy
use luaml.Prelude.{
  Text, ℕ, suc, Bool, true, false, Option, none, some, text_eq, if◌then◌else◌, codes, ◌==◌,
}
use luaml.Prelude.Int.{int_eq}
use luaml.Prelude.Maybe.{◌>>=◌}
use luaml.Types.{FieldValue, Values, FieldMap, nil, cons, get, insert, extend}
use luaml.Pattern.{
  Pattern, ListPattern, Patterns, Fields, wildcard, enum, string_literal, number_literal,
  bool_literal, variable, pin, list, map, head_tail, elements, no_patterns, pattern_cons, no_fields,
  field,
}

abbrev pub global_enum : Text
global_enum = codes "global"

unfoldable pub is_global_enum : Pattern → Bool
is_global_enum (enum name) = text_eq name global_enum
is_global_enum _ = false

abbrev pub bool_eq : Bool → Bool → Bool
bool_eq true true = true
bool_eq false false = true
bool_eq _ _ = false

-- `patterns.len()` and `array.len()`.
unfoldable pub count_patterns : Patterns → ℕ
count_patterns no_patterns = 0
count_patterns (pattern_cons p ps) = suc (count_patterns ps)

module _ {F : Type 0} where
  unfoldable pub count_values : Values F → ℕ
  count_values nil = 0
  count_values (cons x xs) = suc (count_values xs)

  -- A literal either matches and binds nothing, or fails.
  abbrev pub bind_nothing : Bool → Option (FieldMap F)
  bind_nothing true = some FieldMap.empty
  bind_nothing false = none

unfoldable mutual
  unfolding count_patterns count_values get insert extend

  pub match_field_value : {F : Type 0} → Pattern → FieldValue F → Option (FieldMap F)
  match_field_value wildcard value = some FieldMap.empty
  match_field_value (enum expected) (FieldValue.enum actual) =
      if text_eq expected global_enum
      then bind_nothing true
      else bind_nothing (text_eq expected actual)
  match_field_value (enum expected) _ = none
  match_field_value (string_literal expected) (FieldValue.string actual) =
      bind_nothing (text_eq expected actual)
  match_field_value (string_literal expected) _ = none
  match_field_value (number_literal expected) (FieldValue.number actual) =
      bind_nothing (int_eq expected actual)
  match_field_value (number_literal expected) _ = none
  match_field_value (bool_literal expected) (FieldValue.bool actual) =
      bind_nothing (bool_eq expected actual)
  match_field_value (bool_literal expected) _ = none
  match_field_value (variable name) value = some (insert FieldMap.empty name value)
  match_field_value (pin name) value = none
  match_field_value (list list_pat) value = match_list list_pat value
  match_field_value (map fs) (FieldValue.map obj) = match_map fs obj FieldMap.empty
  match_field_value (map fs) _ = none

  pub match_list : {F : Type 0} → ListPattern → FieldValue F → Option (FieldMap F)
  match_list ListPattern.empty (FieldValue.list nil) = some FieldMap.empty
  match_list ListPattern.empty _ = none
  match_list (head_tail head tail) (FieldValue.list (cons head_val rest)) = do
    bindings ← match_field_value head head_val
    tail_bindings ← match_field_value tail (FieldValue.list rest)
    some (extend bindings tail_bindings)
  match_list (head_tail head tail) _ = none
  match_list (elements ps) (FieldValue.list array) =
      if count_values array == count_patterns ps
      then match_elements ps array FieldMap.empty
      else none
  match_list (elements ps) _ = none

  -- The loop over `patterns.iter().zip(array.iter())`.
  pub match_elements : {F : Type 0} → Patterns → Values F → FieldMap F → Option (FieldMap F)
  match_elements (pattern_cons pat ps) (cons val vs) bindings = do
    sub ← match_field_value pat val
    match_elements ps vs (extend bindings sub)
  match_elements (pattern_cons pat ps) nil bindings = some bindings
  match_elements no_patterns vs bindings = some bindings

  pub match_map : {F : Type 0} → Fields → FieldMap F → FieldMap F → Option (FieldMap F)
  match_map no_fields obj bindings = some bindings
  match_map (field key pat fs) obj bindings = do
    val ← get obj key
    sub ← match_field_value pat val
    match_map fs obj (extend bindings sub)

module _ {F : Type 0} where
  -- The loop of `match_fields`; a missing field passes only under the pattern `:global:`.
  unfoldable pub match_fields_loop : Fields → FieldMap F → FieldMap F → Option (FieldMap F)
  unfolding is_global_enum match_field_value
  match_fields_loop no_fields input all_bindings = some all_bindings
  match_fields_loop (field key pattern fs) input all_bindings = elim (get input key) [
    | some v ↦
        (match_field_value pattern v >>= λ bindings.
        match_fields_loop fs input (extend all_bindings bindings))
    | none ↦ if is_global_enum pattern then match_fields_loop fs input all_bindings else none
  ]

  unfoldable pub match_fields : Fields → FieldMap F → Option (FieldMap F)
  unfolding match_fields_loop
  match_fields pattern_fields input = match_fields_loop pattern_fields input FieldMap.empty
