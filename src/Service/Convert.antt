-- ===== src/Service/Convert.antt =====
-- crates/luaml-service/src/connection.rs: JSON objects to patterns and events, and results to JSON.
pub mod Literals
use luaml.Prelude.{
  ℕ, String, Text, codes, Bool, Option, none, some, List, [], ◌∷◌, ◌++◌, ◌⊎◌, inl, inr,
}
use luaml.Types.{FieldValue, FieldMap, empty, insert, enum, string, number, bool}
use luaml.Pattern.{Pattern, Fields, no_fields, field}
use luaml.FileSystem.{IoResult}
use luaml.Registry.{ClauseMatch, QueryResult}
use luaml.Engine.Cascade.{ClauseOutcome}
use luaml.Service.Protocol.{DispatchParams, DispatchMatch, SubsetQueryMatch, Json}

-- Only literals stand for patterns.
unfoldable pub field_value_to_pattern : {F : Type 0} → FieldValue F → Option Pattern
field_value_to_pattern (enum s) = some (Pattern.enum s)
field_value_to_pattern (string s) = some (Pattern.string_literal s)
field_value_to_pattern (number n) = some (Pattern.number_literal n)
field_value_to_pattern (bool b) = some (Pattern.bool_literal b)
field_value_to_pattern _ = none

abbrev pub quoted : String → Text → Text → Text
quoted before key after = codes before ++ (key ++ after)

abbrev pub then_inr : {A B : Type 0} → IoResult A → (A → IoResult B) → IoResult B
then_inr (inl e) next = inl e
then_inr (inr a) next = next a

abbrev pub literal_or : Text → Option Pattern → IoResult Pattern
literal_or key (some p) = inr p
literal_or key none =
    inl (
      quoted "pattern value for '" key
        (codes "' must be a literal (Enum, String, Number, or Bool)"))

abbrev pub decoded :
    {F : Type 0} → String → Text → IoResult (FieldValue F) → IoResult (FieldValue F)
decoded before key (inl e) = inl (quoted before key (codes "': " ++ e))
decoded before key (inr v) = inr v

abbrev pub outcome_matches : {F : Type 0} → List (ClauseOutcome F) → List (DispatchMatch F)
outcome_matches [] = []
outcome_matches (o ∷ os) =
    record { script_path = o.script_path; bindings = o.bindings } ∷ outcome_matches os

abbrev pub clause_matches : {F : Type 0} → List (ClauseMatch F) → List (DispatchMatch F)
clause_matches [] = []
clause_matches (m ∷ ms) =
    record { script_path = m.script.source_path; bindings = m.bindings } ∷ clause_matches ms

abbrev pub subset_query_matches : List QueryResult → List SubsetQueryMatch
subset_query_matches [] = []
subset_query_matches (r ∷ rs) =
    record {
      script_path = r.script.source_path;
      clause_index = r.clause_index;
      annotations = r.clause.annotations;
      field_annotations = r.clause.field_annotations;
    }
    ∷ subset_query_matches rs

module _ {J F : Type 0} (json : Json J F) where
  -- The patterns that are pushed are in the order of the map.
  unfoldable pub json_map_to_pattern : List (Text × J) → IoResult Fields
  unfolding field_value_to_pattern
  json_map_to_pattern [] = inr no_fields
  json_map_to_pattern ((key, value) ∷ entries) =
      then_inr (decoded "invalid pattern value for '" key (json.field_value value)) λ v.
        then_inr (literal_or key (field_value_to_pattern v))
          λ p. then_inr (json_map_to_pattern entries) λ fs. inr (field key p fs)

  unfoldable pub field_map_loop : FieldMap F → List (Text × J) → IoResult (FieldMap F)
  unfolding insert
  field_map_loop m [] = inr m
  field_map_loop m ((key, value) ∷ entries) =
      then_inr (decoded "invalid field value for '" key (json.field_value value))
        λ v. field_map_loop (insert m key v) entries

  unfoldable pub json_map_to_field_map : List (Text × J) → IoResult (FieldMap F)
  unfolding field_map_loop
  json_map_to_field_map entries = field_map_loop empty entries

  -- `unwrap_or(null)`.
  abbrev pub value_or_null : IoResult J → J
  value_or_null (inl e) = json.null
  value_or_null (inr j) = j

  -- The event of a request, or the answer that it is invalid.
  abbrev pub event_of : IoResult (DispatchParams J) → IoResult (FieldMap F)
  event_of (inl e) = inl e
  event_of (inr params) = json_map_to_field_map params.event
