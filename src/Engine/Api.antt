-- ===== src/Engine/Api.antt =====
-- crates/luaml/src/api.rs and its bindings in the engine, and what `execute_clause` gives to the
-- Lua VM. The VM is a parameter: `run` loads a body under an environment with these bindings and
-- namespaces, and answers with the events that it enqueued, or with an error.
use luaml.Prelude.{
  ℕ, Text, Bool, true, false, ◌||◌, Option, none, some, is_some, List, [], ◌∷◌, ◌==◌, if◌then◌else◌,
}
use luaml.Types.{FieldValue, FieldMap, empty, insert}
use luaml.Pattern.{
  Pattern, Fields, no_fields, field, enum, string_literal, number_literal, bool_literal,
}
use luaml.Matching.{match_fields}
use luaml.Clause.{Clause}

-- `handler` is the `ApiHandler` or the builder of the binding, which only the VM calls.
pub record ApiBindingSpec (H : Type 0) : Type 0 where
  pub namespace : Text
  pub pattern : Fields
  pub handler : H

-- `ApiBindingId` is the number.
pub record ApiBindingEntry (H : Type 0) : Type 0 where
  pub id : ℕ
  pub spec : ApiBindingSpec H

-- The result of a body: `Ok` with the emitted events, or `Err` with its message.
pub data BodyResult (F : Type 0) : Type 0 where
  emitted : List (FieldMap F) → BodyResult F
  failed : Text → BodyResult F

-- `L` is the state of the VM, whose globals survive from one body to the next.
pub record Vm (L H F : Type 0) : Type 0 where
  pub run :
      L → Text → FieldMap F → List (ApiBindingSpec H) → List (ApiBindingSpec H) → BodyResult F × L

abbrev pub literal_value : {F : Type 0} → Pattern → Option (FieldValue F)
literal_value (enum s) = some (FieldValue.enum s)
literal_value (string_literal s) = some (FieldValue.string s)
literal_value (number_literal n) = some (FieldValue.number n)
literal_value (bool_literal b) = some (FieldValue.bool b)
literal_value _ = none

module _ {F : Type 0} where
  unfoldable pub policy_loop : FieldMap F → Fields → FieldMap F
  unfolding insert
  policy_loop m no_fields = m
  policy_loop m (field key p fs) =
      policy_loop (elim (literal_value p) [ some v ↦ insert m key v | none ↦ m ]) fs

  unfoldable pub clause_policy_to_fieldmap : Clause → FieldMap F
  unfolding policy_loop
  clause_policy_to_fieldmap clause = policy_loop empty clause.policy.fields

abbrev no_pattern : Fields → Bool
no_pattern no_fields = true
no_pattern (field k p fs) = false

module _ {H : Type 0} where
  -- The test that a binding applies to a clause.
  unfoldable pub applies : (F : Type 0) → ApiBindingSpec H → Clause → Bool
  unfolding match_fields clause_policy_to_fieldmap
  applies F spec clause =
      no_pattern spec.pattern
      || is_some (match_fields {F = F} spec.pattern (clause_policy_to_fieldmap clause))

  -- The bindings that are injected, in their order.
  unfoldable pub injected :
      (F : Type 0) → List (ApiBindingEntry H) → Clause → List (ApiBindingSpec H)
  unfolding applies
  injected F [] clause = []
  injected F (e ∷ es) clause =
      let rest = injected F es clause in if applies F e.spec clause then e.spec ∷ rest else rest

  -- `retain(|e| e.id != id)`.
  unfoldable pub retain_ids : ℕ → List (ApiBindingEntry H) → List (ApiBindingEntry H)
  retain_ids id [] = []
  retain_ids id (e ∷ es) = let rest = retain_ids id es in if e.id == id then rest else e ∷ rest

  -- The loop of `replace_api`: the first entry with this id.
  unfoldable pub replace_spec :
      ℕ → ApiBindingSpec H → List (ApiBindingEntry H) → List (ApiBindingEntry H) × Bool
  replace_spec id spec [] = ([], false)
  replace_spec id spec (e ∷ es) =
      let (es', found) = replace_spec id spec es in
      if e.id == id then (record { id = e.id; spec = spec } ∷ es, true) else (e ∷ es', found)

unfoldable pub execute_clause :
    {L H F : Type 0}
    → Vm L H F
    → L
    → Clause
    → FieldMap F
    → List (ApiBindingEntry H)
    → List (ApiBindingEntry H)
    → BodyResult F × L
unfolding injected
execute_clause {F = F} vm lua clause bindings api_bindings local_api_bindings =
    vm.run lua clause.behavior.lua_source bindings (injected F api_bindings clause)
      (injected F local_api_bindings clause)
