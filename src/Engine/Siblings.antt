-- ===== src/Engine/Siblings.antt =====
-- The outcomes of a dispatch in which no body emits an event.
use mathlib.Core.List
use luaml.Prelude.{
  ℕ, ◌<◌, ◌≡◌, refl, ap, ◌∙◌, false, Text, List, [], ◌∷◌, ◌++◌, append_assoc, append-nil, sym,
  subst, arith, leb,
}
use luaml.Types.{Float, FieldMap}
use luaml.Clause.{Clause}
use luaml.Registry.{ClauseMatch, match_clauses}
use luaml.Registry.InOrder.{match_key, InOrder, match_scripts-InOrder}
use luaml.Engine.Api.{Vm, BodyResult, emitted, failed, ApiBindingSpec, execute_clause, injected}
use luaml.Engine.State.{LuamlEngine, CascadeConfig}
use luaml.Engine.Cascade.{
  CascadeState, ClauseOutcome, execute_matched, body_outcome, push_outcome, emissions_loop,
  matches_loop, enter, dispatch_inner, dispatch, is_visited,
}

abbrev pub emissions_of : {F : Type 0} → BodyResult F → List (FieldMap F)
emissions_of (emitted events) = events
emissions_of (failed message) = []

-- No body emits an event; it may fail or succeed.
abbrev pub Quiet : {L H F : Type 0} → Vm L H F → Type 0
Quiet {L} {H} {F} vm =
    (l : L) (source : Text) (b : FieldMap F) (api local : List (ApiBindingSpec H))
    → emissions_of (vm.run l source b api local).0 ≡ []

-- The clause of an outcome, with its bindings, and the path of its script.
abbrev pub outcome_key : {F : Type 0} → ClauseOutcome F → Text × Clause × FieldMap F
outcome_key o = (o.script_path, o.clause, o.bindings)

not_leb : (n : ℕ) → 0 < n → leb n 0 ≡ false
not_leb n h = ground arith

module _ {L H F : Type 0} ⦃fl : Float F⦄ (vm : Vm L H F) (quiet : Quiet vm) where
  body_quiet :
      (m : ClauseMatch F) (e : LuamlEngine L H) (r : BodyResult F)
      → emissions_of r ≡ []
      → (body_outcome m e r).2 ≡ []
  unfolding body_outcome
  body_quiet m e (emitted es) h = h
  body_quiet m e (failed s) h = refl

  execute_quiet : (m : ClauseMatch F) (st : CascadeState L H F) → (execute_matched vm m st).1 ≡ []
  unfolding execute_matched execute_clause
  execute_quiet m st =
      let e = st.engine in
      let answer =
        execute_clause vm e.lua m.clause m.bindings e.api_bindings e.local_api_bindings in
      body_quiet m (record e { lua = answer.1 }) answer.0
        (quiet e.lua m.clause.behavior.lua_source m.bindings (injected F e.api_bindings m.clause)
          (injected F e.local_api_bindings m.clause))

  executed_key :
      (m : ClauseMatch F) (st : CascadeState L H F)
      → List.map outcome_key (execute_matched vm m st).0.outcomes
        ≡ List.map outcome_key st.outcomes ++ match_key m ∷ []
  unfolding execute_matched push_outcome
  executed_key m st = List.map-append outcome_key st.outcomes _

  matches_quiet :
      (config : CascadeConfig) (depth : ℕ)
      (deeper : FieldMap F → CascadeState L H F → CascadeState L H F) (ms : List (ClauseMatch F))
      (st : CascadeState L H F)
      → List.map outcome_key (matches_loop vm config depth deeper ms st).outcomes
        ≡ List.map outcome_key st.outcomes ++ List.map match_key ms
  unfolding matches_loop
  matches_quiet config depth deeper [] st = sym (append-nil (List.map outcome_key st.outcomes))
  matches_quiet config depth deeper (m ∷ ms) st =
      let ran = (execute_matched vm m st).0 in
      rw (execute_quiet m st, emissions_loop)
        (matches_quiet config depth deeper ms ran
          ∙ ap (λ o. o ++ List.map match_key ms) (executed_key m st)
          ∙ append_assoc (List.map outcome_key st.outcomes) (match_key m ∷ [])
              (List.map match_key ms))

  -- If no body emits and the depth limit is positive, a dispatch goes through the scripts of the
  -- registry from the first to the last, whichever of the bodies fail: it has, in that order, one
  -- outcome for each script with a clause that fires, that of its first such clause, and no other.
  pub dispatch_quiet :
      (e : LuamlEngine L H) (event : FieldMap F)
      → 0 < e.cascade_config.max_depth
      → InOrder event e.registry.scripts (List.map outcome_key (dispatch vm e event).1)
  unfolding dispatch dispatch_inner enter is_visited match_clauses
  dispatch_quiet e event h =
      let config = e.cascade_config in
      rw (not_leb config.max_depth h) (
        subst (InOrder event e.registry.scripts)
          (sym (
            matches_quiet config 0 (dispatch_inner vm config config.max_depth 1)
              (match_clauses e.registry event) _))
          (match_scripts-InOrder e.registry.scripts event))
