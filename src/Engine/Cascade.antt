-- ===== src/Engine/Cascade.antt =====
-- `dispatch`, `dispatch_inner` and `execute_matched`. The cells of the engine, the cascade context
-- and the vector of outcomes are one state, which each step passes on.
use luaml.Prelude.{
  ℕ, zero, suc, ◌+◌, ◌-◌, ◌%◌, max, Text, Bool, true, false, ◌||◌, none, List, [], ◌∷◌, ◌++◌, ◌==◌,
  leb, length, if◌then◌else◌,
}
use luaml.Types.{Float, FieldMap, empty}
use luaml.Pattern.{no_fields}
use luaml.Clause.{Clause}
use luaml.Frontmatter.Merge.{assoc_insert}
use luaml.Registry.{ClauseMatch, match_clauses}
use luaml.Engine.Signature.{SigPairs, event_signature, sig_pairs_eq}
use luaml.Engine.Api.{Vm, BodyResult, emitted, failed, execute_clause}
use luaml.Engine.State.{
  LuamlEngine, CascadeConfig, ClauseErrKind, ClauseError, body, cascade_depth, cascade_cycle,
  cascade_budget, ErrorMessage, lua_message, depth_exceeded, cycle_detected, budget_exhausted,
  u64_mod,
}

-- `Result<ClauseSuccess, ClauseError>`.
pub data ClauseResult (F : Type 0) : Type 0 where
  success : List (FieldMap F) → ClauseResult F
  error : ClauseError → ClauseResult F

pub record ClauseOutcome (F : Type 0) : Type 0 where
  pub script_path : Text
  pub clause : Clause
  pub bindings : FieldMap F
  pub result : ClauseResult F

pub record CascadeState (L H F : Type 0) : Type 0 where
  pub engine : LuamlEngine L H
  pub visited : List SigPairs
  pub budget_remaining : ℕ
  pub outcomes : List (ClauseOutcome F)

abbrev synthetic_clause : Clause
synthetic_clause = record {
  policy = record { fields = no_fields };
  guard = none;
  behavior = record { lua_source = [] };
  annotations = [];
  field_annotations = [];
}

unfoldable pub synthetic_cascade_outcome :
    {F : Type 0} → ClauseErrKind → ErrorMessage → ClauseOutcome F
synthetic_cascade_outcome kind message = record {
  script_path = [];
  clause = synthetic_clause;
  bindings = empty;
  result = error (record { kind = kind; message = message });
}

-- `HashSet::contains` and `HashSet::remove`.
unfoldable pub is_visited : SigPairs → List SigPairs → Bool
is_visited sig [] = false
is_visited sig (s ∷ ss) = sig_pairs_eq s sig || is_visited sig ss

unfoldable pub unmark : SigPairs → List SigPairs → List SigPairs
unmark sig [] = []
unmark sig (s ∷ ss) = let rest = unmark sig ss in if sig_pairs_eq s sig then rest else s ∷ rest

module _ {L H F : Type 0} where
  unfoldable pub push_outcome : ClauseOutcome F → CascadeState L H F → CascadeState L H F
  push_outcome o st = record st { outcomes = st.outcomes ++ o ∷ [] }

  -- The result and the emissions of a body, and `last_error_per_script` after it.
  unfoldable pub body_outcome :
      ClauseMatch F
      → LuamlEngine L H
      → BodyResult F
      → LuamlEngine L H × ClauseResult F × List (FieldMap F)
  unfolding assoc_insert
  body_outcome m e (emitted events) = (e, success events, events)
  body_outcome m e (failed message) =
      let err : ClauseError = record { kind = body; message = lua_message message } in
      (
        record e {
          last_error_per_script = assoc_insert e.last_error_per_script m.script.source_path err;
        },
        error err,
        [],
      )

  -- `budget_remaining -= 1` and the counter of emissions.
  unfoldable pub spend : CascadeState L H F → CascadeState L H F
  spend st =
      let e = st.engine in
      record st {
        budget_remaining = st.budget_remaining - 1;
        engine = record e { cascades_emitted = (e.cascades_emitted + 1) % u64_mod };
      }

  -- `matched += matches.len()`.
  abbrev pub count_matched : ℕ → CascadeState L H F → CascadeState L H F
  count_matched n st =
      let e = st.engine in record st { engine = record e { matched = (e.matched + n) % u64_mod } }

  abbrev pub note_depth : ℕ → CascadeState L H F → CascadeState L H F
  note_depth depth st =
      let e = st.engine in
      record st { engine = record e { cascade_depth_max = max e.cascade_depth_max depth } }

module _ {L H F : Type 0} (vm : Vm L H F) where
  -- The outcome of a matched clause is pushed, and its emissions are returned.
  unfoldable pub execute_matched :
      ClauseMatch F → CascadeState L H F → CascadeState L H F × List (FieldMap F)
  unfolding execute_clause body_outcome push_outcome
  execute_matched m st =
      let e = st.engine in
      let (answer, lua') =
        execute_clause vm e.lua m.clause m.bindings e.api_bindings e.local_api_bindings in
      let (e', result, emissions) = body_outcome m (record e { lua = lua' }) answer in
      let outcome : ClauseOutcome F = record {
        script_path = m.script.source_path;
        clause = m.clause;
        bindings = m.bindings;
        result = result;
      } in
      (push_outcome outcome (record st { engine = e' }), emissions)

-- `config` is that of the cascade context, which keeps its value through a dispatch.
module _ {L H F : Type 0} ⦃fl : Float F⦄ (vm : Vm L H F) (config : CascadeConfig) where
  -- The loop over the emissions of a clause; `dispatch` is the call one level deeper. It also tells
  -- whether the budget ran out, on which `dispatch_inner` returns.
  unfoldable pub emissions_loop :
      ℕ
      → (FieldMap F → CascadeState L H F → CascadeState L H F)
      → List (FieldMap F)
      → CascadeState L H F
      → CascadeState L H F × Bool
  unfolding push_outcome synthetic_cascade_outcome spend
  emissions_loop depth dispatch [] st = (st, false)
  emissions_loop depth dispatch (event ∷ events) st =
      let rest = emissions_loop depth dispatch events (dispatch event (spend st)) in
      let exhausted =
        synthetic_cascade_outcome cascade_budget (budget_exhausted config.budget (depth + 1)) in
      if st.budget_remaining == 0 then (push_outcome exhausted st, true) else rest

  unfoldable pub matches_loop :
      ℕ
      → (FieldMap F → CascadeState L H F → CascadeState L H F)
      → List (ClauseMatch F)
      → CascadeState L H F
      → CascadeState L H F
  unfolding execute_matched emissions_loop
  matches_loop depth dispatch [] st = st
  matches_loop depth dispatch (m ∷ ms) st =
      let (st₁, emissions) = execute_matched vm m st in
      let (st₂, stopped) = emissions_loop depth dispatch emissions st₁ in
      let rest = matches_loop depth dispatch ms st₂ in if stopped then st₂ else rest

  -- What happens to an event that is neither too deep nor on the stack.
  unfoldable pub enter :
      ℕ
      → (FieldMap F → CascadeState L H F → CascadeState L H F)
      → FieldMap F
      → SigPairs
      → CascadeState L H F
      → CascadeState L H F
  unfolding match_clauses matches_loop unmark
  enter depth dispatch event sig st =
      let matches = match_clauses st.engine.registry event in
      let st₁ = count_matched (length matches) (record st { visited = sig ∷ st.visited }) in
      let st₂ = matches_loop depth dispatch matches st₁ in
      record st₂ { visited = unmark sig st₂.visited }

  -- A unit of fuel for each level; a run that is out of fuel changes nothing.
  unfoldable pub dispatch_inner : ℕ → ℕ → FieldMap F → CascadeState L H F → CascadeState L H F
  unfolding enter event_signature is_visited push_outcome synthetic_cascade_outcome
  dispatch_inner zero depth event st = st
  dispatch_inner (suc f) depth event st =
      let st₀ = note_depth depth st in
      let sig = event_signature event in
      let entered = enter depth (dispatch_inner f (depth + 1)) event sig st₀ in
      if leb config.max_depth depth
      then push_outcome
          (synthetic_cascade_outcome cascade_depth (depth_exceeded depth config.max_depth)) st₀
      else if is_visited sig st₀.visited
      then push_outcome (synthetic_cascade_outcome cascade_cycle (cycle_detected depth)) st₀
      else entered

-- `dispatch`, on an engine that is not watching its roots.
unfoldable pub dispatch :
    {L H F : Type 0} ⦃fl : Float F⦄
    → Vm L H F
    → LuamlEngine L H
    → FieldMap F
    → LuamlEngine L H × List (ClauseOutcome F)
unfolding dispatch_inner
dispatch {L} {H} {F} vm e event =
    let st : CascadeState L H F = record {
      engine = record e { dispatches = (e.dispatches + 1) % u64_mod };
      visited = [];
      budget_remaining = e.cascade_config.budget;
      outcomes = [];
    } in
    let st' = dispatch_inner vm e.cascade_config (suc e.cascade_config.max_depth) 0 event st in
    (st'.engine, st'.outcomes)
