-- ===== src/Engine/Runs.antt =====
-- What a dispatch does to the state of the Lua VM: it only runs bodies.
use luaml.Prelude.{
  ℕ, zero, suc, ◌+◌, ◌%◌, ◌≡◌, refl, sym, subst, Text, List, [], ◌∷◌, ◌==◌, Bool-cases, inl, inr,
  if◌then◌else◌, leb,
}
use luaml.Types.{Float, FieldMap}
use luaml.Registry.{ClauseMatch, match_clauses}
use luaml.Engine.Api.{Vm, ApiBindingSpec, injected, execute_clause, BodyResult, emitted, failed}
use luaml.Engine.Signature.{event_signature}
use luaml.Engine.State.{LuamlEngine, CascadeConfig, u64_mod}
use luaml.Engine.Cascade.{
  CascadeState, body_outcome, spend, execute_matched, emissions_loop, matches_loop, enter,
  dispatch_inner, dispatch, push_outcome, is_visited,
}

-- The second state comes from the first by running bodies, one after another.
pub data Runs {L H F : Type 0} (vm : Vm L H F) : L → L → Type 0 where
  still : {l : L} → Runs vm l l
  ran :
      {l l' : L} (source : Text) (bindings : FieldMap F) (api local : List (ApiBindingSpec H))
      → Runs vm l l'
      → Runs vm l (vm.run l' source bindings api local).1

module _ {L H F : Type 0} ⦃fl : Float F⦄ (vm : Vm L H F) where
  Runs-trans : {l l' l'' : L} → Runs vm l l' → Runs vm l' l'' → Runs vm l l''
  Runs-trans p still = p
  Runs-trans p (ran source bindings api local q) = ran source bindings api local (Runs-trans p q)

  body_outcome-lua :
      (m : ClauseMatch F) (e : LuamlEngine L H) (b : BodyResult F)
      → (body_outcome m e b).0.lua ≡ e.lua
  unfolding body_outcome
  body_outcome-lua m e (emitted events) = refl
  body_outcome-lua m e (failed t) = refl

  -- From one state of a dispatch to another.
  abbrev Ran : CascadeState L H F → CascadeState L H F → Type 0
  Ran st st' = Runs vm st.engine.lua st'.engine.lua

  execute_matched-Ran :
      (m : ClauseMatch F) (st : CascadeState L H F) → Ran st (execute_matched vm m st).0
  unfolding execute_matched execute_clause push_outcome
  execute_matched-Ran m st =
      let e = st.engine in
      let x = execute_clause vm e.lua m.clause m.bindings e.api_bindings e.local_api_bindings in
      subst (Runs vm e.lua) (sym (body_outcome-lua m (record e { lua = x.1 }) x.0)) (
        ran m.clause.behavior.lua_source m.bindings (injected F e.api_bindings m.clause)
          (injected F e.local_api_bindings m.clause) still)

  emissions_loop-Ran :
      (config : CascadeConfig) (depth : ℕ)
      (go : FieldMap F → CascadeState L H F → CascadeState L H F) (events : List (FieldMap F))
      (st : CascadeState L H F)
      → ((event : FieldMap F) (s : CascadeState L H F) → Ran s (go event s))
      → Ran st (emissions_loop vm config depth go events st).0
  unfolding emissions_loop push_outcome spend
  emissions_loop-Ran config depth go [] st k = still
  emissions_loop-Ran config depth go (event ∷ events) st k =
      elim (Bool-cases (st.budget_remaining == 0)) [
        | inl e ↦ rw (e, if◌then◌else◌) still
        | inr e ↦
            rw (e, if◌then◌else◌)
              (Runs-trans (k event (spend st))
                (emissions_loop-Ran config depth go events (go event (spend st)) k))
      ]

  matches_loop-Ran :
      (config : CascadeConfig) (depth : ℕ)
      (go : FieldMap F → CascadeState L H F → CascadeState L H F) (ms : List (ClauseMatch F))
      (st : CascadeState L H F)
      → ((event : FieldMap F) (s : CascadeState L H F) → Ran s (go event s))
      → Ran st (matches_loop vm config depth go ms st)
  unfolding matches_loop
  matches_loop-Ran config depth go [] st k = still
  matches_loop-Ran config depth go (m ∷ ms) st k =
      let x = execute_matched vm m st in
      let y = emissions_loop vm config depth go x.1 x.0 in
      let so_far =
        Runs-trans (execute_matched-Ran m st) (emissions_loop-Ran config depth go x.1 x.0 k) in
      elim (Bool-cases y.1) [
        | inl e ↦ rw (e, if◌then◌else◌) so_far
        | inr e ↦
            rw (e, if◌then◌else◌) (Runs-trans so_far (matches_loop-Ran config depth go ms y.0 k))
      ]

  dispatch_inner-Ran :
      (config : CascadeConfig) (f depth : ℕ) (event : FieldMap F) (st : CascadeState L H F)
      → Ran st (dispatch_inner vm config f depth event st)
  unfolding dispatch_inner enter push_outcome
  dispatch_inner-Ran config zero depth event st = still
  dispatch_inner-Ran config (suc f) depth event st =
      let entered =
        matches_loop-Ran config depth (dispatch_inner vm config f (depth + 1))
          (match_clauses st.engine.registry event) _
          (λ e s. dispatch_inner-Ran config f (depth + 1) e s) in
      elim (Bool-cases (leb config.max_depth depth)) [
        | inl deep ↦ rw deep still
        | inr shallow ↦ elim (Bool-cases (is_visited (event_signature event) st.visited)) [
          | inl cycle ↦ rw (shallow, cycle) still
          | inr fresh ↦ rw (shallow, fresh) entered
        ]
      ]

-- A dispatch changes the state of the Lua VM only by running bodies, in sequence, each from the
-- state that the one before has left.
pub dispatch-Runs :
    {L H F : Type 0} ⦃fl : Float F⦄ (vm : Vm L H F) (e : LuamlEngine L H) (event : FieldMap F)
    → Runs vm e.lua (dispatch vm e event).0.lua
unfolding dispatch
dispatch-Runs {L} {H} {F} vm e event =
    let st : CascadeState L H F = record {
      engine = record e { dispatches = (e.dispatches + 1) % u64_mod };
      visited = [];
      budget_remaining = e.cascade_config.budget;
      outcomes = [];
    } in
    dispatch_inner-Ran vm e.cascade_config (suc e.cascade_config.max_depth) 0 event st
