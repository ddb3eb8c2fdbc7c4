-- ===== src/Engine/Watch/Applied.antt =====
-- Dispatching on an engine that watches its roots.
use luaml.Prelude.{◌+◌, ◌%◌, ◌≡◌, refl, ap, sym, subst, ◌∙◌, suc, Text, some, List, [], arith}
use luaml.Prelude.Outcome.{Outcome, ok, err, panic, out_of_fuel, IsOk}
use luaml.Clause.{LuamlError}
use luaml.Registry.{ScriptRegistry}
use luaml.Types.{Float, FieldMap}
use luaml.Pattern.Chars.{Unicode}
use luaml.FileSystem.{FileSystem}
use luaml.Watcher.{ScriptWatcher, apply_pending}
use luaml.Watcher.Project.{scripts_at, after_changes, flatten}
use luaml.Watcher.Drain.{AllEnd, apply_pending-at}
use luaml.Engine.Api.{Vm}
use luaml.Engine.State.{LuamlEngine, u64_mod}
use luaml.Engine.Cascade
use luaml.Engine.Cascade.{CascadeState, ClauseOutcome}
use luaml.Engine.Progress.{dispatch_inner-Progress}
use luaml.Engine.Watch.{dispatch, drain, drained, then_dispatch}

-- The queue that the engine's watcher has left.
abbrev pub emptied : ScriptWatcher → ScriptWatcher
emptied w = record w { rx = [] }

queue_emptied :
    ⦃u : Unicode⦄ (fs : FileSystem) (w : ScriptWatcher) (r : ScriptRegistry)
    → (apply_pending fs w r).0.rx ≡ []
    → (apply_pending fs w r).0 ≡ emptied w
unfolding apply_pending
queue_emptied fs w r h = ap (λ left. record w { rx = left }) h

module _ {L H F : Type 0} ⦃fl : Float F⦄ (vm : Vm L H F) where
  dispatch-registry :
      (e : LuamlEngine L H) (event : FieldMap F)
      → ((Cascade.dispatch vm e event).0.registry ≡ e.registry)
        × ((Cascade.dispatch vm e event).0.watcher ≡ e.watcher)
  unfolding Cascade.dispatch
  dispatch-registry e event =
      let st : CascadeState L H F = record {
        engine = record e { dispatches = (e.dispatches + 1) % u64_mod };
        visited = [];
        budget_remaining = e.cascade_config.budget;
        outcomes = [];
      } in
      let p =
        dispatch_inner-Progress vm e.cascade_config (suc e.cascade_config.max_depth) 0 event st
          (omega arith) in
      (p.same_registry, p.same_watcher)

module _ {L H F : Type 0} ⦃fl : Float F⦄ (vm : Vm L H F) ⦃u : Unicode⦄ (fs : FileSystem) where
  -- The run of a dispatch whose queue is applied without a panic.
  then_dispatch-ok :
      (x : LuamlEngine L H × Outcome LuamlError (List Text)) (event : FieldMap F)
      → IsOk x.1
      → then_dispatch fs vm x event
        ≡ ((Cascade.dispatch vm x.0 event).0, ok (Cascade.dispatch vm x.0 event).1)
  then_dispatch-ok (e, ok changed) event h = refl
  then_dispatch-ok (e, err failure) event h = absurd h
  then_dispatch-ok (e, panic) event h = absurd h
  then_dispatch-ok (e, out_of_fuel) event h = absurd h

  drain-IsOk :
      (e : LuamlEngine L H) (w : ScriptWatcher)
      → e.watcher ≡ some w
      → AllEnd fs (flatten w.rx)
      → IsOk (drain fs e).1
  unfolding drain
  drain-IsOk e w h ends =
      subst (λ o. IsOk (drained fs e o).1) (sym h) (apply_pending-at fs w e.registry [] ends).1

-- When no text of a changed file makes the parser panic, a dispatch on a watching engine applies
-- every change that is queued and ends with outcomes, those on the registry with the changes; at its
-- end the queue is empty and, for each path, the registry has the scripts that the queued changes of
-- the path make, one after another, of those it had.
pub dispatch-applies :
    {L H F : Type 0} ⦃fl : Float F⦄ ⦃u : Unicode⦄ (fs : FileSystem) (vm : Vm L H F)
    (e : LuamlEngine L H) (w : ScriptWatcher) (event : FieldMap F) (path : Text)
    → e.watcher ≡ some w
    → AllEnd fs (flatten w.rx)
    → ((dispatch fs vm e event).1 ≡ ok (Cascade.dispatch vm (drain fs e).0 event).1)
      × ((dispatch fs vm e event).0.watcher ≡ some (emptied w))
      × (scripts_at path (dispatch fs vm e event).0.registry.scripts
          ≡ after_changes fs path (scripts_at path e.registry.scripts) (flatten w.rx))
unfolding dispatch
dispatch-applies {L} {H} {F} fs vm e w event path h ends =
    let d = drain fs e in
    let (same, kept) = dispatch-registry vm d.0 event in
    let run = then_dispatch-ok vm fs d event (drain-IsOk vm fs e w h ends) in
    let after : d.0 ≡ (drained fs e (some w)).0 = unfold drain in ap (λ o. (drained fs e o).0) h in
    let (empty, done, at) = apply_pending-at fs w e.registry path ends in
    rw run (
      refl,
      kept
          ∙ ap (λ (x : LuamlEngine L H). x.watcher) after
          ∙ ap (λ (v : ScriptWatcher). some v) (queue_emptied fs w e.registry empty),
      ap (λ r. scripts_at path r.scripts) (same ∙ ap (λ (x : LuamlEngine L H). x.registry) after)
          ∙ at,
    )
