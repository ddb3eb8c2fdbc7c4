-- ===== src/Engine/Watch.antt =====
-- crates/luaml/src/lib.rs, built with file-watch: the watcher of the roots, and `dispatch` with it.
pub mod Applied
use luaml.Prelude.{Text, Bool, Option, none, some, is_some, List, []}
use luaml.Prelude.Outcome.{Outcome, ok, err}
use luaml.Types.{Float, FieldMap}
use luaml.Pattern.Chars.{Unicode}
use luaml.Clause.{LuamlError}
use luaml.FileSystem.{FileSystem, IoResult}
use luaml.Watcher
use luaml.Watcher.{ScriptWatcher, apply_pending}
use luaml.Engine.Api.{Vm}
use luaml.Engine.State.{LuamlEngine}
use luaml.Engine.Cascade
use luaml.Engine.Cascade.{ClauseOutcome}

module _ {L H : Type 0} where
  -- `watch`: an active watcher is replaced, unless the new one cannot be made.
  abbrev watching :
      LuamlEngine L H
      → Outcome LuamlError ScriptWatcher
      → LuamlEngine L H × Outcome LuamlError (Unit {0})
  watching e (ok w) = (record e { watcher = some w }, ok tt)
  watching e (err failure) = (e, err failure)
  watching e Outcome.panic = (e, Outcome.panic)
  watching e Outcome.out_of_fuel = (e, Outcome.out_of_fuel)

  unfoldable pub watch :
      (List Text → IoResult (Unit {0}))
      → LuamlEngine L H
      → LuamlEngine L H × Outcome LuamlError (Unit {0})
  unfolding Watcher.new
  watch watch_dirs e = watching e (Watcher.new watch_dirs e.roots)

  unfoldable pub unwatch : LuamlEngine L H → LuamlEngine L H
  unwatch e = record e { watcher = none }

  unfoldable pub is_watching : LuamlEngine L H → Bool
  is_watching e = is_some e.watcher

module _ {L H : Type 0} ⦃u : Unicode⦄ (fs : FileSystem) where
  -- The changes that a watcher has queued are applied before a dispatch; the paths are dropped.
  abbrev pub drained :
      LuamlEngine L H → Option ScriptWatcher → LuamlEngine L H × Outcome LuamlError (List Text)
  drained e none = (e, ok [])
  drained e (some w) =
      let (w', (r, changed)) = apply_pending fs w e.registry in
      (record e { registry = r; watcher = some w' }, changed)

  unfoldable pub drain : LuamlEngine L H → LuamlEngine L H × Outcome LuamlError (List Text)
  unfolding apply_pending
  drain e = drained e e.watcher

  module _ {F : Type 0} ⦃fl : Float F⦄ (vm : Vm L H F) where
    -- A panic of the parser unwinds out of the dispatch.
    abbrev pub then_dispatch :
        LuamlEngine L H × Outcome LuamlError (List Text)
        → FieldMap F
        → LuamlEngine L H × Outcome LuamlError (List (ClauseOutcome F))
    then_dispatch (e, ok _) event =
        let (e', outcomes) = Cascade.dispatch vm e event in (e', ok outcomes)
    then_dispatch (e, err failure) event = (e, err failure)
    then_dispatch (e, Outcome.panic) event = (e, Outcome.panic)
    then_dispatch (e, Outcome.out_of_fuel) event = (e, Outcome.out_of_fuel)

    unfoldable pub dispatch :
        LuamlEngine L H → FieldMap F → LuamlEngine L H × Outcome LuamlError (List (ClauseOutcome F))
    unfolding drain Cascade.dispatch
    dispatch e event = then_dispatch (drain e) event
