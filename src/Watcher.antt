-- ===== src/Watcher.antt =====
-- crates/luaml/src/watcher.rs: the changes of files that are queued for the registry. The library
-- notify reports events; the directories that it watches are its own state.
pub mod Project
pub mod Drain
pub mod Panics
use luaml.Prelude.{
  Text, Bool, true, false, Option, none, some, List, [], ◌∷◌, ◌++◌, if◌then◌else◌, inl, inr,
}
use luaml.Prelude.Outcome.{Outcome, ok, err, panic, out_of_fuel}
use luaml.Pattern.Chars.{Unicode}
use luaml.Clause.{LuamlError}
use luaml.FileSystem.{FileSystem, IoResult, io}
use luaml.Registry.{ScriptRegistry, unregister, replace}
use luaml.Registry.Files.{is_luaml}

pub data FileChange : Type 0 where
  create_or_modify remove : Text → FileChange

-- The batches that stand in the channel, the oldest first.
pub record ScriptWatcher : Type 0 where
  pub rx : List (List FileChange)

-- An event of the debouncer, and whether its kind is `Any`.
pub record DebouncedEvent : Type 0 where
  pub path : Text
  pub any : Bool

-- `new`: what notify answers when it is told to watch the directories.
unfoldable pub new :
    (List Text → IoResult (Unit {0})) → List Text → Outcome LuamlError ScriptWatcher
new watch_dirs dirs = elim (watch_dirs dirs) [
  | inl e ↦ io (inl e)
  | inr _ ↦ ok (record { rx = [] })
]

unfoldable pub change_of : FileSystem → Text → FileChange
change_of fs path = if fs.exists path then create_or_modify path else remove path

unfoldable pub changes_of : FileSystem → List DebouncedEvent → List FileChange
unfolding is_luaml change_of
changes_of fs [] = []
changes_of fs (event ∷ events) =
    let rest = changes_of fs events in
    if is_luaml event.path
    then (if event.any then change_of fs event.path ∷ rest else rest)
    else rest

-- `tx.send`, of a batch that is not empty.
abbrev send : ScriptWatcher → List FileChange → ScriptWatcher
send w [] = w
send w (c ∷ changes) = record w { rx = w.rx ++ (c ∷ changes) ∷ [] }

-- The handler that the debouncer calls.
unfoldable pub on_events :
    FileSystem → ScriptWatcher → IoResult (List DebouncedEvent) → ScriptWatcher
unfolding changes_of
on_events fs w (inl e) = w
on_events fs w (inr events) = send w (changes_of fs events)

-- The registry after some of the changes and the paths touched so far, or the panic of the parser
-- on the way, which leaves what is not yet applied.
abbrev pub Applied : Type 0
Applied = ScriptRegistry × Outcome LuamlError (List Text)

abbrev pub then_change : Applied → (ScriptRegistry → List Text → Applied) → Applied
then_change (r, ok changed) next = next r changed
then_change (r, err e) next = (r, err e)
then_change (r, panic) next = (r, panic)
then_change (r, out_of_fuel) next = (r, out_of_fuel)

-- With the batches that are still in the channel.
abbrev pub then_batch :
    Applied
    → List (List FileChange)
    → (ScriptRegistry → List Text → List (List FileChange) × Applied)
    → List (List FileChange) × Applied
then_batch (r, ok changed) batches next = next r changed
then_batch (r, err e) batches next = (batches, (r, err e))
then_batch (r, panic) batches next = (batches, (r, panic))
then_batch (r, out_of_fuel) batches next = (batches, (r, out_of_fuel))

module _ ⦃u : Unicode⦄ (fs : FileSystem) where
  -- A path counts as touched when its reload succeeds; an error is logged.
  abbrev pub touched : List Text → Text → Outcome LuamlError Bool → Outcome LuamlError (List Text)
  touched changed path (ok _) = ok (changed ++ path ∷ [])
  touched changed path (err _) = ok changed
  touched changed path panic = panic
  touched changed path out_of_fuel = out_of_fuel

  abbrev pub reload : ScriptRegistry → List Text → Text → IoResult Text → Applied
  reload r changed path (inl e) = (r, ok changed)
  reload r changed path (inr text) =
      let (r', result) = replace r path text in (r', touched changed path result)

  unfoldable pub apply_change : ScriptRegistry → List Text → FileChange → Applied
  unfolding replace unregister
  apply_change r changed (create_or_modify path) = reload r changed path (fs.read_to_string path)
  apply_change r changed (remove path) = ((unregister r path).0, ok (changed ++ path ∷ []))

  unfoldable pub apply_batch : ScriptRegistry → List Text → List FileChange → Applied
  unfolding apply_change
  apply_batch r changed [] = (r, ok changed)
  apply_batch r changed (change ∷ changes) =
      then_change (apply_change r changed change) λ r' changed'. apply_batch r' changed' changes

  -- A batch is off the channel when its changes are applied.
  unfoldable pub apply_batches :
      ScriptRegistry → List Text → List (List FileChange) → List (List FileChange) × Applied
  unfolding apply_batch
  apply_batches r changed [] = ([], (r, ok changed))
  apply_batches r changed (batch ∷ batches) =
      then_batch (apply_batch r changed batch) batches
        λ r' changed'. apply_batches r' changed' batches

  -- The file system holds still meanwhile.
  unfoldable pub apply_pending : ScriptWatcher → ScriptRegistry → ScriptWatcher × Applied
  unfolding apply_batches
  apply_pending w r =
      let (left, applied) = apply_batches r [] w.rx in (record w { rx = left }, applied)
