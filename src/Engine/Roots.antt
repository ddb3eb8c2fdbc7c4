-- ===== src/Engine/Roots.antt =====
-- crates/luaml/src/lib.rs: files, directories and roots.
pub mod Reload
pub mod Distinct
use luaml.Prelude.{
  ℕ, ◌+◌, Text, Bool, true, false, ◌||◌, Option, none, some, is_some, List, [], ◌∷◌, ◌++◌,
  if◌then◌else◌, inl, inr,
}
use luaml.Prelude.Outcome.{Outcome, ok, err}
use luaml.Types.{Float, FieldMap}
use luaml.Pattern.Chars.{Unicode}
use luaml.Clause.{LuamlError}
use luaml.Paths.{path_eq}
use luaml.FileSystem.{FileSystem, IoResult, io}
use luaml.Extension.{Toml}
use luaml.Registry
use luaml.Registry.{ScriptRegistry}
use luaml.Registry.Files
use luaml.Watcher
use luaml.Watcher.{ScriptWatcher, apply_pending}
use luaml.Engine.Api.{Vm}
use luaml.Engine.State.{LuamlEngine}
use luaml.Engine.Cascade
use luaml.Engine.Cascade.{ClauseOutcome}

-- A root that is tracked.
unfoldable pub has_root : Text → List Text → Bool
has_root root [] = false
has_root root (r ∷ rs) = path_eq r root || has_root root rs

abbrev replace_read :
    ⦃u : Unicode⦄ → ScriptRegistry → Text → IoResult Text → ScriptRegistry × Outcome LuamlError Bool
replace_read r path (inl failure) = (r, io (inl failure))
replace_read r path (inr text) = Registry.replace r path text

-- `total += …?`
abbrev pub then_total :
    {S : Type 0}
    → ℕ
    → S × Outcome LuamlError ℕ
    → (S → ℕ → S × Outcome LuamlError ℕ)
    → S × Outcome LuamlError ℕ
then_total total (s, ok n) next = next s (total + n)
then_total total (s, err e) next = (s, err e)
then_total total (s, Outcome.panic) next = (s, Outcome.panic)
then_total total (s, Outcome.out_of_fuel) next = (s, Outcome.out_of_fuel)

module _ ⦃u : Unicode⦄ (fs : FileSystem) (toml : Toml) (fuel : ℕ) where
  unfoldable pub register_dirs :
      ℕ → ScriptRegistry → List Text → ScriptRegistry × Outcome LuamlError ℕ
  unfolding Files.register_dir
  register_dirs total r [] = (r, ok total)
  register_dirs total r (root ∷ roots) =
      then_total total (Files.register_dir fs toml fuel r root) λ r' n. register_dirs n r' roots

module _ {L H : Type 0} where
  abbrev pub with_registry :
      {A : Type 0} → LuamlEngine L H → ScriptRegistry × A → LuamlEngine L H × A
  with_registry e (r, a) = (record e { registry = r }, a)

module _ {L H : Type 0} ⦃u : Unicode⦄ (fs : FileSystem) where
  unfoldable pub register_file :
      LuamlEngine L H → Text → LuamlEngine L H × Outcome LuamlError (Unit {0})
  unfolding Files.register_file
  register_file e path = with_registry e (Files.register_file fs e.registry path)

  unfoldable pub replace_file : LuamlEngine L H → Text → LuamlEngine L H × Outcome LuamlError Bool
  unfolding Registry.replace
  replace_file e path = with_registry e (replace_read e.registry path (fs.read_to_string path))

-- The fuel is for the walks over directories.
module _ {L H : Type 0} ⦃u : Unicode⦄ (fs : FileSystem) (toml : Toml) (fuel : ℕ) where
  unfoldable pub register_dir : LuamlEngine L H → Text → LuamlEngine L H × Outcome LuamlError ℕ
  unfolding Files.register_dir
  register_dir e dir = with_registry e (Files.register_dir fs toml fuel e.registry dir)

  -- A root is recorded when its directory is registered without an error.
  abbrev pub track :
      Text → LuamlEngine L H × Outcome LuamlError ℕ → LuamlEngine L H × Outcome LuamlError ℕ
  track root (e, ok count) = (record e { roots = e.roots ++ root ∷ [] }, ok count)
  track root (e, failed) = (e, failed)

  unfoldable pub add_root : LuamlEngine L H → Text → LuamlEngine L H × Outcome LuamlError ℕ
  unfolding register_dir has_root
  add_root e root = if has_root root e.roots then (e, ok 0) else track root (register_dir e root)

  unfoldable pub add_roots :
      ℕ → LuamlEngine L H → List Text → LuamlEngine L H × Outcome LuamlError ℕ
  unfolding add_root
  add_roots total e [] = (e, ok total)
  add_roots total e (root ∷ roots) = then_total total (add_root e root) λ e' n. add_roots n e' roots

  unfoldable pub register_roots :
      LuamlEngine L H → List Text → LuamlEngine L H × Outcome LuamlError ℕ
  unfolding add_roots
  register_roots e roots = add_roots 0 e roots

  unfoldable pub reload_roots : LuamlEngine L H → LuamlEngine L H × Outcome LuamlError ℕ
  unfolding register_dirs Registry.clear
  reload_roots e =
      with_registry e (register_dirs fs toml fuel 0 (Registry.clear e.registry) e.roots)
