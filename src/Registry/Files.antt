-- ===== src/Registry/Files.antt =====
-- crates/luaml/src/registry.rs: `register_file` and `register_dir`.
pub mod Added
pub mod Skipped
use luaml.Prelude.{
  ℕ, ◌+◌, Text, codes, Bool, true, false, Option, none, some, List, [], ◌∷◌, text_eq, get_last?,
  if◌then◌else◌, inl, inr,
}
use luaml.Prelude.Outcome.{Outcome, ok, err}
use luaml.Pattern.Chars.{Unicode}
use luaml.Clause.{LuamlError, parse_error, not_listed}
use luaml.Paths.Parts.{file_name, extension, ends_with_text}
use luaml.FileSystem.{FileSystem, IoResult, io, canonical_or}
use luaml.Extension.{Toml}
use luaml.Registry.{ScriptRegistry, register_text}
use luaml.Registry.Walk.{walkdir}
use luaml.Registry.Manifests.{Manifests, no_manifests, read_manifests, contains_path, unlisted}

abbrev is_luaml_name : Option Text → Bool
is_luaml_name none = false
is_luaml_name (some e) = text_eq e (codes "luaml")

unfoldable pub is_luaml : Text → Bool
unfolding extension
is_luaml path = is_luaml_name (extension path)

abbrev is_manifest_name : Option Text → Bool
is_manifest_name none = false
is_manifest_name (some n) = ends_with_text (codes ".extension.toml") n

unfoldable pub is_manifest : Text → Bool
unfolding file_name ends_with_text
is_manifest path = is_manifest_name (file_name path)

-- `filter`.
unfoldable pub keep : (Text → Bool) → List Text → List Text
keep p [] = []
keep p (x ∷ xs) = let rest = keep p xs in if p x then x ∷ rest else rest

module _ ⦃u : Unicode⦄ (fs : FileSystem) where
  abbrev pub register_read :
      ScriptRegistry → Text → IoResult Text → ScriptRegistry × Outcome LuamlError (Unit {0})
  register_read r path (inl e) = (r, io (inl e))
  register_read r path (inr text) = register_text r path text

  unfoldable pub register_file :
      ScriptRegistry → Text → ScriptRegistry × Outcome LuamlError (Unit {0})
  unfolding register_text
  register_file r path = register_read r path (fs.read_to_string path)

  abbrev pub listed_or :
      ScriptRegistry → Option Text → ScriptRegistry × Outcome LuamlError (Unit {0})
  listed_or r none = (r, ok tt)
  listed_or r (some name) = (r, err (parse_error (not_listed name)))

  abbrev pub check_listed :
      Manifests
      → Text
      → ScriptRegistry × Outcome LuamlError (Unit {0})
      → ScriptRegistry × Outcome LuamlError (Unit {0})
  check_listed ms canonical (r, ok tt) = listed_or r (unlisted ms canonical (get_last? r.scripts))
  check_listed ms canonical (r, failed) = (r, failed)

  -- A file that is not blocked.
  unfoldable pub register_entry :
      Manifests → ScriptRegistry → Text → ScriptRegistry × Outcome LuamlError (Unit {0})
  unfolding register_file unlisted canonical_or
  register_entry ms r entry = check_listed ms (canonical_or fs entry) (register_file r entry)

  abbrev pub then_entries :
      ScriptRegistry × Outcome LuamlError (Unit {0})
      → (ScriptRegistry → ScriptRegistry × Outcome LuamlError ℕ)
      → ScriptRegistry × Outcome LuamlError ℕ
  then_entries (r, ok tt) next = next r
  then_entries (r, err e) next = (r, err e)
  then_entries (r, Outcome.panic) next = (r, Outcome.panic)
  then_entries (r, Outcome.out_of_fuel) next = (r, Outcome.out_of_fuel)

  -- The count is one of paths that are in memory, and fits a usize.
  unfoldable pub register_entries :
      Manifests → ScriptRegistry → ℕ → List Text → ScriptRegistry × Outcome LuamlError ℕ
  unfolding register_entry contains_path canonical_or
  register_entries ms r count [] = (r, ok count)
  register_entries ms r count (entry ∷ entries) =
      let skipped = register_entries ms r count entries in
      let registered =
        then_entries (register_entry ms r entry) λ r'. register_entries ms r' (count + 1) entries in
      if contains_path (canonical_or fs entry) ms.blocked_paths then skipped else registered

  abbrev pub with_manifests :
      ScriptRegistry
      → List Text
      → Outcome LuamlError Manifests
      → ScriptRegistry × Outcome LuamlError ℕ
  with_manifests r files (ok ms) = register_entries ms r 0 (keep is_luaml files)
  with_manifests r files (err e) = (r, err e)
  with_manifests r files Outcome.panic = (r, Outcome.panic)
  with_manifests r files Outcome.out_of_fuel = (r, Outcome.out_of_fuel)

  abbrev pub with_files :
      Toml → ScriptRegistry → Outcome LuamlError (List Text) → ScriptRegistry × Outcome LuamlError ℕ
  with_files toml r (ok files) =
      with_manifests r files (read_manifests fs toml no_manifests (keep is_manifest files))
  with_files toml r (err e) = (r, err e)
  with_files toml r Outcome.panic = (r, Outcome.panic)
  with_files toml r Outcome.out_of_fuel = (r, Outcome.out_of_fuel)

  -- The fuel is for `walkdir`.
  unfoldable pub register_dir :
      Toml → ℕ → ScriptRegistry → Text → ScriptRegistry × Outcome LuamlError ℕ
  unfolding walkdir read_manifests register_entries keep is_luaml is_manifest
  register_dir toml fuel r dir =
      if fs.is_dir dir then with_files toml r (walkdir fs fuel dir) else (r, ok 0)
