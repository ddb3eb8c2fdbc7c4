-- ===== src/Extension.antt =====
-- crates/luaml/src/extension.rs: the manifest of an extension. TOML is read by a library.
use luaml.Prelude.{Text, List, inl, inr}
use luaml.Prelude.Outcome.{Outcome, ok, err}
use luaml.Clause.{LuamlError, parse_error, invalid_manifest}
use luaml.FileSystem.{IoResult}

pub record ExtensionManifest : Type 0 where
  pub name : Text
  pub scripts : List Text

-- `toml::from_str` on a manifest: the manifest, or the text of the error.
pub record Toml : Type 0 where
  pub from_str : Text → IoResult ExtensionManifest

unfoldable pub parse_manifest : Toml → Text → Outcome LuamlError ExtensionManifest
parse_manifest toml text = elim (toml.from_str text) [
  | inl e ↦ err (parse_error (invalid_manifest e))
  | inr manifest ↦ ok manifest
]
