-- ===== src/Registry/Manifests.antt =====
-- crates/luaml/src/registry.rs, `register_dir`: what the manifests of extensions say.
pub mod Blocked
pub mod Listed
use luaml.Prelude.{
  Text, codes, Bool, true, false, ◌||◌, Option, none, some, List, [], ◌∷◌, ◌++◌, if◌then◌else◌,
}
use luaml.Prelude.Outcome.{Outcome, ok, ◌>>=◌}
use luaml.Clause.{Script, LuamlError}
use luaml.Frontmatter.Merge.{assoc_get, assoc_insert}
use luaml.Paths.{path_eq}
use luaml.Paths.Parts.{parent, join}
use luaml.FileSystem.{FileSystem, io, canonical_or}
use luaml.Extension.{ExtensionManifest, Toml, parse_manifest}

-- `contains` on a set or a vector of paths.
unfoldable pub contains_path : Text → List Text → Bool
contains_path path [] = false
contains_path path (p ∷ ps) = path_eq p path || contains_path path ps

unfoldable pub listed_path : FileSystem → Text → Text → Text
unfolding join canonical_or
listed_path fs manifest_dir rel = canonical_or fs (join manifest_dir rel)

unfoldable pub listed_paths : FileSystem → Text → List Text → List Text
unfolding listed_path
listed_paths fs manifest_dir [] = []
listed_paths fs manifest_dir (rel ∷ rels) =
    listed_path fs manifest_dir rel ∷ listed_paths fs manifest_dir rels

-- The loop that leaves at the first script that is missing.
unfoldable pub resolve_scripts : FileSystem → Text → List Text → List Text → Option (List Text)
unfolding listed_path
resolve_scripts fs manifest_dir resolved [] = some resolved
resolve_scripts fs manifest_dir resolved (rel ∷ rels) =
    let path = listed_path fs manifest_dir rel in
    let rest = resolve_scripts fs manifest_dir (resolved ++ path ∷ []) rels in
    if fs.exists path then rest else none

-- What the manifests say: the blocked paths, and the scripts of the extensions that are complete.
pub record Manifests : Type 0 where
  pub blocked_paths : List Text
  pub extension_scripts : List (Text × List Text)

abbrev pub no_manifests : Manifests
no_manifests = record { blocked_paths = []; extension_scripts = [] }

abbrev pub manifest_dir_of : Option Text → Text
manifest_dir_of (some dir) = dir
manifest_dir_of none = codes "."

unfoldable pub add_manifest : FileSystem → Manifests → Text → ExtensionManifest → Manifests
unfolding parent resolve_scripts listed_paths assoc_insert
add_manifest fs ms manifest_path manifest =
    let manifest_dir = manifest_dir_of (parent manifest_path) in
    elim (resolve_scripts fs manifest_dir [] manifest.scripts) [
      | some resolved ↦ record ms {
        extension_scripts = assoc_insert ms.extension_scripts manifest.name resolved;
      }
      | none ↦ record ms {
        blocked_paths = ms.blocked_paths ++ listed_paths fs manifest_dir manifest.scripts;
      }
    ]

unfoldable pub read_manifests :
    FileSystem → Toml → Manifests → List Text → Outcome LuamlError Manifests
unfolding parse_manifest add_manifest
read_manifests fs toml ms [] = ok ms
read_manifests fs toml ms (path ∷ paths) = io (fs.read_to_string path) >>= λ text.
    (parse_manifest toml text) >>= λ manifest.
    read_manifests fs toml (add_manifest fs ms path manifest) paths

-- The script declares an extension that has a manifest, in which the path is not listed.
unfoldable pub unlisted_in : Manifests → Text → Option Text → Option Text
unfolding assoc_get contains_path
unlisted_in ms canonical none = none
unlisted_in ms canonical (some name) = elim (assoc_get ms.extension_scripts name) [
  | none ↦ none
  | some paths ↦ if contains_path canonical paths then none else some name
]

unfoldable pub unlisted : Manifests → Text → Option Script → Option Text
unfolding unlisted_in
unlisted ms canonical none = none
unlisted ms canonical (some script) = unlisted_in ms canonical script.extension
