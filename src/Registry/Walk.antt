-- ===== src/Registry/Walk.antt =====
-- crates/luaml/src/registry.rs, `walkdir`: the files under a directory.
pub mod Reach
use luaml.Prelude.{ℕ, zero, suc, Text, List, [], ◌∷◌, ◌++◌, if◌then◌else◌, inl, inr}
use luaml.Prelude.Outcome.{Outcome, ok, ◌>>=◌}
use luaml.Clause.{LuamlError}
use luaml.FileSystem.{FileSystem, IoResult, io}

-- `walkdir`, with the call one level deeper as `walk`.
unfoldable pub walk_entries :
    FileSystem
    → (Text → Outcome LuamlError (List Text))
    → List Text
    → List (IoResult Text)
    → Outcome LuamlError (List Text)
walk_entries fs walk files [] = ok files
walk_entries fs walk files (inl e ∷ entries) = io (inl e)
walk_entries fs walk files (inr path ∷ entries) =
    let deeper = walk path >>= λ found. walk_entries fs walk (files ++ found) entries in
    let next = walk_entries fs walk (files ++ path ∷ []) entries in
    if fs.is_dir path then deeper else next

-- A unit of fuel for each level of the directory tree.
unfoldable pub walkdir : FileSystem → ℕ → Text → Outcome LuamlError (List Text)
unfolding walk_entries
walkdir fs zero dir = Outcome.out_of_fuel
walkdir fs (suc n) dir = io (fs.read_dir dir) >>= walk_entries fs (walkdir fs n) []
