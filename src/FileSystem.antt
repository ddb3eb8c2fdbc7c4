-- ===== src/FileSystem.antt =====
-- The file system, as `std::fs` and `std::path` show it to the program while an operation runs. An
-- I/O error is its text.
use luaml.Prelude.{Text, Bool, Option, none, some, List, ◌⊎◌, inl, inr}
use luaml.Prelude.Outcome.{Outcome, ok, err}
use luaml.Clause.{LuamlError, io_error}

-- `io::Result`.
abbrev pub IoResult {ℓ} : Type ℓ → Type ℓ
IoResult A = Text ⊎ A

-- An entry of a directory is the path of the entry.
pub record FileSystem : Type 0 where
  pub read_to_string : Text → IoResult Text
  pub read_dir : Text → IoResult (List (IoResult Text))
  pub is_dir : Text → Bool
  pub exists : Text → Bool
  pub canonicalize : Text → Option Text

-- The conversion of `?`.
abbrev pub io {ℓ} : {A : Type ℓ} → IoResult A → Outcome LuamlError A
io (inl e) = err (io_error e)
io (inr a) = ok a

unfoldable pub canonical_or : FileSystem → Text → Text
canonical_or fs path = elim (fs.canonicalize path) [ some p ↦ p | none ↦ path ]
