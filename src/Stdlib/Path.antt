-- ===== src/Stdlib/Path.antt =====
-- crates/luaml/src/stdlib/path.rs: paths by their components, on Unix. What `PathBuf::push` builds
-- is kept as the list of its components.
pub mod Normal
pub mod Tidy
pub mod Relative
use luaml.Prelude.{
  ℕ, Text, codes, Bool, true, false, ◌&&◌, Option, none, some, inl, inr, List, [], ◌∷◌, ◌++◌, map,
  if◌then◌else◌,
}
use luaml.Matching.{bool_eq}
use luaml.Paths.Parts.{parent, file_name, extension, join, path_text}
use luaml.FileSystem.{FileSystem, IoResult}
use luaml.Paths.{Component, root_dir, cur_dir, parent_dir, normal, component_eq, components}

-- `out` with its last component first.
unfoldable pub push_component : List Component → Component → List Component
push_component out cur_dir = out
push_component (normal s ∷ out) parent_dir = out
push_component (root_dir ∷ out) parent_dir = root_dir ∷ out
push_component out c = c ∷ out

unfoldable pub normalize_loop : List Component → List Component → List Component
unfolding push_component
normalize_loop out [] = out
normalize_loop out (c ∷ cs) = normalize_loop (push_component out c) cs

unfoldable pub reverse : List Component → List Component → List Component
reverse done [] = done
reverse done (c ∷ cs) = reverse (c ∷ done) cs

-- An empty path is written as a dot.
abbrev pub dot_or : List Component → List Component
dot_or [] = cur_dir ∷ []
dot_or (c ∷ cs) = c ∷ cs

-- `normalize_lexical`, on the components of its argument.
unfoldable pub normalize_lexical : List Component → List Component
unfolding normalize_loop reverse
normalize_lexical cs = dot_or (reverse [] (normalize_loop [] cs))

unfoldable pub is_absolute : List Component → Bool
is_absolute (root_dir ∷ cs) = true
is_absolute _ = false

abbrev pub up : List Component → List Component
up [] = []
up (c ∷ cs) = parent_dir ∷ up cs

-- What the loop over the shared components leaves: `..` for each that is left of `from`, and what
-- is left of `to`.
unfoldable pub relative_parts : List Component → List Component → List Component
unfolding component_eq
relative_parts (c ∷ from) (d ∷ to) =
    let rest = relative_parts from to in
    if component_eq c d then rest else up (c ∷ from) ++ (d ∷ to)
relative_parts from to = up from ++ to

unfoldable pub relative_lexical : List Component → List Component → List Component
unfolding relative_parts
relative_lexical from to = dot_or (relative_parts from to)

-- `path.relative`: paths of which one is absolute and the other is not have none.
unfoldable pub relative : List Component → List Component → List Component
unfolding normalize_lexical relative_lexical is_absolute
relative from to =
    let from_n = normalize_lexical from in
    let to_n = normalize_lexical to in
    if bool_eq (is_absolute from_n) (is_absolute to_n) then relative_lexical from_n to_n else to_n

-- The functions that scripts are given, on texts. `unwrap_or_default` gives an empty text.
abbrev or_empty : Option Text → Text
or_empty none = []
or_empty (some s) = s

unfoldable pub path_parent : Text → Text
path_parent p = or_empty (parent p)

unfoldable pub basename : Text → Text
basename p = or_empty (file_name p)

unfoldable pub path_extension : Text → Text
path_extension p = or_empty (extension p)

unfoldable pub normalize : Text → Text
unfolding normalize_lexical
normalize p = path_text (normalize_lexical (components p))

-- `path.absolute`, by the working directory, or the error of asking for it.
abbrev in_directory : Text → IoResult Text → IoResult Text
in_directory p (inl e) = inl (codes "cannot resolve cwd: " ++ e)
in_directory p (inr cwd) = inr (normalize (join cwd p))

abbrev not_canonical : Text → IoResult Text → IoResult Text
not_canonical p current_dir =
    if is_absolute (components p) then inr (normalize p) else in_directory p current_dir

unfoldable pub absolute : FileSystem → IoResult Text → Text → IoResult Text
unfolding normalize is_absolute
absolute fs current_dir p = elim (fs.canonicalize p) [
  | some canon ↦ inr canon
  | none ↦ not_canonical p current_dir
]
