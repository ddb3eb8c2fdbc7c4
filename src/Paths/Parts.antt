-- ===== src/Paths/Parts.antt =====
-- `Path::file_name`, `extension`, `parent` and `join` on Unix.
use luaml.Prelude.{
  ℕ, Text, codes, Bool, ◌||◌, Option, none, some, List, [], ◌∷◌, ◌++◌, ◌==◌, text_eq, if◌then◌else◌,
  starts_with, ends_with,
}
use luaml.Paths.{Component, root_dir, cur_dir, parent_dir, normal, components, slash}

-- `rsplit_once` with a character: what stands before its last occurrence, and what after.
unfoldable pub rsplit_once : ℕ → Text → Option (Text × Text)
rsplit_once c [] = none
rsplit_once c (d ∷ s) = elim (rsplit_once c s) [
  | some (l, r) ↦ some (d ∷ l, r)
  | none ↦ if d == c then some ([], s) else none
]

-- `ends_with` with a text.
unfoldable pub ends_with_text : Text → Text → Bool
ends_with_text suffix [] = text_eq suffix []
ends_with_text suffix (c ∷ s) = text_eq suffix (c ∷ s) || ends_with_text suffix s

-- The components but for the last, and the last.
unfoldable pub split_last : Component → List Component → List Component × Component
split_last c [] = ([], c)
split_last c (d ∷ cs) = let (initial, last) = split_last d cs in (c ∷ initial, last)

abbrev normal_name : Component → Option Text
normal_name (normal s) = some s
normal_name _ = none

abbrev name_of : List Component → Option Text
name_of [] = none
name_of (c ∷ cs) = normal_name (split_last c cs).1

unfoldable pub file_name : Text → Option Text
unfolding components split_last
file_name path = name_of (components path)

-- A name that starts with its only dot has no extension.
abbrev after_dot : Option (Text × Text) → Option Text
after_dot none = none
after_dot (some ([], after)) = none
after_dot (some (c ∷ before, after)) = some after

unfoldable pub extension : Text → Option Text
unfolding file_name rsplit_once
extension path = elim (file_name path) [
  | none ↦ none
  | some name ↦ after_dot (rsplit_once b'.' name)
]

abbrev component_text : Component → Text
component_text root_dir = slash ∷ []
component_text cur_dir = codes "."
component_text parent_dir = codes ".."
component_text (normal s) = s

-- The path with the given components.
unfoldable pub path_text : List Component → Text
path_text [] = []
path_text (root_dir ∷ cs) = slash ∷ path_text cs
path_text (c ∷ []) = component_text c
path_text (c ∷ d ∷ cs) = component_text c ++ slash ∷ path_text (d ∷ cs)

abbrev parent_of : List Component × Component → Option Text
parent_of (initial, root_dir) = none
parent_of (initial, c) = some (path_text initial)

abbrev parent_components : List Component → Option Text
parent_components [] = none
parent_components (c ∷ cs) = parent_of (split_last c cs)

unfoldable pub parent : Text → Option Text
unfolding components split_last path_text
parent path = parent_components (components path)

-- An absolute path replaces the one that it is joined to.
unfoldable pub join : Text → Text → Text
join base rel =
    if starts_with slash rel
    then rel
    else if text_eq base [] || ends_with slash base
    then base ++ rel
    else base ++ slash ∷ rel
