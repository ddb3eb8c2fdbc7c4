-- ===== src/Paths.antt =====
-- `std::path::Path` on Unix: the components of a path, by which two paths are compared.
pub mod Parts
pub mod Equality
use luaml.Prelude.{
  ℕ, Text, codes, Bool, true, false, ◌&&◌, List, [], ◌∷◌, ◌++◌, ◌==◌, text_eq, if◌then◌else◌,
}

pub data Component : Type 0 where
  root_dir cur_dir parent_dir : Component
  normal : Text → Component

abbrev pub slash : ℕ
slash = b'/'

-- The pieces between slashes, the empty ones too.
unfoldable pub pieces : Text → Text → List Text
pieces piece [] = piece ∷ []
pieces piece (c ∷ s) =
    let cut = piece ∷ pieces [] s in
    let longer = pieces (piece ++ c ∷ []) s in if c == slash then cut else longer

-- A piece that is not the first: empty ones and `.` do not count.
unfoldable pub later_components : List Text → List Component
later_components [] = []
later_components (p ∷ ps) =
    if text_eq p []
    then later_components ps
    else if text_eq p (codes ".")
    then later_components ps
    else if text_eq p (codes "..")
    then parent_dir ∷ later_components ps
    else normal p ∷ later_components ps

-- The first piece: `.` at the start of a relative path counts.
unfoldable pub first_components : List Text → List Component
unfolding later_components
first_components [] = []
first_components (p ∷ ps) =
    if text_eq p (codes ".") then cur_dir ∷ later_components ps else later_components (p ∷ ps)

unfoldable pub components : Text → List Component
unfolding pieces first_components
components [] = []
components (c ∷ s) =
    if c == slash
    then root_dir ∷ later_components (pieces [] s)
    else first_components (pieces [] (c ∷ s))

unfoldable pub component_eq : Component → Component → Bool
component_eq root_dir root_dir = true
component_eq cur_dir cur_dir = true
component_eq parent_dir parent_dir = true
component_eq (normal s) (normal t) = text_eq s t
component_eq _ _ = false

unfoldable pub components_eq : List Component → List Component → Bool
unfolding component_eq
components_eq [] [] = true
components_eq (c ∷ cs) (d ∷ ds) = component_eq c d && components_eq cs ds
components_eq _ _ = false

-- `PartialEq for Path`.
unfoldable pub path_eq : Text → Text → Bool
unfolding components components_eq
path_eq p q = components_eq (components p) (components q)
