-- ===== src/Paths/Equality.antt =====
-- Equality of paths is equality of their components.
use luaml.Prelude.{◌≡◌, Text, true, List, [], ◌∷◌, ◌↔◌, text_eq_iff, arith}
use luaml.Paths.{
  Component, root_dir, cur_dir, parent_dir, normal, component_eq, components_eq, components,
  path_eq,
}

pub component_eq_iff : (c d : Component) → (component_eq c d ≡ true) ↔ (c ≡ d)
unfolding component_eq
component_eq_iff root_dir root_dir = ground arith
component_eq_iff root_dir cur_dir = ground arith
component_eq_iff root_dir parent_dir = ground arith
component_eq_iff root_dir (normal t) = ground arith
component_eq_iff cur_dir root_dir = ground arith
component_eq_iff cur_dir cur_dir = ground arith
component_eq_iff cur_dir parent_dir = ground arith
component_eq_iff cur_dir (normal t) = ground arith
component_eq_iff parent_dir root_dir = ground arith
component_eq_iff parent_dir cur_dir = ground arith
component_eq_iff parent_dir parent_dir = ground arith
component_eq_iff parent_dir (normal t) = ground arith
component_eq_iff (normal s) root_dir = ground arith
component_eq_iff (normal s) cur_dir = ground arith
component_eq_iff (normal s) parent_dir = ground arith
component_eq_iff (normal s) (normal t) = ground (arith, text_eq_iff s t)

components_eq_iff : (cs ds : List Component) → (components_eq cs ds ≡ true) ↔ (cs ≡ ds)
unfolding components_eq
components_eq_iff [] [] = ground arith
components_eq_iff [] (d ∷ ds) = ground arith
components_eq_iff (c ∷ cs) [] = ground arith
components_eq_iff (c ∷ cs) (d ∷ ds) = ground (arith, component_eq_iff c d, components_eq_iff cs ds)

pub path_eq_iff : (p q : Text) → (path_eq p q ≡ true) ↔ (components p ≡ components q)
unfolding path_eq
path_eq_iff p q = components_eq_iff (components p) (components q)

pub path_eq_sym : (p q : Text) → path_eq p q ≡ path_eq q p
path_eq_sym p q = ground (arith, path_eq_iff p q, path_eq_iff q p)

-- Equal paths are equal to the same paths.
pub path_eq_right : (s p q : Text) → path_eq p q ≡ true → path_eq s p ≡ path_eq s q
path_eq_right s p q h = ground (arith, path_eq_iff p q, path_eq_iff s p, path_eq_iff s q)
