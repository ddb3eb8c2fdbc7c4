-- ===== src/Registry/Update.antt =====
-- Removing and replacing the scripts of a path.
use luaml.Prelude.{
  ℕ, ◌≤◌, ◌≡◌, refl, Text, Bool, true, false, not, ◌||◌, List, [], ◌∷◌, ◌==◌, length, arith,
  text_eq_refl,
}
use luaml.Prelude.Outcome.{ok, err}
use luaml.Pattern.Chars.{Unicode}
use luaml.Clause.{Script, LuamlError}
use luaml.Frontmatter.File.{parse_luaml, parse_lines, parse_rest}
use luaml.Frontmatter.Text.{lines}
use luaml.Paths.{
  Component, root_dir, cur_dir, parent_dir, normal, component_eq, components_eq, components,
  path_eq,
}
use luaml.Registry.{ScriptRegistry, retain_other, unregister, register_text, replace}

component_eq_refl : (c : Component) → component_eq c c ≡ true
unfolding component_eq
component_eq_refl root_dir = refl
component_eq_refl cur_dir = refl
component_eq_refl parent_dir = refl
component_eq_refl (normal s) = text_eq_refl s

components_eq_refl : (cs : List Component) → components_eq cs cs ≡ true
unfolding components_eq
components_eq_refl [] = refl
components_eq_refl (c ∷ cs) = rw (component_eq_refl c) (components_eq_refl cs)

pub path_eq_refl : (p : Text) → path_eq p p ≡ true
unfolding path_eq
path_eq_refl p = components_eq_refl (components p)

-- Whether some script comes from the path, and that none does.
unfoldable pub has_path : Text → List Script → Bool
has_path path [] = false
has_path path (s ∷ ss) = path_eq s.source_path path || has_path path ss

abbrev pub AllFrom : Text → List Script → Type 0
AllFrom path [] = Unit
AllFrom path (s ∷ ss) = (path_eq s.source_path path ≡ true) × AllFrom path ss

retain_other-length : (path : Text) (ss : List Script) → length (retain_other path ss) ≤ length ss
unfolding retain_other
retain_other-length path [] = omega arith
retain_other-length path (s ∷ ss) = ground (arith, retain_other-length path ss)

retain_other-has_path :
    (path : Text) (ss : List Script) → has_path path (retain_other path ss) ≡ false
unfolding retain_other has_path
retain_other-has_path path [] = refl
retain_other-has_path path (s ∷ ss) = ground (arith, retain_other-has_path path ss)

retain_other-removed :
    (path : Text) (ss : List Script)
    → not (length (retain_other path ss) == length ss) ≡ has_path path ss
unfolding retain_other has_path
retain_other-removed path [] = refl
retain_other-removed path (s ∷ ss) =
    ground (arith, retain_other-length path ss, retain_other-removed path ss)

parse_rest-path :
    ⦃u : Unicode⦄ (path : Text) (ls : List Text) (n : ℕ) (s : Script)
    → parse_rest path ls n ≡ ok s
    → s.source_path ≡ path
unfolding parse_rest
parse_rest-path path ls n s h = ground arith

parse_lines-path :
    ⦃u : Unicode⦄ (path : Text) (ls : List Text) (s : Script)
    → parse_lines path ls ≡ ok s
    → s.source_path ≡ path
unfolding parse_lines
parse_lines-path path [] s h = cc
parse_lines-path path (l ∷ ls) s h = ground (arith, parse_rest-path path (l ∷ ls))

pub parse_luaml-path :
    ⦃u : Unicode⦄ (path text : Text) (s : Script)
    → parse_luaml path text ≡ ok s
    → s.source_path ≡ path
unfolding parse_luaml
parse_luaml-path path text s h = parse_lines-path path (lines text) s h

register_text-err :
    ⦃u : Unicode⦄ (r : ScriptRegistry) (path text : Text) (e : LuamlError)
    → parse_luaml path text ≡ err e
    → register_text r path text ≡ (r, err e)
unfolding register_text
register_text-err r path text e h = rw (h, register_text) refl

-- The third list is the first two, each in its order, in any interleaving.
pub data Woven : List Script → List Script → List Script → Type 0 where
  ends : Woven [] [] []
  left :
      {own others ss : List Script}
      → (s : Script) → Woven own others ss
      → Woven (s ∷ own) others (s ∷ ss)
  right :
      {own others ss : List Script}
      → (s : Script) → Woven own others ss
      → Woven own (s ∷ others) (s ∷ ss)

abbrev pub some_script : List Script → Bool
some_script [] = false
some_script (s ∷ ss) = true

neither : {a b : Bool} → (a || b) ≡ false → (a ≡ false) × (b ≡ false)
neither h = ground arith

retain_other-Woven :
    (path : Text) {own others ss : List Script}
    → Woven own others ss
    → AllFrom path own
    → has_path path others ≡ false
    → (retain_other path ss ≡ others) × (has_path path ss ≡ some_script own)
unfolding retain_other has_path
retain_other-Woven path ends k g = (refl, refl)
retain_other-Woven path (left s w) k g =
    let (kept, found) = retain_other-Woven path w k.1 g in ground (arith, k.0)
retain_other-Woven path (right s w) k g =
    let (apart, rest) = neither {a = path_eq s.source_path path} g in
    let (kept, found) = retain_other-Woven path w k rest in rw apart (rw kept refl, found)

-- `unregister` takes away the scripts of the path and no other, whichever way they are mixed with
-- scripts of other paths, keeps the order of those that stay, and tells whether there was one.
pub unregister-Woven :
    (path : Text) (own others ss : List Script)
    → Woven own others ss
    → AllFrom path own
    → has_path path others ≡ false
    → unregister (record { scripts = ss }) path ≡ (record { scripts = others }, some_script own)
unfolding unregister
unregister-Woven path own others ss w k g =
    let (kept, found) = retain_other-Woven path w k g in
    rw (retain_other-removed path ss, kept, found) refl

-- When the new text does not parse, `replace` gives the error and has already taken the scripts of
-- the path away.
pub replace-failed :
    ⦃u : Unicode⦄ (r : ScriptRegistry) (path text : Text) (e : LuamlError)
    → parse_luaml path text ≡ err e
    → ((replace r path text).1 ≡ err e) × (has_path path (replace r path text).0.scripts ≡ false)
unfolding replace
replace-failed r path text e h =
    rw (register_text-err (unregister r path).0 path text e h)
      (refl, retain_other-has_path path r.scripts)
