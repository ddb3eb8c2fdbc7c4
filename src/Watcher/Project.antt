-- ===== src/Watcher/Project.antt =====
-- What pending changes mean for the scripts of one path.
use luaml.Prelude.{
  ◌≡◌, refl, ap, sym, ◌∙◌, subst, append-nil, Text, true, false, List, [], ◌∷◌, ◌++◌, Bool-cases,
  if◌then◌else◌, inl, inr, arith,
}
use luaml.Prelude.Outcome.{Outcome, ok, err, panic, out_of_fuel}
use luaml.Pattern.Chars.{Unicode}
use luaml.Clause.{Script, LuamlError}
use luaml.Frontmatter.File.{parse_luaml}
use luaml.Paths.{path_eq}
use luaml.Paths.Equality.{path_eq_right, path_eq_sym}
use luaml.FileSystem.{FileSystem, IoResult}
use luaml.Registry.{
  ScriptRegistry, retain_other, unregister, replace, register_text, register_parsed, push_script,
}
use luaml.Registry.Update.{parse_luaml-path, path_eq_refl}
use luaml.Watcher.{FileChange, create_or_modify, remove, reload, apply_change}

-- The scripts of a path, in the order of the registry.
unfoldable pub scripts_at : Text → List Script → List Script
scripts_at path [] = []
scripts_at path (s ∷ ss) =
    let rest = scripts_at path ss in if path_eq s.source_path path then s ∷ rest else rest

scripts_at-append :
    (path : Text) (ss ts : List Script)
    → scripts_at path (ss ++ ts) ≡ scripts_at path ss ++ scripts_at path ts
unfolding scripts_at
scripts_at-append path [] ts = refl
scripts_at-append path (s ∷ ss) ts = ground (arith, scripts_at-append path ss ts)

abbrev pub flatten : List (List FileChange) → List FileChange
flatten [] = []
flatten (b ∷ bs) = b ++ flatten bs

abbrev pub path_of : FileChange → Text
path_of (create_or_modify q) = q
path_of (remove q) = q

-- What the last change leaves, where `s` is the parse of the file.
abbrev pub left_by : Script → FileChange → List Script
left_by s (create_or_modify q) = s ∷ []
left_by s (remove q) = []

-- The changes are of other paths.
abbrev pub NoneOf : Text → List FileChange → Type 0
NoneOf path [] = Unit
NoneOf path (c ∷ cs) = (path_eq (path_of c) path ≡ false) × NoneOf path cs

path_eq_left : (s p q : Text) → path_eq s q ≡ true → path_eq s p ≡ path_eq q p
path_eq_left s p q h = path_eq_sym s p ∙ path_eq_right p s q h ∙ path_eq_sym p q

scripts_at-retain_own :
    (path q : Text) (ss : List Script)
    → path_eq q path ≡ true
    → scripts_at path (retain_other q ss) ≡ []
unfolding scripts_at retain_other
scripts_at-retain_own path q [] h = refl
scripts_at-retain_own path q (s ∷ ss) h =
    ground (arith, scripts_at-retain_own path q ss h, path_eq_right s.source_path q path h)

scripts_at-retain_other :
    (path q : Text) (ss : List Script)
    → path_eq q path ≡ false
    → scripts_at path (retain_other q ss) ≡ scripts_at path ss
unfolding scripts_at retain_other
scripts_at-retain_other path q [] h = refl
scripts_at-retain_other path q (s ∷ ss) h =
    ground (arith, scripts_at-retain_other path q ss h, path_eq_left s.source_path path q)

module _ ⦃u : Unicode⦄ (fs : FileSystem) where
  -- The scripts of a path after a change: a file that is gone has none, one that can be read has its
  -- parse or none, and one that cannot keeps what it had.
  abbrev pub parse_at : Outcome LuamlError Script → List Script
  parse_at (ok s) = s ∷ []
  parse_at _ = []

  abbrev pub read_at : List Script → Text → IoResult Text → List Script
  read_at ss q (inl e) = ss
  read_at ss q (inr text) = parse_at (parse_luaml q text)

  unfoldable pub after_change : Text → List Script → FileChange → List Script
  unfolding parse_luaml
  after_change path ss (create_or_modify q) =
      if path_eq q path then read_at ss q (fs.read_to_string q) else ss
  after_change path ss (remove q) = if path_eq q path then [] else ss

  unfoldable pub after_changes : Text → List Script → List FileChange → List Script
  unfolding after_change
  after_changes path ss [] = ss
  after_changes path ss (c ∷ cs) = after_changes path (after_change path ss c) cs

  -- The registry after the scripts of `q` are gone and a parse of its text is added.
  register_parsed-own :
      (path q text : Text) (r : ScriptRegistry) (o : Outcome LuamlError Script)
      → parse_luaml q text ≡ o
      → path_eq q path ≡ true
      → scripts_at path r.scripts ≡ []
      → scripts_at path (register_parsed r o).0.scripts ≡ parse_at o
  unfolding register_parsed push_script scripts_at
  register_parsed-own path q text r (ok s) h e n =
      scripts_at-append path r.scripts (s ∷ []) ∙ rw (n, parse_luaml-path q text s h, e) refl
  register_parsed-own path q text r (err _) h e n = n
  register_parsed-own path q text r panic h e n = n
  register_parsed-own path q text r out_of_fuel h e n = n

  register_parsed-other :
      (path q text : Text) (r : ScriptRegistry) (o : Outcome LuamlError Script)
      → parse_luaml q text ≡ o
      → path_eq q path ≡ false
      → scripts_at path (register_parsed r o).0.scripts ≡ scripts_at path r.scripts
  unfolding register_parsed push_script scripts_at
  register_parsed-other path q text r (ok s) h e =
      scripts_at-append path r.scripts (s ∷ []) ∙ rw (parse_luaml-path q text s h, e) (append-nil _)
  register_parsed-other path q text r (err _) h e = refl
  register_parsed-other path q text r panic h e = refl
  register_parsed-other path q text r out_of_fuel h e = refl

  -- `replace`, for the scripts of a path.
  replace-own :
      (path q text : Text) (r : ScriptRegistry)
      → path_eq q path ≡ true
      → scripts_at path (replace r q text).0.scripts ≡ parse_at (parse_luaml q text)
  unfolding replace register_text unregister
  replace-own path q text r e =
      register_parsed-own path q text (unregister r q).0 (parse_luaml q text) refl e
        (scripts_at-retain_own path q r.scripts e)

  replace-other :
      (path q text : Text) (r : ScriptRegistry)
      → path_eq q path ≡ false
      → scripts_at path (replace r q text).0.scripts ≡ scripts_at path r.scripts
  unfolding replace register_text unregister
  replace-other path q text r e =
      register_parsed-other path q text (unregister r q).0 (parse_luaml q text) refl e
      ∙ scripts_at-retain_other path q r.scripts e

  reload-own :
      (path q : Text) (r : ScriptRegistry) (changed : List Text) (t : IoResult Text)
      → path_eq q path ≡ true
      → scripts_at path (reload fs r changed q t).0.scripts
        ≡ read_at (scripts_at path r.scripts) q t
  reload-own path q r changed (inl e) h = refl
  reload-own path q r changed (inr text) h = replace-own path q text r h

  reload-other :
      (path q : Text) (r : ScriptRegistry) (changed : List Text) (t : IoResult Text)
      → path_eq q path ≡ false
      → scripts_at path (reload fs r changed q t).0.scripts ≡ scripts_at path r.scripts
  reload-other path q r changed (inl e) h = refl
  reload-other path q r changed (inr text) h = replace-other path q text r h

  pub apply_change-at :
      (path : Text) (r : ScriptRegistry) (changed : List Text) (c : FileChange)
      → scripts_at path (apply_change fs r changed c).0.scripts
        ≡ after_change path (scripts_at path r.scripts) c
  unfolding apply_change after_change unregister
  apply_change-at path r changed (create_or_modify q) = elim (Bool-cases (path_eq q path)) [
    | inl e ↦ rw (e, if◌then◌else◌) (reload-own path q r changed (fs.read_to_string q) e)
    | inr e ↦ rw (e, if◌then◌else◌) (reload-other path q r changed (fs.read_to_string q) e)
  ]
  apply_change-at path r changed (remove q) = elim (Bool-cases (path_eq q path)) [
    | inl e ↦ rw (e, if◌then◌else◌) (scripts_at-retain_own path q r.scripts e)
    | inr e ↦ rw (e, if◌then◌else◌) (scripts_at-retain_other path q r.scripts e)
  ]

  pub after_changes-append :
      (path : Text) (ss : List Script) (cs ds : List FileChange)
      → after_changes path ss (cs ++ ds) ≡ after_changes path (after_changes path ss cs) ds
  unfolding after_changes
  after_changes-append path ss [] ds = refl
  after_changes-append path ss (c ∷ cs) ds =
      after_changes-append path (after_change path ss c) cs ds

  after_changes-other :
      (path : Text) (ss : List Script) (cs : List FileChange)
      → NoneOf path cs
      → after_changes path ss cs ≡ ss
  unfolding after_changes after_change
  after_changes-other path ss [] h = refl
  after_changes-other path ss (create_or_modify q ∷ cs) h =
      rw (h.0, if◌then◌else◌) (after_changes-other path ss cs h.1)
  after_changes-other path ss (remove q ∷ cs) h =
      rw (h.0, if◌then◌else◌) (after_changes-other path ss cs h.1)

  pub after_change-last :
      (path text : Text) (s : Script) (ss : List Script) (after : List FileChange)
      (change : FileChange)
      → path_of change ≡ path
      → NoneOf path after
      → fs.read_to_string path ≡ inr text
      → parse_luaml path text ≡ ok s
      → after_changes path ss (change ∷ after) ≡ left_by s change
  unfolding after_changes after_change
  after_change-last path text s ss after (create_or_modify q) e n t p =
      after_changes-other path _ after n
      ∙ rw (e, path_eq_refl path, t, read_at)
          (subst (λ q'. parse_at (parse_luaml q' text) ≡ s ∷ []) (sym e) (ap parse_at p))
  after_change-last path text s ss after (remove q) e n t p =
      after_changes-other path _ after n ∙ rw (e, path_eq_refl path) refl
