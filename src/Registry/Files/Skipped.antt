-- ===== src/Registry/Files/Skipped.antt =====
-- The scripts of an extension whose manifest lists a script that is missing.
use luaml.Prelude.{
  ℕ, ◌≡◌, refl, subst, Text, Bool, true, false, List, [], ◌∷◌, ◌++◌, inl, inr, In, Bool-cases,
  if◌then◌else◌, arith,
}
use luaml.Prelude.Outcome.{ok}
use luaml.Pattern.Chars.{Unicode}
use luaml.Clause.{Script}
use luaml.FileSystem.{FileSystem, canonical_or}
use luaml.Extension.{Toml}
use luaml.Paths.{path_eq}
use luaml.Registry.{ScriptRegistry}
use luaml.Registry.Update.{parse_luaml-path}
use luaml.Registry.Walk.{walkdir}
use luaml.Registry.Manifests.{Manifests, no_manifests, read_manifests, listed_path}
use luaml.Registry.Manifests.Blocked.{
  manifest_dir, Incomplete, read_manifests-skipped, contains_path-In,
}
use luaml.Registry.Files.{keep, is_luaml, is_manifest, register_dir}
use luaml.Registry.Files.Added.{Loaded, AllLoaded, unblocked, register_dir-Adds}

In-keep : (p : Text → Bool) (x : Text) (xs : List Text) → In x xs → p x ≡ true → In x (keep p xs)
unfolding keep
In-keep p x [] i h = i
In-keep p x (y ∷ xs) (inl e) h = rw (← e) (rw (h, if◌then◌else◌) (inl refl))
In-keep p x (y ∷ xs) (inr i) h = ground (arith, In-keep p x xs i h)

-- No script's path is the given one, in canonical form.
abbrev pub NoneFrom : FileSystem → Text → List Script → Type 0
NoneFrom fs path [] = Unit
NoneFrom fs path (s ∷ ss) =
    (path_eq path (canonical_or fs s.source_path) ≡ false) × NoneFrom fs path ss

abbrev AllPass : (Text → Bool) → List Text → Type 0
AllPass p [] = Unit
AllPass p (x ∷ xs) = (p x ≡ true) × AllPass p xs

keep-AllPass : (p : Text → Bool) (xs : List Text) → AllPass p (keep p xs)
unfolding keep
keep-AllPass p [] = tt
keep-AllPass p (x ∷ xs) = elim (Bool-cases (p x)) [
  | inl e ↦ rw (e, if◌then◌else◌) (e, keep-AllPass p xs)
  | inr e ↦ rw (e, if◌then◌else◌) (keep-AllPass p xs)
]

AllPass-front : (p : Text → Bool) (xs ys : List Text) → AllPass p (xs ++ ys) → AllPass p xs
AllPass-front p [] ys a = tt
AllPass-front p (x ∷ xs) ys a = (a.0, AllPass-front p xs ys a.1)

module _ ⦃u : Unicode⦄ (fs : FileSystem) where
  unblocked-other :
      (ms : Manifests) (x path : Text) (s : Script)
      → In x ms.blocked_paths
      → unblocked fs ms path ≡ true
      → Loaded fs path s
      → path_eq x (canonical_or fs s.source_path) ≡ false
  unfolding unblocked
  unblocked-other ms x path s i h (text, r, p) =
      rw (parse_luaml-path path text s p)
        (contains_path-In x (canonical_or fs path) ms.blocked_paths i (ground arith))

  AllLoaded-NoneFrom :
      (ms : Manifests) (x : Text) (done : List Text) (new : List Script)
      → In x ms.blocked_paths
      → AllPass (unblocked fs ms) done
      → AllLoaded fs done new
      → NoneFrom fs x new
  AllLoaded-NoneFrom ms x [] [] i p a = tt
  AllLoaded-NoneFrom ms x [] (s ∷ new) i p a = absurd a
  AllLoaded-NoneFrom ms x (path ∷ done) [] i p a = absurd a
  AllLoaded-NoneFrom ms x (path ∷ done) (s ∷ new) i p a =
      (unblocked-other ms x path s i p.0 a.0, AllLoaded-NoneFrom ms x done new i p.1 a.1)

-- A manifest that lists a script that is missing keeps the scripts that it lists out: when the walk
-- over the directory and its manifests succeed, the registry keeps its scripts and order, and among
-- those that `register_dir` adds at the end none has, in canonical form, the path of a script that
-- such a manifest lists.
pub register_dir-skips :
    ⦃u : Unicode⦄ (fs : FileSystem) (toml : Toml) (fuel : ℕ) (r : ScriptRegistry)
    (dir path rel : Text) (files : List Text) (ms : Manifests)
    → fs.is_dir dir ≡ true
    → walkdir fs fuel dir ≡ ok files
    → read_manifests fs toml no_manifests (keep is_manifest files) ≡ ok ms
    → In path files
    → is_manifest path ≡ true
    → Incomplete fs toml path rel
    → (new : List Script) × ((register_dir fs toml fuel r dir).0.scripts ≡ r.scripts ++ new)
      × NoneFrom fs (listed_path fs (manifest_dir path) rel) new
register_dir-skips fs toml fuel r dir path rel files ms d w m i h c =
    let (done, rest, new, split, scripts, all, closing) =
      register_dir-Adds fs toml fuel r dir files ms d w m in
    let found = In-keep is_manifest path files i h in
    let blocked =
      read_manifests-skipped fs toml no_manifests ms (keep is_manifest files) path rel m found c in
    let open_files =
      subst (AllPass (unblocked fs ms)) split
        (keep-AllPass (unblocked fs ms) (keep is_luaml files)) in
    (
      new,
      scripts,
      AllLoaded-NoneFrom fs ms _ done new blocked
          (AllPass-front (unblocked fs ms) done rest open_files) all,
    )
