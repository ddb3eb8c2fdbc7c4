-- ===== src/Registry/Manifests/Blocked.antt =====
-- The paths that are blocked by a manifest which lists a script that is missing.
use luaml.Prelude.{
  ◌≡◌, refl, ap, sym, subst, ◌∙◌, Text, false, none, List, [], ◌∷◌, ◌++◌, inl, inr, In, In-append,
  Option-cases, if◌then◌else◌, arith,
}
use luaml.Prelude.Outcome.{Outcome, ok, err, panic, out_of_fuel, ◌>>=◌}
use luaml.Clause.{LuamlError}
use luaml.FileSystem.{FileSystem, io}
use luaml.Extension.{ExtensionManifest, Toml, parse_manifest}
use luaml.Paths.{path_eq}
use luaml.Paths.Parts.{parent}
use luaml.Registry.Manifests.{
  Manifests, read_manifests, contains_path, listed_path, listed_paths, resolve_scripts,
  add_manifest, manifest_dir_of,
}

-- The directory that the scripts of a manifest are relative to.
abbrev pub manifest_dir : Text → Text
manifest_dir path = manifest_dir_of (parent path)

resolve_scripts-missing :
    (fs : FileSystem) (dir : Text) (resolved rels : List Text) (missing : Text)
    → In missing rels
    → fs.exists (listed_path fs dir missing) ≡ false
    → resolve_scripts fs dir resolved rels ≡ none
unfolding resolve_scripts
resolve_scripts-missing fs dir resolved [] missing i h = absurd i
resolve_scripts-missing fs dir resolved (rel ∷ rels) missing (inl e) h =
    rw (← e) (rw (h, if◌then◌else◌) refl)
resolve_scripts-missing fs dir resolved (rel ∷ rels) missing (inr i) h = ground (
  arith,
  resolve_scripts-missing fs dir (resolved ++ listed_path fs dir rel ∷ []) rels missing i h,
)

In-listed_paths :
    (fs : FileSystem) (dir rel : Text) (rels : List Text)
    → In rel rels
    → In (listed_path fs dir rel) (listed_paths fs dir rels)
unfolding listed_paths
In-listed_paths fs dir rel [] i = i
In-listed_paths fs dir rel (q ∷ rels) (inl e) = inl (ap (listed_path fs dir) e)
In-listed_paths fs dir rel (q ∷ rels) (inr i) = inr (In-listed_paths fs dir rel rels i)

add_manifest-blocked :
    (fs : FileSystem) (ms : Manifests) (path : Text) (manifest : ExtensionManifest) (x : Text)
    → In x ms.blocked_paths
    → In x (add_manifest fs ms path manifest).blocked_paths
unfolding add_manifest
add_manifest-blocked fs ms path manifest x i =
    elim (Option-cases (resolve_scripts fs (manifest_dir path) [] manifest.scripts)) [
      | inl e ↦
          rw (e, add_manifest)
            ((In-append x ms.blocked_paths (listed_paths fs (manifest_dir path) manifest.scripts)).1
              (inl i))
      | inr (rs, e) ↦ rw (e, add_manifest) i
    ]

add_manifest-skipped :
    (fs : FileSystem) (ms : Manifests) (path : Text) (manifest : ExtensionManifest)
    (missing rel : Text)
    → In missing manifest.scripts
    → fs.exists (listed_path fs (manifest_dir path) missing) ≡ false
    → In rel manifest.scripts
    → In (listed_path fs (manifest_dir path) rel) (add_manifest fs ms path manifest).blocked_paths
unfolding add_manifest
add_manifest-skipped fs ms path manifest missing rel i h j =
    rw
      (resolve_scripts-missing fs (manifest_dir path) [] manifest.scripts missing i h, add_manifest)
      ((In-append _ ms.blocked_paths (listed_paths fs (manifest_dir path) manifest.scripts)).1
        (inr (In-listed_paths fs (manifest_dir path) rel manifest.scripts j)))

-- The manifests come from the files, one after another.
bind_ok :
    {A B : Type 0} (m : Outcome LuamlError A) (f : A → Outcome LuamlError B) (b : B)
    → (m >>= f) ≡ ok b
    → (a : A) × (m ≡ ok a) × (f a ≡ ok b)
bind_ok (ok a) f b h = (a, refl, h)
bind_ok (err e) f b h = cc
bind_ok panic f b h = cc
bind_ok out_of_fuel f b h = cc

abbrev value_or : {A : Type 0} → A → Outcome LuamlError A → A
value_or other (ok a) = a
value_or other _ = other

-- The manifest of a path lists a script that is missing, and the script `rel`.
abbrev pub Incomplete : FileSystem → Toml → Text → Text → Type 0
Incomplete fs toml path rel =
    (text : Text) × (manifest : ExtensionManifest) × (missing : Text) × (fs.read_to_string path
      ≡ inr text)
    × (toml.from_str text ≡ inr manifest)
    × In missing manifest.scripts
    × (fs.exists (listed_path fs (manifest_dir path) missing) ≡ false)
    × In rel manifest.scripts

module _ (fs : FileSystem) (toml : Toml) where
  read_manifests-step :
      (ms ms' : Manifests) (path : Text) (paths : List Text)
      → read_manifests fs toml ms (path ∷ paths) ≡ ok ms'
      → (text : Text) × (manifest : ExtensionManifest) × (io (fs.read_to_string path) ≡ ok text)
        × (parse_manifest toml text ≡ ok manifest)
        × (read_manifests fs toml (add_manifest fs ms path manifest) paths ≡ ok ms')
  unfolding read_manifests
  read_manifests-step ms ms' path paths h =
      let (text, e, k) = bind_ok (io (fs.read_to_string path)) _ ms' h in
      let (manifest, g, l) = bind_ok (parse_manifest toml text) _ ms' k in (text, manifest, e, g, l)

  read_manifests-blocked :
      (ms ms' : Manifests) (paths : List Text) (x : Text)
      → read_manifests fs toml ms paths ≡ ok ms'
      → In x ms.blocked_paths
      → In x ms'.blocked_paths
  unfolding read_manifests
  read_manifests-blocked ms ms' [] x h i = subst (λ m. In x m.blocked_paths) (ap (value_or ms) h) i
  read_manifests-blocked ms ms' (path ∷ paths) x h i =
      let (text, manifest, e, g, l) = read_manifests-step ms ms' path paths h in
      read_manifests-blocked (add_manifest fs ms path manifest) ms' paths x l
        (add_manifest-blocked fs ms path manifest x i)

  parse_manifest-same :
      (text : Text) (m m' : ExtensionManifest)
      → parse_manifest toml text ≡ ok m
      → toml.from_str text ≡ inr m'
      → m' ≡ m
  unfolding parse_manifest
  parse_manifest-same text m m' h g = ap (value_or m) (rw (g, parse_manifest) at h)

  pub read_manifests-skipped :
      (ms ms' : Manifests) (paths : List Text) (path rel : Text)
      → read_manifests fs toml ms paths ≡ ok ms'
      → In path paths
      → Incomplete fs toml path rel
      → In (listed_path fs (manifest_dir path) rel) ms'.blocked_paths
  read_manifests-skipped ms ms' [] path rel h i c = absurd i
  read_manifests-skipped ms ms' (q ∷ paths) path rel h (inl e) (text, m, missing, r, t, k, a, j) =
      let (text', m', e', g, l) = read_manifests-step ms ms' q paths h in
      let same : m ≡ m' =
        parse_manifest-same text m' m
          (subst (λ x. parse_manifest toml x ≡ ok m')
            (ap (value_or text) (sym e' ∙ ap io (ap fs.read_to_string (sym e) ∙ r))) g)
          t in
      read_manifests-blocked (add_manifest fs ms q m') ms' paths _ l (
        subst
          (λ n. In (listed_path fs (manifest_dir path) rel) (add_manifest fs ms q n).blocked_paths)
          same
          (subst
            (λ p.
              In (listed_path fs (manifest_dir path) rel) (add_manifest fs ms p m).blocked_paths)
            e (add_manifest-skipped fs ms path m missing rel k a j)))
  read_manifests-skipped ms ms' (q ∷ paths) path rel h (inr i) c =
      let (text, manifest, e, g, l) = read_manifests-step ms ms' q paths h in
      read_manifests-skipped (add_manifest fs ms q manifest) ms' paths path rel l i c

pub contains_path-In :
    (x canonical : Text) (paths : List Text)
    → In x paths
    → contains_path canonical paths ≡ false
    → path_eq x canonical ≡ false
unfolding contains_path
contains_path-In x canonical [] i h = absurd i
contains_path-In x canonical (p ∷ ps) (inl e) h = rw e (ground arith)
contains_path-In x canonical (p ∷ ps) (inr i) h = ground (arith, contains_path-In x canonical ps i)
