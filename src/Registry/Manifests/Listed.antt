-- ===== src/Registry/Manifests/Listed.antt =====
-- What the check of a registered script against the manifests finds.
use luaml.Prelude.{
  ◌≡◌, refl, Text, true, Option, none, some, List, [], ◌∷◌, ◌⊎◌, In, inl, inr, Bool-cases,
  if◌then◌else◌, Option-cases,
}
use luaml.Clause.{Script}
use luaml.Frontmatter.Merge.{assoc_get}
use luaml.Paths.{path_eq}
use luaml.Registry.Manifests.{Manifests, contains_path, unlisted, unlisted_in}

-- A script of an extension is listed, when the extension has a manifest: one of the paths of the
-- manifest is that of the script.
abbrev pub Listed : Manifests → Text → Option Text → Type 0
Listed ms canonical none = Unit
Listed ms canonical (some name) =
    (assoc_get ms.extension_scripts name ≡ none)
    ⊎ ((paths : List Text) × (assoc_get ms.extension_scripts name ≡ some paths)
        × (q : Text) × In q paths
        × (path_eq q canonical ≡ true))

contains_path-In :
    (path : Text) (paths : List Text)
    → contains_path path paths ≡ true
    → (q : Text) × In q paths × (path_eq q path ≡ true)
unfolding contains_path
contains_path-In path [] h = absurd cc
contains_path-In path (p ∷ ps) h = elim (Bool-cases (path_eq p path)) [
  | inl e ↦ (p, inl refl, e)
  | inr e ↦ let (q, i, k) = contains_path-In path ps (rw e at h) in (q, inr i, k)
]

unlisted_in-Listed :
    (ms : Manifests) (canonical : Text) (o : Option Text)
    → unlisted_in ms canonical o ≡ none
    → Listed ms canonical o
unfolding unlisted_in
unlisted_in-Listed ms canonical none h = tt
unlisted_in-Listed ms canonical (some name) h =
    elim (Option-cases (assoc_get ms.extension_scripts name)) [
      | inl e ↦ inl e
      | inr (paths, e) ↦
          let rest : (if contains_path canonical paths then none else some name) ≡ none =
            rw (e, unlisted_in) at h in
          elim (Bool-cases (contains_path canonical paths)) [
            | inl c ↦ let (q, i, k) = contains_path-In canonical paths c in inr (paths, e, q, i, k)
            | inr c ↦ cc (rw c at rest)
          ]
    ]

pub unlisted-Listed :
    (ms : Manifests) (canonical : Text) (s : Script)
    → unlisted ms canonical (some s) ≡ none
    → Listed ms canonical s.extension
unfolding unlisted
unlisted-Listed ms canonical s h = unlisted_in-Listed ms canonical s.extension h
