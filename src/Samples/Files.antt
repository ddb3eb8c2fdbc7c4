-- ===== src/Samples/Files.antt =====
-- Files, roots and changes: a directory `r` with a script, a manifest that lists a script which is
-- missing, and a directory `r/sub` with the other script that the manifest lists.
use luaml.Prelude.{
  ℕ, ◌≡◌, refl, ap, sym, subst, String, Bool-cases, codes, Text, Bool, true, ◌||◌, none, List, [],
  ◌∷◌, ◌++◌, text_eq, if◌then◌else◌, inl, inr, arith, trim, split_once, In, ends_with,
}
use luaml.Prelude.Outcome.{ok, Returns}
use luaml.Pattern.Parse.{parse_pattern_value}
use luaml.Clause.{Script}
use luaml.FileSystem.{FileSystem, IoResult}
use luaml.Extension.{ExtensionManifest, Toml}
use luaml.Registry.{ScriptRegistry}
use luaml.Registry.Walk.{walkdir}
use luaml.Registry.Walk.Reach.{Ranked, Finds, walkdir-Returns}
use luaml.Registry.Manifests.{Manifests, no_manifests, read_manifests, listed_path}
use luaml.Registry.Files.{keep, is_manifest, register_dir}
use luaml.Registry.Files.Skipped.{NoneFrom, register_dir-skips}
use luaml.Registry.Manifests.Blocked.{manifest_dir}
use luaml.Paths.{path_eq}
use luaml.Paths.Parts.{parent}
use luaml.Samples.{ascii}

abbrev pub is : String → Text → Bool
is s t = text_eq t (codes s)

abbrev top_entries : List (IoResult Text)
top_entries = inr (codes "r/a.luaml") ∷ inr (codes "r/x.extension.toml") ∷ inr (codes "r/sub") ∷ []

abbrev sub_entries : List (IoResult Text)
sub_entries = inr (codes "r/sub/b.luaml") ∷ []

abbrev pub script_text : Text
script_text = codes "---\ntype: :input:\n---\nbody"

abbrev listing : Text → IoResult (List (IoResult Text))
listing dir =
    if is "r" dir
    then inr top_entries
    else if is "r/sub" dir
    then inr sub_entries
    else inl (codes "no directory")

abbrev pub files : FileSystem
files = record {
  read_to_string =
      λ path. inr (if is "r/x.extension.toml" path then codes "manifest" else script_text);
  read_dir = listing;
  is_dir = λ path. is "r" path || is "r/sub" path;
  exists = λ path. is "r/sub/b.luaml" path;
  canonicalize = λ path. none;
}

abbrev pub manifest : ExtensionManifest
manifest = record { name = codes "x"; scripts = codes "sub/b.luaml" ∷ codes "sub/gone.luaml" ∷ [] }

abbrev pub toml : Toml
toml = record { from_str = λ text. inr manifest }

abbrev rank : Text → ℕ
rank path = if is "r" path then 2 else if is "r/sub" path then 1 else 0

abbrev found : List Text
found = codes "r/a.luaml" ∷ codes "r/x.extension.toml" ∷ codes "r/sub/b.luaml" ∷ []

walk_found : walkdir files 5 (codes "r") ≡ ok found
unfolding walkdir text_eq
walk_found = refl

abbrev path_or_empty : IoResult Text → Text
path_or_empty (inl e) = []
path_or_empty (inr path) = path

abbrev entries_or_empty : IoResult (List (IoResult Text)) → List (IoResult Text)
entries_or_empty (inl e) = []
entries_or_empty (inr entries) = entries

rank_below_r : (sub : Text) → In (inr sub) top_entries → files.is_dir sub ≡ true → rank sub ≡ 1
unfolding text_eq
rank_below_r sub (inl e) d = cc (subst (λ p. files.is_dir p ≡ true) (ap path_or_empty e) d)
rank_below_r sub (inr (inl e)) d = cc (subst (λ p. files.is_dir p ≡ true) (ap path_or_empty e) d)
rank_below_r sub (inr (inr (inl e))) d = ap (λ p. rank (path_or_empty p)) e
rank_below_r sub (inr (inr (inr b))) d = absurd b

none_below_sub : (sub : Text) → In (inr sub) sub_entries → files.is_dir sub ≡ true → ⊥
unfolding text_eq
none_below_sub sub (inl e) d = cc (subst (λ p. files.is_dir p ≡ true) (ap path_or_empty e) d)
none_below_sub sub (inr b) d = b

ranked : Ranked files rank
ranked dir sub entries h i d = elim (Bool-cases (is "r" dir)) [
  | inl a ↦
      let below =
        rank_below_r sub
          (subst (In (inr sub)) (sym (ap entries_or_empty (rw (a, if◌then◌else◌) at h))) i) d in
      rw (a, if◌then◌else◌) (omega (arith, below))
  | inr a ↦ elim (Bool-cases (is "r/sub" dir)) [
    | inl b ↦ absurd (
        none_below_sub sub
          (subst (In (inr sub)) (sym (ap entries_or_empty (rw (a, b, if◌then◌else◌) at h))) i) d)
    | inr b ↦ cc (rw (a, b, if◌then◌else◌) at h)
  ]
]

walkdir-Returns_example : Returns (Finds files (codes "r")) (walkdir files 5 (codes "r"))
walkdir-Returns_example =
    walkdir-Returns files rank 5 (codes "r") ranked (unfold text_eq in omega arith)

abbrev blocked : Manifests
blocked = record {
  blocked_paths = codes "r/sub/b.luaml" ∷ codes "r/sub/gone.luaml" ∷ [];
  extension_scripts = [];
}

manifests_read : read_manifests files toml no_manifests (keep is_manifest found) ≡ ok blocked
unfolding read_manifests keep is_manifest text_eq ends_with
manifests_read = refl

abbrev empty_registry : ScriptRegistry
empty_registry = record { scripts = [] }

register_dir-skips_example :
    (new : List Script) × ((register_dir files toml 5 empty_registry (codes "r")).0.scripts
      ≡ [] ++ new)
    × NoneFrom files
        (listed_path files (manifest_dir (codes "r/x.extension.toml")) (codes "sub/b.luaml"))
        new
register_dir-skips_example =
    register_dir-skips files toml 5 empty_registry (codes "r") (codes "r/x.extension.toml")
      (codes "sub/b.luaml") found blocked (unfold text_eq in refl) walk_found manifests_read
      (inr (inl refl)) (unfold is_manifest text_eq in refl)
      (
        codes "manifest",
        manifest,
        codes "sub/gone.luaml",
        unfold text_eq in refl,
        refl,
        inr (inl refl),
        unfold listed_path parent ends_with text_eq in refl,
        inl refl,
      )

-- The script at the top is registered, and the listed one in the directory below is not.
one_registered : (register_dir files toml 5 empty_registry (codes "r")).1 ≡ ok 1
unfolding register_dir text_eq trim split_once parse_pattern_value path_eq
one_registered = refl
