-- ===== src/Registry/Files/Added.antt =====
-- What `register_dir` adds to the registry.
use luaml.Prelude.{
  ℕ, ◌+◌, ◌≡◌, refl, ap, sym, ◌∙◌, append-nil, append_assoc, Text, Bool, true, false, not, some,
  List, [], ◌∷◌, ◌++◌, inl, inr, length, get_last?, Bool-cases, Option-cases, if◌then◌else◌, arith,
}
use luaml.Prelude.Outcome.{Outcome, ok, err, panic, out_of_fuel}
use luaml.Pattern.Chars.{Unicode}
use luaml.Clause.{Script, LuamlError, parse_error, io_error, not_listed}
use luaml.Frontmatter.File.{parse_luaml}
use luaml.FileSystem.{FileSystem, IoResult, canonical_or}
use luaml.Registry.{ScriptRegistry, push_script, register_parsed, register_text}
use luaml.Extension.{Toml}
use luaml.Registry.Walk.{walkdir}
use luaml.Registry.Manifests.{Manifests, no_manifests, read_manifests, contains_path, unlisted}
use luaml.Registry.Manifests.Listed.{Listed, unlisted-Listed}
use luaml.Registry.Files.{
  is_luaml, is_manifest, register_dir, with_files, with_manifests, keep, register_read,
  register_file, check_listed, register_entry, then_entries, register_entries,
}

get_last?-push : {A : Type 0} (xs : List A) (x : A) → get_last? (xs ++ x ∷ []) ≡ some x
get_last?-push [] x = refl
get_last?-push (y ∷ []) x = refl
get_last?-push (y ∷ z ∷ xs) x = get_last?-push (z ∷ xs) x

module _ ⦃u : Unicode⦄ (fs : FileSystem) where
  -- The script is what the text of the file parses to.
  abbrev pub Loaded : Text → Script → Type 0
  Loaded path s =
      (text : Text) × (fs.read_to_string path ≡ inr text) × (parse_luaml path text ≡ ok s)

  abbrev pub AllLoaded : List Text → List Script → Type 0
  AllLoaded [] [] = Unit
  AllLoaded (p ∷ ps) (s ∷ ss) = Loaded p s × AllLoaded ps ss
  AllLoaded _ _ = ⊥

  unfoldable pub unblocked : Manifests → Text → Bool
  unfolding contains_path canonical_or
  unblocked ms path = not (contains_path (canonical_or fs path) ms.blocked_paths)

  -- Each script that declares an extension with a manifest is listed there.
  abbrev pub AllListed : Manifests → List Text → List Script → Type 0
  AllListed ms (p ∷ ps) (s ∷ ss) = Listed ms (canonical_or fs p) s.extension × AllListed ms ps ss
  AllListed ms _ _ = Unit

  -- What a file does to the registry: it loads and is listed, or loads and ends the run, or fails.
  data Entry (ms : Manifests) (r : ScriptRegistry) (path : Text)
      : ScriptRegistry × Outcome LuamlError (Unit {0}) → Type 0 where
    loaded :
        (s : Script)
        → Loaded path s
        → Listed ms (canonical_or fs path) s.extension
        → Entry ms r path (push_script r s, ok tt)
    refused :
        (s : Script) (e : LuamlError) → Loaded path s → Entry ms r path (push_script r s, err e)
    failed : (e : LuamlError) → Entry ms r path (r, err e)
    panicked : Entry ms r path (r, panic)
    ran_out : Entry ms r path (r, out_of_fuel)

  checked-Entry :
      (ms : Manifests) (r : ScriptRegistry) (path : Text) (s : Script)
      → Loaded path s
      → Entry ms r path (check_listed fs ms (canonical_or fs path) (push_script r s, ok tt))
  unfolding push_script
  checked-Entry ms r path s l =
      rw (get_last?-push r.scripts s)
        (elim (Option-cases (unlisted ms (canonical_or fs path) (some s))) [
          | inl e ↦
              rw (e, check_listed) (loaded s l (unlisted-Listed ms (canonical_or fs path) s e))
          | inr (name, e) ↦ rw (e, check_listed) (refused s (parse_error (not_listed name)) l)
        ])

  parsed-Entry :
      (ms : Manifests) (r : ScriptRegistry) (path text : Text) (o : Outcome LuamlError Script)
      → fs.read_to_string path ≡ inr text
      → parse_luaml path text ≡ o
      → Entry ms r path (check_listed fs ms (canonical_or fs path) (register_parsed r o))
  unfolding register_parsed
  parsed-Entry ms r path text (ok s) h p = checked-Entry ms r path s (text, h, p)
  parsed-Entry ms r path text (err e) h p = failed e
  parsed-Entry ms r path text panic h p = panicked
  parsed-Entry ms r path text out_of_fuel h p = ran_out

  read-Entry :
      (ms : Manifests) (r : ScriptRegistry) (path : Text) (t : IoResult Text)
      → fs.read_to_string path ≡ t
      → Entry ms r path (check_listed fs ms (canonical_or fs path) (register_read fs r path t))
  unfolding register_text
  read-Entry ms r path (inl e) h = failed (io_error e)
  read-Entry ms r path (inr text) h = parsed-Entry ms r path text (parse_luaml path text) h refl

  register_entry-Entry :
      (ms : Manifests) (r : ScriptRegistry) (path : Text)
      → Entry ms r path (register_entry fs ms r path)
  unfolding register_entry register_file
  register_entry-Entry ms r path = read-Entry ms r path (fs.read_to_string path) refl

  -- The rest of the files, the count and the listing, according to how the run ended.
  abbrev Closing :
      Manifests → ℕ → List Text → List Text → List Script → Outcome LuamlError ℕ → Type 0
  Closing ms count done rest new (ok n) =
      (rest ≡ []) × (n ≡ count + length new) × AllListed ms done new
  Closing ms count done rest new _ = Unit

  -- The scripts added are those of the files that are not blocked, in order, as far as the run went.
  abbrev pub Adds :
      Manifests → ScriptRegistry → ℕ → List Text → ScriptRegistry × Outcome LuamlError ℕ → Type 0
  Adds ms r count files result =
      (done rest : List Text) × (new : List Script) × (keep (unblocked ms) files ≡ done ++ rest)
      × (result.0.scripts ≡ r.scripts ++ new)
      × AllLoaded done new
      × Closing ms count done rest new result.1

  nothing_added :
      (ms : Manifests) (r : ScriptRegistry) (count : ℕ) (files : List Text)
      (out : Outcome LuamlError ℕ)
      → Closing ms count [] (keep (unblocked ms) files) [] out
      → Adds ms r count files (r, out)
  nothing_added ms r count files out c =
      ([], keep (unblocked ms) files, [], refl, sym (append-nil r.scripts), tt, c)

  Closing-more :
      (ms : Manifests) (count : ℕ) (path : Text) (s : Script) (done rest : List Text)
      (new : List Script) (out : Outcome LuamlError ℕ)
      → Listed ms (canonical_or fs path) s.extension
      → Closing ms (count + 1) done rest new out
      → Closing ms count (path ∷ done) rest (s ∷ new) out
  Closing-more ms count path s done rest new (ok n) l (e, c, a) = (e, omega (arith, c), (l, a))
  Closing-more ms count path s done rest new (err e) l c = tt
  Closing-more ms count path s done rest new panic l c = tt
  Closing-more ms count path s done rest new out_of_fuel l c = tt

  keep_open :
      (ms : Manifests) (path : Text) (files : List Text)
      → contains_path (canonical_or fs path) ms.blocked_paths ≡ false
      → keep (unblocked ms) (path ∷ files) ≡ path ∷ keep (unblocked ms) files
  unfolding keep unblocked
  keep_open ms path files h = rw h refl

  keep_shut :
      (ms : Manifests) (path : Text) (files : List Text)
      → contains_path (canonical_or fs path) ms.blocked_paths ≡ true
      → keep (unblocked ms) (path ∷ files) ≡ keep (unblocked ms) files
  unfolding keep unblocked
  keep_shut ms path files h = rw h refl

  Entry-Adds :
      (ms : Manifests) (r : ScriptRegistry) (count : ℕ) (path : Text) (files : List Text)
      (x : ScriptRegistry × Outcome LuamlError (Unit {0}))
      (next : ScriptRegistry → ScriptRegistry × Outcome LuamlError ℕ)
      → contains_path (canonical_or fs path) ms.blocked_paths ≡ false
      → Entry ms r path x
      → ((r' : ScriptRegistry) → Adds ms r' (count + 1) files (next r'))
      → Adds ms r count (path ∷ files) (then_entries fs x next)
  unfolding push_script
  Entry-Adds ms r count path files _ next b (loaded s l e) k =
      let (done, rest, new, split, scripts, all, c) = k (push_script r s) in
      (
        path ∷ done,
        rest,
        s ∷ new,
        keep_open ms path files b ∙ ap (λ xs. path ∷ xs) split,
        scripts ∙ append_assoc r.scripts (s ∷ []) new,
        (l, all),
        Closing-more ms count path s done rest new _ e c,
      )
  Entry-Adds ms r count path files _ next b (refused s e l) k =
      (path ∷ [], keep (unblocked ms) files, s ∷ [], keep_open ms path files b, refl, (l, tt), tt)
  Entry-Adds ms r count path files _ next b (failed e) k =
      nothing_added ms r count (path ∷ files) (err e) tt
  Entry-Adds ms r count path files _ next b panicked k =
      nothing_added ms r count (path ∷ files) panic tt
  Entry-Adds ms r count path files _ next b ran_out k =
      nothing_added ms r count (path ∷ files) out_of_fuel tt

  pub register_entries-Adds :
      (ms : Manifests) (r : ScriptRegistry) (count : ℕ) (files : List Text)
      → Adds ms r count files (register_entries fs ms r count files)
  unfolding register_entries
  register_entries-Adds ms r count [] =
      unfold keep in nothing_added ms r count [] (ok count) (refl, omega arith, tt)
  register_entries-Adds ms r count (path ∷ files) =
      elim (Bool-cases (contains_path (canonical_or fs path) ms.blocked_paths)) [
        | inl b ↦
            rw (b, if◌then◌else◌)
              (let (done, rest, new, split, scripts, all, c) =
                  register_entries-Adds ms r count files in
                (done, rest, new, keep_shut ms path files b ∙ split, scripts, all, c))
        | inr b ↦
            rw (b, if◌then◌else◌)
              (Entry-Adds ms r count path files _ _ b (register_entry-Entry ms r path)
                λ r'. register_entries-Adds ms r' (count + 1) files)
      ]

pub register_dir-Adds :
    ⦃u : Unicode⦄ (fs : FileSystem) (toml : Toml) (fuel : ℕ) (r : ScriptRegistry) (dir : Text)
    (files : List Text) (ms : Manifests)
    → fs.is_dir dir ≡ true
    → walkdir fs fuel dir ≡ ok files
    → read_manifests fs toml no_manifests (keep is_manifest files) ≡ ok ms
    → Adds fs ms r 0 (keep is_luaml files) (register_dir fs toml fuel r dir)
unfolding register_dir
register_dir-Adds fs toml fuel r dir files ms d w m =
    rw (d, if◌then◌else◌)
      (rw (w, with_files)
        (rw (m, with_manifests) (register_entries-Adds fs ms r 0 (keep is_luaml files))))
