-- ===== src/Engine/Roots/Distinct.antt =====
-- The roots that the engine tracks.
use luaml.Prelude.{
  ℕ, ◌+◌, ◌≡◌, refl, ap, sym, ◌∙◌, append-nil, append_assoc, Text, true, false, ◌||◌, List, [], ◌∷◌,
  ◌++◌, Bool-cases, if◌then◌else◌, inl, inr, arith,
}
use luaml.Prelude.Outcome.{Outcome, ok, err, panic, out_of_fuel}
use luaml.Pattern.Chars.{Unicode}
use luaml.Clause.{LuamlError}
use luaml.Paths.Equality.{path_eq_sym}
use luaml.FileSystem.{FileSystem}
use luaml.Extension.{Toml}
use luaml.Registry.{ScriptRegistry}
use luaml.Registry.Files
use luaml.Registry.Update.{path_eq_refl}
use luaml.Engine.State.{LuamlEngine}
use luaml.Engine.Roots.{
  with_registry, has_root, register_dir, track, add_root, then_total, add_roots, register_roots,
}

-- No root is tracked twice.
abbrev pub DistinctRoots : List Text → Type 0
DistinctRoots [] = Unit
DistinctRoots (r ∷ rs) = (has_root r rs ≡ false) × DistinctRoots rs

has_root-append :
    (root : Text) (rs ts : List Text)
    → has_root root (rs ++ ts) ≡ (has_root root rs || has_root root ts)
unfolding has_root
has_root-append root [] ts = refl
has_root-append root (r ∷ rs) ts = ground (arith, has_root-append root rs ts)

DistinctRoots-push :
    (root : Text) (rs : List Text)
    → has_root root rs ≡ false
    → DistinctRoots rs
    → DistinctRoots (rs ++ root ∷ [])
unfolding has_root
DistinctRoots-push root [] h d = (refl, tt)
DistinctRoots-push root (r ∷ rs) h d = (
  rw (has_root-append r rs (root ∷ []), d.0) (ground (arith, path_eq_sym r root)),
  DistinctRoots-push root rs (ground arith) d.1,
)

-- All of the paths are tracked.
abbrev pub AllTracked : List Text → List Text → Type 0
AllTracked [] tracked = Unit
AllTracked (r ∷ rs) tracked = (has_root r tracked ≡ true) × AllTracked rs tracked

-- The roots grew at the end to distinct ones, and after a success all of the given are tracked.
abbrev pub Ended : List Text → List Text → Outcome LuamlError ℕ → Type 0
Ended roots tracked (ok n) = AllTracked roots tracked
Ended roots tracked _ = Unit

abbrev pub Grown :
    {L H : Type 0} → LuamlEngine L H → List Text → LuamlEngine L H × Outcome LuamlError ℕ → Type 0
Grown e roots result =
    (more : List Text) × (result.0.roots ≡ e.roots ++ more)
    × DistinctRoots result.0.roots
    × Ended roots result.0.roots result.1

Ended-more :
    (root : Text) (roots tracked : List Text) (o : Outcome LuamlError ℕ)
    → has_root root tracked ≡ true
    → Ended roots tracked o
    → Ended (root ∷ roots) tracked o
Ended-more root roots tracked (ok n) h t = (h, t)
Ended-more root roots tracked (err e) h t = tt
Ended-more root roots tracked panic h t = tt
Ended-more root roots tracked out_of_fuel h t = tt

module _ {L H : Type 0} ⦃u : Unicode⦄ (fs : FileSystem) (toml : Toml) (fuel : ℕ) where
  track-Grown :
      (e : LuamlEngine L H) (root : Text) (x : ScriptRegistry × Outcome LuamlError ℕ)
      → DistinctRoots e.roots
      → has_root root e.roots ≡ false
      → Grown e (root ∷ []) (track fs toml fuel root (with_registry e x))
  unfolding has_root
  track-Grown e root (r, ok n) d h = (
    root ∷ [],
    refl,
    DistinctRoots-push root e.roots h d,
    (rw (has_root-append root e.roots (root ∷ []), h, path_eq_refl root) refl, tt),
  )
  track-Grown e root (r, err f) d h = ([], sym (append-nil e.roots), d, tt)
  track-Grown e root (r, panic) d h = ([], sym (append-nil e.roots), d, tt)
  track-Grown e root (r, out_of_fuel) d h = ([], sym (append-nil e.roots), d, tt)

  add_root-Grown :
      (e : LuamlEngine L H) (root : Text)
      → DistinctRoots e.roots
      → Grown e (root ∷ []) (add_root fs toml fuel e root)
  unfolding add_root register_dir
  add_root-Grown e root d = elim (Bool-cases (has_root root e.roots)) [
    | inl t ↦ rw (t, if◌then◌else◌) ([], sym (append-nil e.roots), d, (t, tt))
    | inr t ↦
        rw (t, if◌then◌else◌)
          (track-Grown e root (Files.register_dir fs toml fuel e.registry root) d t)
  ]

  then_total-Grown :
      (total : ℕ) (e : LuamlEngine L H) (root : Text) (roots : List Text)
      (x : LuamlEngine L H × Outcome LuamlError ℕ)
      (next : LuamlEngine L H → ℕ → LuamlEngine L H × Outcome LuamlError ℕ)
      → Grown e (root ∷ []) x
      → ((e' : LuamlEngine L H) (n : ℕ) → DistinctRoots e'.roots → Grown e' roots (next e' n))
      → Grown e (root ∷ roots) (then_total total x next)
  then_total-Grown total e root roots (e', ok n) next (more, g, d, t) k =
      let (more', g', d', t') = k e' (total + n) d in
      let kept : has_root root (next e' (total + n)).0.roots ≡ true =
        rw (g', has_root-append root e'.roots more', t.0) refl in
      (
        more ++ more',
        g' ∙ ap (λ rs. rs ++ more') g ∙ append_assoc e.roots more more',
        d',
        Ended-more root roots _ (next e' (total + n)).1 kept t',
      )
  then_total-Grown total e root roots (e', err f) next (more, g, d, t) k = (more, g, d, tt)
  then_total-Grown total e root roots (e', panic) next (more, g, d, t) k = (more, g, d, tt)
  then_total-Grown total e root roots (e', out_of_fuel) next (more, g, d, t) k = (more, g, d, tt)

  add_roots-Grown :
      (total : ℕ) (e : LuamlEngine L H) (roots : List Text)
      → DistinctRoots e.roots
      → Grown e roots (add_roots fs toml fuel total e roots)
  unfolding add_roots
  add_roots-Grown total e [] d = ([], sym (append-nil e.roots), d, tt)
  add_roots-Grown total e (root ∷ roots) d =
      then_total-Grown total e root roots (add_root fs toml fuel e root) _ (add_root-Grown e root d)
        λ e' n d'. add_roots-Grown n e' roots d'

-- Registering roots keeps the tracked roots free of duplicates, however it ends and whatever the
-- given roots repeat: the roots that were tracked stay, in their order and at the front, and after
-- a success each given root is tracked.
pub register_roots-DistinctRoots :
    {L H : Type 0} ⦃u : Unicode⦄ (fs : FileSystem) (toml : Toml) (fuel : ℕ) (e : LuamlEngine L H)
    (roots : List Text)
    → DistinctRoots e.roots
    → Grown e roots (register_roots fs toml fuel e roots)
unfolding register_roots
register_roots-DistinctRoots fs toml fuel e roots d = add_roots-Grown fs toml fuel 0 e roots d
