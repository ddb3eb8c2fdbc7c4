-- ===== src/Engine/Roots/Reload.antt =====
-- Registering roots against reloading them.
use luaml.Prelude.{
  ℕ, ◌+◌, ◌≡◌, refl, ap, ◌∙◌, subst, Text, List, [], ◌∷◌, ◌++◌, Bool-cases, if◌then◌else◌, inl, inr,
  arith,
}
use luaml.Prelude.Outcome.{Outcome, ok, err, panic, out_of_fuel}
use luaml.Pattern.Chars.{Unicode}
use luaml.Clause.{LuamlError}
use luaml.FileSystem.{FileSystem}
use luaml.Extension.{Toml}
use luaml.Registry
use luaml.Registry.{ScriptRegistry}
use luaml.Registry.Files
use luaml.Engine.State.{LuamlEngine}
use luaml.Engine.Roots.{
  with_registry, has_root, register_dir, track, add_root, then_total, add_roots, register_roots,
  register_dirs, reload_roots,
}

abbrev and_then :
    {S : Type 0}
    → S × Outcome LuamlError ℕ
    → (S → ℕ → S × Outcome LuamlError ℕ)
    → S × Outcome LuamlError ℕ
and_then (s, ok n) next = next s n
and_then (s, err e) next = (s, err e)
and_then (s, panic) next = (s, panic)
and_then (s, out_of_fuel) next = (s, out_of_fuel)

then_total-and_then :
    {S : Type 0} (total : ℕ) (x : S × Outcome LuamlError ℕ)
    (f g k : S → ℕ → S × Outcome LuamlError ℕ)
    → ((s : S) (n : ℕ) → f s n ≡ and_then (g s n) k)
    → then_total total x f ≡ and_then (then_total total x g) k
then_total-and_then total (s, ok n) f g k h = h s (total + n)
then_total-and_then total (s, err e) f g k h = refl
then_total-and_then total (s, panic) f g k h = refl
then_total-and_then total (s, out_of_fuel) f g k h = refl

then_total_ok :
    {S : Type 0} (total : ℕ) (x : S × Outcome LuamlError ℕ)
    (next : S → ℕ → S × Outcome LuamlError ℕ) (s' : S) (k : ℕ)
    → then_total total x next ≡ (s', ok k)
    → (s : S) × (j : ℕ) × (x ≡ (s, ok j)) × (next s (total + j) ≡ (s', ok k))
then_total_ok total (s, ok j) next s' k h = (s, j, refl, h)
then_total_ok total (s, err e) next s' k h = cc
then_total_ok total (s, panic) next s' k h = cc
then_total_ok total (s, out_of_fuel) next s' k h = cc

abbrev value_or_zero : Outcome LuamlError ℕ → ℕ
value_or_zero (ok n) = n
value_or_zero _ = 0

module _ ⦃u : Unicode⦄ (fs : FileSystem) (toml : Toml) (fuel : ℕ) where
  register_dirs-append :
      (total : ℕ) (r : ScriptRegistry) (roots : List Text) (root : Text)
      → register_dirs fs toml fuel total r (roots ++ root ∷ [])
        ≡ and_then
            (register_dirs fs toml fuel total r roots)
            (λ r' n. then_total n (Files.register_dir fs toml fuel r' root) (λ r'' k. (r'', ok k)))
  unfolding register_dirs
  register_dirs-append total r [] root = refl
  register_dirs-append total r (q ∷ roots) root =
      then_total-and_then total (Files.register_dir fs toml fuel r q) _ _ _
        λ r' n. register_dirs-append n r' roots root

module _ {L H : Type 0} ⦃u : Unicode⦄ (fs : FileSystem) (toml : Toml) (fuel : ℕ) where
  -- Registering the tracked roots anew gives the registry there is, with so many scripts.
  abbrev IsSynced : LuamlEngine L H → ℕ → Type 0
  IsSynced e n =
      register_dirs fs toml fuel 0 (Registry.clear e.registry) e.roots ≡ (e.registry, ok n)

  track-IsSynced :
      (e e' : LuamlEngine L H) (root : Text) (n k : ℕ) (x : ScriptRegistry × Outcome LuamlError ℕ)
      → Files.register_dir fs toml fuel e.registry root ≡ x
      → IsSynced e n
      → track fs toml fuel root (with_registry e x) ≡ (e', ok k)
      → IsSynced e' (n + k)
  unfolding Registry.clear
  track-IsSynced e e' root n k (r, ok j) d s h =
      subst (λ (y : LuamlEngine L H × Outcome LuamlError ℕ). IsSynced y.0 (n + value_or_zero y.1)) h
        (register_dirs-append fs toml fuel 0 (Registry.clear e.registry) e.roots root
          ∙ ap
              (λ x. and_then x λ r' m.
                then_total m (Files.register_dir fs toml fuel r' root) (λ r'' i. (r'', ok i)))
              s
          ∙ ap (λ x. then_total n x (λ r'' i. (r'', ok i))) d)
  track-IsSynced e e' root n k (r, err f) d s h = cc
  track-IsSynced e e' root n k (r, panic) d s h = cc
  track-IsSynced e e' root n k (r, out_of_fuel) d s h = cc

  add_root-IsSynced :
      (e e' : LuamlEngine L H) (root : Text) (n k : ℕ)
      → IsSynced e n
      → add_root fs toml fuel e root ≡ (e', ok k)
      → IsSynced e' (n + k)
  unfolding add_root register_dir
  add_root-IsSynced e e' root n k s h = elim (Bool-cases (has_root root e.roots)) [
    | inl t ↦
        subst (λ (y : LuamlEngine L H × Outcome LuamlError ℕ). IsSynced y.0 (n + value_or_zero y.1))
          (rw (t, if◌then◌else◌) at h) (subst (IsSynced e) (omega arith) s)
    | inr t ↦
        track-IsSynced e e' root n k (Files.register_dir fs toml fuel e.registry root) refl s
          (rw (t, if◌then◌else◌) at h)
  ]

  add_roots-IsSynced :
      (total : ℕ) (e e' : LuamlEngine L H) (roots : List Text) (n k : ℕ)
      → IsSynced e (n + total)
      → add_roots fs toml fuel total e roots ≡ (e', ok k)
      → IsSynced e' (n + k)
  unfolding add_roots
  add_roots-IsSynced total e e' [] n k s h =
      subst (λ (y : LuamlEngine L H × Outcome LuamlError ℕ). IsSynced y.0 (n + value_or_zero y.1)) h
        s
  add_roots-IsSynced total e e' (root ∷ roots) n k s h =
      let (e₁, j, a, g) = then_total_ok total (add_root fs toml fuel e root) _ e' k h in
      add_roots-IsSynced (total + j) e₁ e' roots n k
        (subst (IsSynced e₁) (omega arith) (add_root-IsSynced e e₁ root (n + total) j s a)) g

-- Reloading the roots right after registering some changes nothing: when the registry is what a
-- reload of the tracked roots gives, as at the start, and more roots are registered without an
-- error, then a reload, with the file system as it was, gives the same engine, and counts the
-- scripts of both.
pub register_roots-reload_roots :
    {L H : Type 0} ⦃u : Unicode⦄ (fs : FileSystem) (toml : Toml) (fuel : ℕ) (e e' : LuamlEngine L H)
    (roots : List Text) (n k : ℕ)
    → reload_roots fs toml fuel e ≡ (e, ok n)
    → register_roots fs toml fuel e roots ≡ (e', ok k)
    → reload_roots fs toml fuel e' ≡ (e', ok (n + k))
unfolding reload_roots register_roots
register_roots-reload_roots {L} {H} fs toml fuel e e' roots n k h g =
    let synced =
      add_roots-IsSynced fs toml fuel 0 e e' roots n k
        (subst
          (λ m.
            register_dirs fs toml fuel 0 (Registry.clear e.registry) e.roots ≡ (e.registry, ok m))
          (omega arith)
          (ap (λ (y : LuamlEngine L H × Outcome LuamlError ℕ). (y.0.registry, y.1)) h))
        g in
    ap (with_registry e') synced
