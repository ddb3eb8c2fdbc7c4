-- ===== src/Engine/Bindings.antt =====
-- The ids of API bindings, through the operations that add, replace and remove bindings.
use luaml.Prelude.{
  ℕ, suc, ◌+◌, ◌%◌, ◌≤◌, ◌<◌, ◌≡◌, refl, true, not, Option, none, some, is_some, List, [], ◌∷◌,
  ◌++◌, ◌==◌, ◌&&◌, length, length-append, arith, if◌then◌else◌, Bool-cases, inl, inr,
}
use luaml.Engine.Api.{ApiBindingEntry, ApiBindingSpec, retain_ids, replace_spec}
use luaml.Engine.State.{
  LuamlEngine, u64_mod, register_api, unregister_api, replace_api, register_local_api,
  unregister_local_api,
}

module _ {H : Type 0} where
  -- The ids increase from one entry to the next, from `lo` on and below `hi`.
  abbrev pub Issued : ℕ → ℕ → List (ApiBindingEntry H) → Type 0
  Issued lo hi [] = Unit
  Issued lo hi (e ∷ es) = (lo ≤ e.id) × (e.id < hi) × Issued (suc e.id) hi es

  -- The binding of an id.
  unfoldable pub find_spec : ℕ → List (ApiBindingEntry H) → Option (ApiBindingSpec H)
  find_spec id [] = none
  find_spec id (e ∷ es) = if e.id == id then some e.spec else find_spec id es

  Issued-mono :
      (lo hi hi' : ℕ) (es : List (ApiBindingEntry H))
      → hi ≤ hi'
      → Issued lo hi es
      → Issued lo hi' es
  Issued-mono lo hi hi' [] h g = tt
  Issued-mono lo hi hi' (e ∷ es) h g =
      (g.0, omega (arith, g.1), Issued-mono (suc e.id) hi hi' es h g.2)

  Issued-lower :
      (lo lo' hi : ℕ) (es : List (ApiBindingEntry H))
      → lo' ≤ lo
      → Issued lo hi es
      → Issued lo' hi es
  Issued-lower lo lo' hi [] h g = tt
  Issued-lower lo lo' hi (e ∷ es) h g = (omega (arith, g.0), g.1, g.2)

  Issued-push :
      (lo hi : ℕ) (es : List (ApiBindingEntry H)) (spec : ApiBindingSpec H)
      → lo ≤ hi
      → Issued lo hi es
      → Issued lo (suc hi) (es ++ record { id = hi; spec = spec } ∷ [])
  Issued-push lo hi [] spec h g = (h, omega arith, tt)
  Issued-push lo hi (e ∷ es) spec h g =
      (g.0, omega (arith, g.1), Issued-push (suc e.id) hi es spec (omega (arith, g.1)) g.2)

  Issued-retain :
      (id lo hi : ℕ) (es : List (ApiBindingEntry H))
      → Issued lo hi es
      → Issued lo hi (retain_ids id es)
  unfolding retain_ids
  Issued-retain id lo hi [] g = tt
  Issued-retain id lo hi (e ∷ es) g = elim (Bool-cases (e.id == id)) [
    | inl h ↦ rw h (
        Issued-lower (suc e.id) lo hi _ (omega (arith, g.0))
          (Issued-retain id (suc e.id) hi es g.2))
    | inr h ↦ rw h (g.0, g.1, Issued-retain id (suc e.id) hi es g.2)
  ]

  Issued-replace :
      (id : ℕ) (spec : ApiBindingSpec H) (lo hi : ℕ) (es : List (ApiBindingEntry H))
      → Issued lo hi es
      → Issued lo hi (replace_spec id spec es).0
  unfolding replace_spec
  Issued-replace id spec lo hi [] g = tt
  Issued-replace id spec lo hi (e ∷ es) g = elim (Bool-cases (e.id == id)) [
    | inl h ↦ rw h g
    | inr h ↦ rw h (g.0, g.1, Issued-replace id spec (suc e.id) hi es g.2)
  ]

  retain_last :
      (lo hi : ℕ) (es : List (ApiBindingEntry H)) (spec : ApiBindingSpec H)
      → Issued lo hi es
      → retain_ids hi (es ++ record { id = hi; spec = spec } ∷ []) ≡ es
  unfolding retain_ids
  retain_last lo hi [] spec g = ground arith
  retain_last lo hi (e ∷ es) spec g = ground (arith, retain_last (suc e.id) hi es spec g.2, g.1)

  retain-le : (id : ℕ) (es : List (ApiBindingEntry H)) → length (retain_ids id es) ≤ length es
  unfolding retain_ids
  retain-le id [] = omega arith
  retain-le id (e ∷ es) = ground (arith, retain-le id es)

  retain_length :
      (id : ℕ) (es : List (ApiBindingEntry H))
      → not (length (retain_ids id es) == length es) ≡ is_some (find_spec id es)
  unfolding retain_ids find_spec
  retain_length id [] = refl
  retain_length id (e ∷ es) = ground (arith, retain-le id es, retain_length id es)

  find-push :
      (lo hi id : ℕ) (es : List (ApiBindingEntry H)) (spec : ApiBindingSpec H)
      → Issued lo hi es
      → find_spec id (es ++ record { id = hi; spec = spec } ∷ [])
        ≡ (if hi == id then some spec else find_spec id es)
  unfolding find_spec
  find-push lo hi id [] spec g = ground arith
  find-push lo hi id (e ∷ es) spec g = ground (arith, find-push (suc e.id) hi id es spec g.2, g.1)

  find-replace :
      (id id' : ℕ) (spec : ApiBindingSpec H) (es : List (ApiBindingEntry H))
      → find_spec id' (replace_spec id spec es).0
        ≡ (if (id == id') && is_some (find_spec id es) then some spec else find_spec id' es)
  unfolding find_spec replace_spec
  find-replace id id' spec [] = ground arith
  find-replace id id' spec (e ∷ es) = ground (arith, find-replace id id' spec es)

  replace-found :
      (id : ℕ) (spec : ApiBindingSpec H) (es : List (ApiBindingEntry H))
      → (replace_spec id spec es).1 ≡ is_some (find_spec id es)
  unfolding find_spec replace_spec
  replace-found id spec [] = refl
  replace-found id spec (e ∷ es) = ground (arith, replace-found id spec es)

  find-retain :
      (id id' : ℕ) (es : List (ApiBindingEntry H))
      → find_spec id' (retain_ids id es) ≡ (if id == id' then none else find_spec id' es)
  unfolding find_spec retain_ids
  find-retain id id' [] = ground arith
  find-retain id id' (e ∷ es) = ground (arith, find-retain id id' es)

module _ {L H : Type 0} where
  -- The bindings of each list have ids of their own, all issued before the next one.
  abbrev pub HasOwnIds : LuamlEngine L H → Type 0
  HasOwnIds e = Issued 0 e.next_api_id e.api_bindings × Issued 0 e.next_api_id e.local_api_bindings

-- The operations on bindings, and a sequence of them.
pub data ApiOp (H : Type 0) : Type 0 where
  register_op : ApiBindingSpec H → ApiOp H
  unregister_op : ℕ → ApiOp H
  replace_op : ℕ → ApiBindingSpec H → ApiOp H
  register_local_op : ApiBindingSpec H → ApiOp H
  unregister_local_op : ℕ → ApiOp H

unfoldable pub run_op : {L H : Type 0} → ApiOp H → LuamlEngine L H → LuamlEngine L H
unfolding register_api unregister_api replace_api register_local_api unregister_local_api
run_op (register_op spec) e = (register_api e spec).0
run_op (unregister_op id) e = (unregister_api e id).0
run_op (replace_op id spec) e = (replace_api e id spec).0
run_op (register_local_op spec) e = (register_local_api e spec).0
run_op (unregister_local_op id) e = (unregister_local_api e id).0

unfoldable pub run_ops : {L H : Type 0} → List (ApiOp H) → LuamlEngine L H → LuamlEngine L H
unfolding run_op
run_ops [] e = e
run_ops (op ∷ ops) e = run_ops ops (run_op op e)

next_id : (n : ℕ) → suc n < u64_mod → (n + 1) % u64_mod ≡ suc n
next_id n h = omega arith

run_op-HasOwnIds :
    {L H : Type 0} (op : ApiOp H) (e : LuamlEngine L H)
    → suc e.next_api_id < u64_mod
    → HasOwnIds e
    → HasOwnIds (run_op op e) × ((run_op op e).next_api_id ≤ suc e.next_api_id)
unfolding run_op
run_op-HasOwnIds (register_op spec) e h (g, k) =
    rw (next_id e.next_api_id h)
      ((Issued-push 0 _ _ spec (omega arith) g, Issued-mono 0 _ _ _ (omega arith) k), omega arith)
run_op-HasOwnIds (unregister_op id) e h (g, k) = ((Issued-retain id 0 _ _ g, k), omega arith)
run_op-HasOwnIds (replace_op id spec) e h (g, k) =
    ((Issued-replace id spec 0 _ _ g, k), omega arith)
run_op-HasOwnIds (register_local_op spec) e h (g, k) =
    rw (next_id e.next_api_id h)
      ((Issued-mono 0 _ _ _ (omega arith) g, Issued-push 0 _ _ spec (omega arith) k), omega arith)
run_op-HasOwnIds (unregister_local_op id) e h (g, k) = ((g, Issued-retain id 0 _ _ k), omega arith)

-- Through any operations on bindings, as long as the counter of ids does not wrap, the bindings of
-- each of the two lists keep pairwise different ids, below the next one to be issued.
pub run_ops-HasOwnIds :
    {L H : Type 0} (ops : List (ApiOp H)) (e : LuamlEngine L H)
    → e.next_api_id + length ops < u64_mod
    → HasOwnIds e
    → HasOwnIds (run_ops ops e)
unfolding run_ops
run_ops-HasOwnIds [] e h g = g
run_ops-HasOwnIds (op ∷ ops) e h g =
    let (g', le) = run_op-HasOwnIds op e (omega (arith, h)) g in
    run_ops-HasOwnIds ops (run_op op e) (omega (arith, h, le)) g'

-- The bindings are a finite map: registering adds the new id with its spec, replacing changes the
-- spec of an id that is there and no other, unregistering takes away one id, and the two last tell
-- whether the id was there.
pub bindings-map :
    {L H : Type 0} (e : LuamlEngine L H) (spec : ApiBindingSpec H) (id other : ℕ)
    → HasOwnIds e
    → (find_spec other (register_api e spec).0.api_bindings
        ≡ (if (register_api e spec).1 == other then some spec else find_spec other e.api_bindings))
      × (find_spec other (replace_api e id spec).0.api_bindings ≡ (
          if (id == other) && is_some (find_spec id e.api_bindings)
          then some spec
          else find_spec other e.api_bindings))
      × ((replace_api e id spec).1 ≡ is_some (find_spec id e.api_bindings))
      × (find_spec other (unregister_api e id).0.api_bindings
          ≡ (if id == other then none else find_spec other e.api_bindings))
      × ((unregister_api e id).1 ≡ is_some (find_spec id e.api_bindings))
unfolding register_api replace_api unregister_api
bindings-map e spec id other h = (
  find-push 0 e.next_api_id other e.api_bindings spec h.0,
  find-replace id other spec e.api_bindings,
  replace-found id spec e.api_bindings,
  find-retain id other e.api_bindings,
  retain_length id e.api_bindings,
)

longer : {A : Type 0} (xs : List A) (x : A) → not (length xs == length (xs ++ x ∷ [])) ≡ true
longer xs x = ground (arith, length-append xs (x ∷ []))

-- To unregister a binding with the id that its registration gave restores the bindings.
pub unregister_api-register_api :
    {L H : Type 0} (e : LuamlEngine L H) (spec : ApiBindingSpec H)
    → HasOwnIds e
    → unregister_api (register_api e spec).0 (register_api e spec).1
      ≡ (record e { next_api_id = (e.next_api_id + 1) % u64_mod }, true)
unfolding register_api unregister_api
unregister_api-register_api e spec h =
    rw (retain_last 0 e.next_api_id e.api_bindings spec h.0, longer e.api_bindings _) refl
