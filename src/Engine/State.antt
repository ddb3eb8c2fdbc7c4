-- ===== src/Engine/State.antt =====
-- The state of the engine, its counters, and the operations on its API bindings and scripts.
use luaml.Prelude.{
  ℕ, ◌+◌, ◌^◌, ◌%◌, Text, codes, Bool, not, Option, none, some, List, [], ◌∷◌, ◌++◌, ◌==◌, length,
  text_eq, if◌then◌else◌,
}
use luaml.Prelude.Outcome.{Outcome}
use luaml.Pattern.{Fields, no_fields, field, enum, string_literal}
use luaml.Pattern.Chars.{Unicode}
use luaml.Clause.{Clause, Script, LuamlError}
use luaml.Frontmatter.Merge.{assoc_get, assoc_insert}
use luaml.Watcher.{ScriptWatcher}
use luaml.Registry
use luaml.Registry.{ScriptRegistry}
use luaml.Engine.Api.{ApiBindingEntry, ApiBindingSpec, retain_ids, replace_spec}

pub data ClauseErrKind : Type 0 where
  guard body cascade_depth cascade_cycle cascade_budget : ClauseErrKind

-- The messages: of a body's error, and of the cascade with the numbers that they quote.
pub data ErrorMessage : Type 0 where
  lua_message : Text → ErrorMessage
  depth_exceeded : ℕ → ℕ → ErrorMessage
  cycle_detected : ℕ → ErrorMessage
  budget_exhausted : ℕ → ℕ → ErrorMessage

pub record ClauseError : Type 0 where
  pub kind : ClauseErrKind
  pub message : ErrorMessage

pub record CascadeConfig : Type 0 where
  pub max_depth : ℕ
  pub budget : ℕ

abbrev pub default_config : CascadeConfig
default_config = record { max_depth = 32; budget = 256 }

-- The counters of the engine are 64 bits wide.
abbrev pub u64_mod : ℕ
u64_mod = 2 ^ 64

pub record LuamlEngine (L H : Type 0) : Type 0 where
  pub registry : ScriptRegistry
  pub api_bindings : List (ApiBindingEntry H)
  pub local_api_bindings : List (ApiBindingEntry H)
  pub next_api_id : ℕ
  pub lua : L
  pub roots : List Text
  pub cascade_config : CascadeConfig
  pub dispatches : ℕ
  pub matched : ℕ
  pub cascade_depth_max : ℕ
  pub cascades_emitted : ℕ
  pub last_error_per_script : List (Text × ClauseError)
  pub watcher : Option ScriptWatcher

module _ {L H : Type 0} where
  unfoldable pub with_lua : L → LuamlEngine L H
  with_lua lua = record {
    registry = record { scripts = [] };
    api_bindings = [];
    local_api_bindings = [];
    next_api_id = 0;
    lua = lua;
    roots = [];
    cascade_config = default_config;
    dispatches = 0;
    matched = 0;
    cascade_depth_max = 0;
    cascades_emitted = 0;
    last_error_per_script = [];
    watcher = none;
  }

  unfoldable pub set_cascade_config : LuamlEngine L H → CascadeConfig → LuamlEngine L H
  set_cascade_config e cfg = record e { cascade_config = cfg }

  unfoldable pub register_api : LuamlEngine L H → ApiBindingSpec H → LuamlEngine L H × ℕ
  register_api e spec = (
    record e {
      api_bindings = e.api_bindings ++ record { id = e.next_api_id; spec = spec } ∷ [];
      next_api_id = (e.next_api_id + 1) % u64_mod;
    },
    e.next_api_id,
  )

  unfoldable pub unregister_api : LuamlEngine L H → ℕ → LuamlEngine L H × Bool
  unfolding retain_ids
  unregister_api e id =
      let kept = retain_ids id e.api_bindings in
      (record e { api_bindings = kept }, not (length kept == length e.api_bindings))

  unfoldable pub replace_api : LuamlEngine L H → ℕ → ApiBindingSpec H → LuamlEngine L H × Bool
  unfolding replace_spec
  replace_api e id spec =
      let (bindings, found) = replace_spec id spec e.api_bindings in
      (record e { api_bindings = bindings }, found)

  unfoldable pub register_local_api : LuamlEngine L H → ApiBindingSpec H → LuamlEngine L H × ℕ
  register_local_api e spec = (
    record e {
      local_api_bindings = e.local_api_bindings ++ record { id = e.next_api_id; spec = spec } ∷ [];
      next_api_id = (e.next_api_id + 1) % u64_mod;
    },
    e.next_api_id,
  )

  unfoldable pub unregister_local_api : LuamlEngine L H → ℕ → LuamlEngine L H × Bool
  unfolding retain_ids
  unregister_local_api e id =
      let kept = retain_ids id e.local_api_bindings in
      (record e { local_api_bindings = kept }, not (length kept == length e.local_api_bindings))

  unfoldable pub unregister : LuamlEngine L H → Text → LuamlEngine L H × Bool
  unfolding Registry.unregister
  unregister e path =
      let (r, removed) = Registry.unregister e.registry path in (record e { registry = r }, removed)

  unfoldable pub clear : LuamlEngine L H → LuamlEngine L H
  unfolding Registry.clear
  clear e = record e { registry = Registry.clear e.registry }

  unfoldable pub register :
      ⦃u : Unicode⦄
      → LuamlEngine L H
      → Text
      → Text
      → LuamlEngine L H × Outcome LuamlError (Unit {0})
  unfolding Registry.register_text
  register e source_path text =
      let (r, result) = Registry.register_text e.registry source_path text in
      (record e { registry = r }, result)

-- `stats`: the type under which a script is counted.
unfoldable pub type_of_fields : Fields → Text
type_of_fields no_fields = []
type_of_fields (field k (enum s) fs) =
    let rest = type_of_fields fs in if text_eq k (codes "type") then s else rest
type_of_fields (field k (string_literal s) fs) =
    let rest = type_of_fields fs in if text_eq k (codes "type") then s else rest
type_of_fields (field k p fs) = type_of_fields fs

unfoldable pub type_key : List Clause → Text
unfolding type_of_fields
type_key [] = []
type_key (c ∷ cs) = type_of_fields c.policy.fields

unfoldable pub count_type : List (Text × ℕ) → Text → List (Text × ℕ)
unfolding assoc_get assoc_insert
count_type m k = assoc_insert m k (elim (assoc_get m k) [ some n ↦ n + 1 | none ↦ 1 ])

unfoldable pub scripts_by_type_loop : List (Text × ℕ) → List Script → List (Text × ℕ)
unfolding count_type type_key
scripts_by_type_loop m [] = m
scripts_by_type_loop m (s ∷ ss) = scripts_by_type_loop (count_type m (type_key s.clauses)) ss

unfoldable pub scripts_by_type : ScriptRegistry → List (Text × ℕ)
unfolding scripts_by_type_loop
scripts_by_type r = scripts_by_type_loop [] r.scripts
