-- ===== src/Samples/Bindings.antt =====
-- The theorems on API bindings at sample bindings.
use luaml.Prelude.{
  ℕ, ◌+◌, ◌%◌, ◌≡◌, codes, true, List, [], ◌∷◌, arith, ◌==◌, ◌&&◌, is_some, some, none,
  if◌then◌else◌,
}
use luaml.Pattern.{no_fields}
use luaml.Engine.Api.{ApiBindingSpec}
use luaml.Engine.State.{LuamlEngine, u64_mod, with_lua, register_api, unregister_api, replace_api}
use luaml.Engine.Bindings.{
  HasOwnIds, ApiOp, register_op, unregister_op, replace_op, register_local_op, run_ops, find_spec,
  run_ops-HasOwnIds, bindings-map, unregister_api-register_api,
}

abbrev fs : ApiBindingSpec ℕ
fs = record { namespace = codes "fs"; pattern = no_fields; handler = 1 }

abbrev net : ApiBindingSpec ℕ
net = record { namespace = codes "net"; pattern = no_fields; handler = 2 }

abbrev start : LuamlEngine (Unit {0}) ℕ
start = record (with_lua tt) {
  api_bindings = record { id = 2; spec = fs } ∷ record { id = 5; spec = net } ∷ [];
  next_api_id = 6;
}

abbrev start-HasOwnIds : HasOwnIds start
unfolding with_lua
start-HasOwnIds = ((omega arith, omega arith, (omega arith, omega arith, tt)), tt)

abbrev ops : List (ApiOp ℕ)
ops = register_op fs ∷ register_local_op net ∷ unregister_op 2 ∷ replace_op 5 fs ∷ []

run_ops-HasOwnIds_example : HasOwnIds (run_ops ops start)
run_ops-HasOwnIds_example = run_ops-HasOwnIds ops start (omega arith) start-HasOwnIds

bindings-map_example :
    (find_spec 5 (register_api start net).0.api_bindings
      ≡ (if (register_api start net).1 == 5 then some net else find_spec 5 start.api_bindings))
    × (find_spec 5 (replace_api start 2 net).0.api_bindings ≡ (
        if (2 == 5) && is_some (find_spec 2 start.api_bindings)
        then some net
        else find_spec 5 start.api_bindings))
    × ((replace_api start 2 net).1 ≡ is_some (find_spec 2 start.api_bindings))
    × (find_spec 5 (unregister_api start 2).0.api_bindings
        ≡ (if 2 == 5 then none else find_spec 5 start.api_bindings))
    × ((unregister_api start 2).1 ≡ is_some (find_spec 2 start.api_bindings))
bindings-map_example = bindings-map start net 2 5 start-HasOwnIds

unregister_api-register_api_example :
    unregister_api (register_api start net).0 (register_api start net).1
    ≡ (record start { next_api_id = (start.next_api_id + 1) % u64_mod }, true)
unregister_api-register_api_example = unregister_api-register_api start net start-HasOwnIds
