-- ===== src/Service/Connection.antt =====
-- crates/luaml-service/src/connection.rs: the requests of a client, each on the engine of its
-- connection. The handler of the stream is part of what a body's run may change: it is kept with
-- the state of the Lua VM. `register_api` binds that one handler, which `tt` stands for.
pub mod Answers
pub mod Routes
use luaml.Prelude.{
  ℕ, zero, suc, Text, codes, Bool, Option, none, some, List, [], ◌∷◌, ◌++◌, ◌⊎◌, inl, inr, text_eq,
  trim, if◌then◌else◌,
}
use luaml.Prelude.Outcome.{Outcome, ok, err, panic, out_of_fuel}
use luaml.Types.{Float, FieldValue, FieldMap, empty, insert, enum, string, number, bool}
use luaml.Pattern.{Pattern, Fields, no_fields, field}
use luaml.Pattern.Chars.{Unicode}
use luaml.Clause.{LuamlError}
use luaml.FileSystem.{IoResult}
use luaml.Registry.{ClauseMatch, QueryResult, match_clauses, query_subset}
use luaml.Engine.Api.{Vm}
use luaml.Engine.State.{LuamlEngine, with_lua, register, register_api}
use luaml.Engine.Cascade.{ClauseOutcome, dispatch}
use luaml.Service.Protocol.{
  Request, Response, RegisterParams, RegisterApiParams, DispatchParams, DispatchMatch,
  SubsetQueryMatch, Json, respond_ok, respond_err, parse_error_code, method_not_found,
  invalid_params, luaml_error,
}
use luaml.Service.Convert.{
  json_map_to_pattern, json_map_to_field_map, outcome_matches, clause_matches, subset_query_matches,
  value_or_null, event_of,
}
use luaml.Service.Remote.{RemoteApiHandler}

pub record Session (Lu W : Type 0) : Type 0 where
  pub vm_state : Lu
  pub handler : RemoteApiHandler W

abbrev pub Engine : Type 0 → Type 0 → Type 0
Engine Lu W = LuamlEngine (Session Lu W) (Unit {0})

-- The engine after a request, and the answer; or the panic that ends the connection.
abbrev pub Reply : Type 0 → Type 0 → Type 0 → Type 0
Reply Lu W J = Engine Lu W × Outcome ⊥ (Response J)

module _ {Lu W J F : Type 0} ⦃fl : Float F⦄ ⦃u : Unicode⦄ (json : Json J F) where
  abbrev pub registered : ℕ → Engine Lu W × Outcome LuamlError (Unit {0}) → Reply Lu W J
  registered id (e, ok _) = (e, ok (respond_ok id json.ok_true))
  registered id (e, err failure) = (e, ok (respond_err id luaml_error (json.display failure)))
  registered id (e, panic) = (e, panic)
  registered id (e, out_of_fuel) = (e, out_of_fuel)

  abbrev pub register_with : Engine Lu W → ℕ → IoResult RegisterParams → Reply Lu W J
  register_with e id (inl failure) = (e, ok (respond_err id invalid_params failure))
  register_with e id (inr params) = registered id (register e params.source_path params.text)

  unfoldable pub handle_register : Engine Lu W → Request J → Reply Lu W J
  unfolding register
  handle_register e request = register_with e request.id (json.register_params request.params)

  abbrev pub register_pattern : Engine Lu W → ℕ → Text → IoResult Fields → Reply Lu W J
  register_pattern e id namespace (inl failure) = (e, ok (respond_err id invalid_params failure))
  register_pattern e id namespace (inr pattern) =
      let (e', binding) =
        register_api e (record { namespace = namespace; pattern = pattern; handler = tt }) in
      (e', ok (respond_ok id json.ok_true))

  abbrev pub register_api_with : Engine Lu W → ℕ → IoResult (RegisterApiParams J) → Reply Lu W J
  register_api_with e id (inl failure) = (e, ok (respond_err id invalid_params failure))
  register_api_with e id (inr params) =
      register_pattern e id params.namespace (json_map_to_pattern json params.pattern)

  unfoldable pub handle_register_api : Engine Lu W → Request J → Reply Lu W J
  unfolding register_api json_map_to_pattern
  handle_register_api e request =
      register_api_with e request.id (json.register_api_params request.params)

  abbrev pub query_event : Engine Lu W → ℕ → IoResult (FieldMap F) → Reply Lu W J
  query_event e id (inl failure) = (e, ok (respond_err id invalid_params failure))
  query_event e id (inr event) =
      let matches = clause_matches (match_clauses e.registry event) in
      (e, ok (respond_ok id (value_or_null json (json.dispatch_result matches))))

  unfoldable pub handle_query : Engine Lu W → Request J → Reply Lu W J
  unfolding match_clauses json_map_to_field_map
  handle_query e request =
      query_event e request.id (event_of json (json.dispatch_params request.params))

  abbrev pub query_subset_event : Engine Lu W → ℕ → IoResult (FieldMap F) → Reply Lu W J
  query_subset_event e id (inl failure) = (e, ok (respond_err id invalid_params failure))
  query_subset_event e id (inr event) =
      let matches = subset_query_matches (query_subset e.registry event) in
      (e, ok (respond_ok id (value_or_null json (json.subset_query_result matches))))

  unfoldable pub handle_query_subset : Engine Lu W → Request J → Reply Lu W J
  unfolding query_subset json_map_to_field_map
  handle_query_subset e request =
      query_subset_event e request.id (event_of json (json.dispatch_params request.params))

  module _ (vm : Vm (Session Lu W) (Unit {0}) F) where
    abbrev pub dispatch_event : Engine Lu W → ℕ → IoResult (FieldMap F) → Reply Lu W J
    dispatch_event e id (inl failure) = (e, ok (respond_err id invalid_params failure))
    dispatch_event e id (inr event) =
        let (e', outcomes) = dispatch vm e event in
        (
          e',
          ok (respond_ok id (value_or_null json (json.dispatch_result (outcome_matches outcomes)))),
        )

    -- The engine has no roots, and watches none.
    unfoldable pub handle_dispatch : Engine Lu W → Request J → Reply Lu W J
    unfolding dispatch json_map_to_field_map
    handle_dispatch e request =
        dispatch_event e request.id (event_of json (json.dispatch_params request.params))

    unfoldable pub process_request : Engine Lu W → Request J → Reply Lu W J
    unfolding handle_register handle_register_api handle_dispatch handle_query handle_query_subset
    process_request e request =
        if text_eq request.method (codes "register")
        then handle_register e request
        else if text_eq request.method (codes "register_api")
        then handle_register_api e request
        else if text_eq request.method (codes "dispatch")
        then handle_dispatch e request
        else if text_eq request.method (codes "query")
        then handle_query e request
        else if text_eq request.method (codes "query_subset")
        then handle_query_subset e request
        else (
          e,
          ok (respond_err request.id method_not_found (codes "unknown method: " ++ request.method)),
        )

    abbrev pub process_parsed : Engine Lu W → IoResult (Request J) → Reply Lu W J
    process_parsed e (inl failure) =
        (e, ok (respond_err 0 parse_error_code (codes "invalid JSON: " ++ failure)))
    process_parsed e (inr request) = process_request e request

    abbrev pub answered : Reply Lu W J → Engine Lu W × Outcome ⊥ (Option (Response J))
    answered (e, ok response) = (e, ok (some response))
    answered (e, err failure) = (e, err failure)
    answered (e, panic) = (e, panic)
    answered (e, out_of_fuel) = (e, out_of_fuel)

    abbrev pub trimmed_line : Engine Lu W → Text → Engine Lu W × Outcome ⊥ (Option (Response J))
    trimmed_line e [] = (e, ok none)
    trimmed_line e (c ∷ line) = answered (process_parsed e (json.request (c ∷ line)))

    -- A round of the loop: a blank line has no answer.
    unfoldable pub handle_line : Engine Lu W → Text → Engine Lu W × Outcome ⊥ (Option (Response J))
    unfolding process_request trim
    handle_line e line = trimmed_line e (trim line)
