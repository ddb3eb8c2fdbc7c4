-- ===== src/Service/Connection/Answers.antt =====
-- What a request is answered.
use luaml.Prelude.{
  ℕ, ◌≡◌, refl, ap, ◌∙◌, Text, codes, Bool, true, false, Option, none, some, ◌++◌, inl, inr,
  text_eq, text_eq_iff, ◌||◌, if◌then◌else◌, Bool-cases,
}
use luaml.Prelude.Outcome.{Outcome, ok, err, panic, out_of_fuel, EnoughFuel}
use luaml.Types.{Float, FieldMap}
use luaml.Pattern.{Fields}
use luaml.Pattern.Chars.{Unicode}
use luaml.Clause.{LuamlError}
use luaml.FileSystem.{IoResult}
use luaml.Clause.{Script}
use luaml.Frontmatter.File.{parse_luaml}
use luaml.Frontmatter.Fuel.{parse_luaml-EnoughFuel}
use luaml.Registry.{register_parsed, register_text}
use luaml.Prelude.Int.{ℤ}
use luaml.Engine.Api.{Vm}
use luaml.Engine.State.{register}
use luaml.Service.Protocol.{
  Request, RpcError, RegisterParams, RegisterApiParams, Json, method_not_found, respond_err,
  invalid_params, luaml_error,
}
use luaml.Service.Convert.{json_map_to_pattern, event_of}
use luaml.Service.Connection.{
  Session, Engine, Reply, registered, register_with, handle_register, register_pattern,
  register_api_with, handle_register_api, query_event, handle_query, query_subset_event,
  handle_query_subset, dispatch_event, handle_dispatch, process_request,
}

-- A response has one of a result and an error.
abbrev pub OneOf : {J : Type 0} → Option J → Option RpcError → Type 0
OneOf (some j) none = Unit
OneOf none (some e) = Unit
OneOf _ _ = ⊥

abbrev pub read_only : Text → Bool
read_only method = text_eq method (codes "query") || text_eq method (codes "query_subset")

-- A query, and whatever has an error, leaves the engine as it was.
abbrev pub Keeps : {Lu W : Type 0} → Bool → Engine Lu W → Engine Lu W → Option RpcError → Type 0
Keeps true e e' error = e' ≡ e
Keeps false e e' none = Unit
Keeps false e e' (some failure) = e' ≡ e

-- The response is to the request, and well-formed.
abbrev pub Answers : {Lu W J : Type 0} → Bool → Engine Lu W → ℕ → Reply Lu W J → Type 0
Answers b e id (e', ok r) =
    (r.id ≡ id) × (r.jsonrpc ≡ codes "2.0") × OneOf r.result r.error × Keeps b e e' r.error
Answers b e id (e', err failure) = ⊥
Answers b e id (e', panic) = Unit
Answers b e id (e', out_of_fuel) = ⊥

-- `register`, by what its text parses to.
abbrev with_parsed :
    {Lu W : Type 0}
    → Engine Lu W
    → Outcome LuamlError Script
    → Engine Lu W × Outcome LuamlError (Unit {0})
with_parsed e o =
    let (r, result) = register_parsed e.registry o in (record e { registry = r }, result)

module _ {Lu W J F : Type 0} ⦃fl : Float F⦄ ⦃u : Unicode⦄ (json : Json J F) where
  refused :
      (b : Bool) (e : Engine Lu W) (id : ℕ) (code : ℤ) (m : Text)
      → Answers {J = J} b e id (e, ok (respond_err id code m))
  refused true e id code m = (refl, refl, tt, refl)
  refused false e id code m = (refl, refl, tt, refl)

  query_event-Answers :
      (b : Bool) (e : Engine Lu W) (id : ℕ) (event : IoResult (FieldMap F))
      → Answers b e id (query_event json e id event)
  query_event-Answers b e id (inl m) = refused b e id invalid_params m
  query_event-Answers true e id (inr event) = (refl, refl, tt, refl)
  query_event-Answers false e id (inr event) = (refl, refl, tt, tt)

  query_subset_event-Answers :
      (b : Bool) (e : Engine Lu W) (id : ℕ) (event : IoResult (FieldMap F))
      → Answers b e id (query_subset_event json e id event)
  query_subset_event-Answers b e id (inl m) = refused b e id invalid_params m
  query_subset_event-Answers true e id (inr event) = (refl, refl, tt, refl)
  query_subset_event-Answers false e id (inr event) = (refl, refl, tt, tt)

  register_pattern-Answers :
      (e : Engine Lu W) (id : ℕ) (namespace : Text) (pattern : IoResult Fields)
      → Answers false e id (register_pattern json e id namespace pattern)
  register_pattern-Answers e id namespace (inl m) = refused false e id invalid_params m
  register_pattern-Answers e id namespace (inr pattern) = (refl, refl, tt, tt)

  register_api_with-Answers :
      (e : Engine Lu W) (id : ℕ) (params : IoResult (RegisterApiParams J))
      → Answers false e id (register_api_with json e id params)
  register_api_with-Answers e id (inl m) = refused false e id invalid_params m
  register_api_with-Answers e id (inr params) =
      register_pattern-Answers e id params.namespace (json_map_to_pattern json params.pattern)

  -- A text that does not parse leaves the engine as it was.
  registered-Answers :
      (e : Engine Lu W) (id : ℕ) (o : Outcome LuamlError Script)
      → EnoughFuel o
      → Answers false e id (registered json id (with_parsed e o))
  unfolding register_parsed
  registered-Answers e id (ok s) h = (refl, refl, tt, tt)
  registered-Answers e id (err failure) h = refused false e id luaml_error (json.display failure)
  registered-Answers e id panic h = tt
  registered-Answers e id out_of_fuel h = h

  register_with-Answers :
      (e : Engine Lu W) (id : ℕ) (params : IoResult RegisterParams)
      → Answers false e id (register_with json e id params)
  unfolding register register_text
  register_with-Answers e id (inl m) = refused false e id invalid_params m
  register_with-Answers e id (inr params) =
      registered-Answers e id (parse_luaml params.source_path params.text)
        (parse_luaml-EnoughFuel params.source_path params.text)

  module _ (vm : Vm (Session Lu W) (Unit {0}) F) where
    dispatch_event-Answers :
        (e : Engine Lu W) (id : ℕ) (event : IoResult (FieldMap F))
        → Answers false e id (dispatch_event json vm e id event)
    dispatch_event-Answers e id (inl m) = refused false e id invalid_params m
    dispatch_event-Answers e id (inr event) = (refl, refl, tt, tt)

-- The branch of a method that may change the engine, and that of a query.
changing_case :
    {Lu W J : Type 0} (e : Engine Lu W) (id : ℕ) (m name : Text) (x y : Reply Lu W J)
    → read_only name ≡ false
    → Answers false e id x
    → Answers (read_only m) e id y
    → Answers (read_only m) e id (if text_eq m name then x else y)
changing_case e id m name x y r a b = elim (Bool-cases (text_eq m name)) [
  | inl h ↦
      let same : read_only m ≡ false = ap read_only ((text_eq_iff m name).0 h) ∙ r in
      rw (h, if◌then◌else◌) (rw same a)
  | inr h ↦ rw (h, if◌then◌else◌) b
]

query_case :
    {Lu W J : Type 0} (e : Engine Lu W) (id : ℕ) (b t : Bool) (x y : Reply Lu W J)
    → Answers b e id x
    → Answers b e id y
    → Answers b e id (if t then x else y)
query_case e id b true x y h k = h
query_case e id b false x y h k = k

-- Every request that does not end the connection by a panic is answered by one response, with the
-- id of the request and either a result or an error; a query, and a request of any method that is
-- answered by an error, leaves the engine exactly as it was.
pub process_request-Answers :
    {Lu W J F : Type 0} ⦃fl : Float F⦄ ⦃u : Unicode⦄ (json : Json J F)
    (vm : Vm (Session Lu W) (Unit {0}) F) (e : Engine Lu W) (request : Request J)
    → Answers (read_only request.method) e request.id (process_request json vm e request)
unfolding process_request handle_register handle_register_api handle_dispatch handle_query
    handle_query_subset
process_request-Answers {Lu} {W} {J} json vm e request =
    let id = request.id in
    let m = request.method in
    let event = event_of json (json.dispatch_params request.params) in
    let unknown : Reply Lu W J =
      (e, ok (respond_err id method_not_found (codes "unknown method: " ++ m))) in
    let subset =
      if text_eq m (codes "query_subset") then handle_query_subset json e request else unknown in
    let query = if text_eq m (codes "query") then handle_query json e request else subset in
    let dispatching =
      if text_eq m (codes "dispatch") then handle_dispatch json vm e request else query in
    let binding =
      if text_eq m (codes "register_api")
      then handle_register_api json e request
      else dispatching in
    changing_case e id m (codes "register") (handle_register json e request) binding
      (unfold text_eq in refl)
      (register_with-Answers json e id (json.register_params request.params))
      (changing_case e id m (codes "register_api") (handle_register_api json e request) dispatching
        (unfold text_eq in refl)
        (register_api_with-Answers json e id (json.register_api_params request.params))
        (changing_case e id m (codes "dispatch") (handle_dispatch json vm e request) query
          (unfold text_eq in refl) (dispatch_event-Answers json vm e id event)
          (query_case e id (read_only m) (text_eq m (codes "query")) (handle_query json e request)
            subset (query_event-Answers json (read_only m) e id event)
            (query_case e id (read_only m) (text_eq m (codes "query_subset"))
              (handle_query_subset json e request) unknown
              (query_subset_event-Answers json (read_only m) e id event)
              (refused json (read_only m) e id method_not_found (codes "unknown method: " ++ m))))))
