-- ===== src/Service/Stream/Lines.antt =====
-- No request makes the lines to come more.
use luaml.Prelude.{
  ℕ, ◌≤◌, ◌≡◌, refl, Text, codes, List, [], ◌∷◌, ◌++◌, inl, inr, trim, length, arith,
}
use luaml.Prelude.Outcome.{Outcome, ok, err, panic, out_of_fuel}
use luaml.Types.{Float, FieldValue, FieldMap}
use luaml.Pattern.{Fields}
use luaml.Pattern.Chars.{Unicode}
use luaml.Clause.{LuamlError}
use luaml.FileSystem.{IoResult}
use luaml.Engine.Api.{Vm, ApiBindingSpec}
use luaml.Engine.State.{register, register_api}
use luaml.Engine.Cascade.{dispatch}
use luaml.Engine.Runs.{Runs, still, ran, dispatch-Runs}
use luaml.Service.Protocol.{
  Request, Response, RegisterParams, RegisterApiParams, Json, respond_err, method_not_found,
}
use luaml.Service.Remote.{Output, RemoteApiHandler, call}
use luaml.Service.Remote.Reading.{call-Within}
use luaml.Service.Convert.{json_map_to_pattern, event_of}
use luaml.Service.Connection.Routes.{process_request_cases}
use luaml.Service.Connection.{
  Session, Engine, Reply, registered, register_with, handle_register, register_pattern,
  register_api_with, handle_register_api, query_event, handle_query, query_subset_event,
  handle_query_subset, dispatch_event, handle_dispatch, process_request, process_parsed, answered,
  trimmed_line, handle_line,
}
use luaml.Service.Stream.{stream_of}

module _ {W J F : Type 0} (json : Json J F) (out : Output W J) where
  -- The handler after some calls, one after another.
  pub data Calls : RemoteApiHandler W → RemoteApiHandler W → Type 0 where
    idle : {h : RemoteApiHandler W} → Calls h h
    called :
        {h h' : RemoteApiHandler W} (namespace method : Text) (args : List (FieldValue F))
        → Calls h h'
        → Calls h (call json out h' namespace method args).0

  Calls-reader :
      (h h' : RemoteApiHandler W) → Calls h h' → length h'.stream.reader ≤ length h.stream.reader
  Calls-reader h h' idle = omega arith
  Calls-reader h h' (called {h' = g} namespace method args c) =
      call-Within json out (length h.stream.reader) g namespace method args (Calls-reader h g c)

  -- A body touches the stream only by calls of the handler.
  abbrev pub OnlyCalls : {Lu : Type 0} → Vm (Session Lu W) (Unit {0}) F → Type 0
  OnlyCalls {Lu} vm =
      (l : Session Lu W) (source : Text) (bindings : FieldMap F)
      (api local : List (ApiBindingSpec (Unit {0})))
      → Calls l.handler (vm.run l source bindings api local).1.handler

  module _ {Lu : Type 0} (vm : Vm (Session Lu W) (Unit {0}) F) (only : OnlyCalls vm) where
    abbrev pub lines_left : Engine Lu W → ℕ
    lines_left e = length (stream_of e).reader

    Runs-reader :
        (l l' : Session Lu W)
        → Runs vm l l'
        → length l'.handler.stream.reader ≤ length l.handler.stream.reader
    Runs-reader l l' still = omega arith
    Runs-reader l l' (ran {l' = g} source bindings api local r) =
        omega
          (arith, Runs-reader l g r, Calls-reader g.handler _ (only g source bindings api local))

    -- The engine of a reply has no more lines to read.
    abbrev Fewer : Engine Lu W → Reply Lu W J → Type 0
    Fewer e reply = lines_left reply.0 ≤ lines_left e

module _ {W J F Lu : Type 0} ⦃fl : Float F⦄ ⦃u : Unicode⦄ (json : Json J F) (out : Output W J)
    (vm : Vm (Session Lu W) (Unit {0}) F) (only : OnlyCalls json out vm) where
  registered-lua :
      (id : ℕ) (x : Engine Lu W × Outcome LuamlError (Unit {0})) → (registered json id x).0 ≡ x.0
  registered-lua id (e, ok t) = refl
  registered-lua id (e, err failure) = refl
  registered-lua id (e, panic) = refl
  registered-lua id (e, out_of_fuel) = refl

  register_with-Fewer :
      (e : Engine Lu W) (id : ℕ) (params : IoResult RegisterParams)
      → Fewer json out vm only e (register_with json e id params)
  unfolding register
  register_with-Fewer e id (inl m) = omega arith
  register_with-Fewer e id (inr params) =
      rw (registered-lua id (register e params.source_path params.text)) (omega arith)

  register_pattern-Fewer :
      (e : Engine Lu W) (id : ℕ) (namespace : Text) (pattern : IoResult Fields)
      → Fewer json out vm only e (register_pattern json e id namespace pattern)
  unfolding register_api
  register_pattern-Fewer e id namespace (inl m) = omega arith
  register_pattern-Fewer e id namespace (inr pattern) = omega arith

  register_api_with-Fewer :
      (e : Engine Lu W) (id : ℕ) (params : IoResult (RegisterApiParams J))
      → Fewer json out vm only e (register_api_with json e id params)
  register_api_with-Fewer e id (inl m) = omega arith
  register_api_with-Fewer e id (inr params) =
      register_pattern-Fewer e id params.namespace (json_map_to_pattern json params.pattern)

  query_event-Fewer :
      (e : Engine Lu W) (id : ℕ) (event : IoResult (FieldMap F))
      → Fewer json out vm only e (query_event json e id event)
  query_event-Fewer e id (inl m) = omega arith
  query_event-Fewer e id (inr event) = omega arith

  query_subset_event-Fewer :
      (e : Engine Lu W) (id : ℕ) (event : IoResult (FieldMap F))
      → Fewer json out vm only e (query_subset_event json e id event)
  query_subset_event-Fewer e id (inl m) = omega arith
  query_subset_event-Fewer e id (inr event) = omega arith

  dispatch_event-Fewer :
      (e : Engine Lu W) (id : ℕ) (event : IoResult (FieldMap F))
      → Fewer json out vm only e (dispatch_event json vm e id event)
  dispatch_event-Fewer e id (inl m) = omega arith
  dispatch_event-Fewer e id (inr event) =
      Runs-reader json out vm only e.lua (dispatch vm e event).0.lua (dispatch-Runs vm e event)

  Fewer-same : (e : Engine Lu W) (o : Outcome ⊥ (Response J)) → Fewer json out vm only e (e, o)
  Fewer-same e o = omega arith

  process_request-Fewer :
      (e : Engine Lu W) (request : Request J)
      → Fewer json out vm only e (process_request json vm e request)
  unfolding process_request handle_register handle_register_api handle_dispatch handle_query
      handle_query_subset
  process_request-Fewer e request =
      let id = request.id in
      let event = event_of json (json.dispatch_params request.params) in
      process_request_cases json vm (Fewer json out vm only e) e request
        (register_with-Fewer e id (json.register_params request.params))
        (register_api_with-Fewer e id (json.register_api_params request.params))
        (dispatch_event-Fewer e id event) (query_event-Fewer e id event)
        (query_subset_event-Fewer e id event)
        (Fewer-same e
          (ok (respond_err id method_not_found (codes "unknown method: " ++ request.method))))

  answered-engine : (x : Reply Lu W J) → (answered json vm x).0 ≡ x.0
  answered-engine (e, ok r) = refl
  answered-engine (e, err f) = refl
  answered-engine (e, panic) = refl
  answered-engine (e, out_of_fuel) = refl

  process_parsed-Fewer :
      (e : Engine Lu W) (parsed : IoResult (Request J))
      → Fewer json out vm only e (process_parsed json vm e parsed)
  process_parsed-Fewer e (inl m) = omega arith
  process_parsed-Fewer e (inr request) = process_request-Fewer e request

  trimmed_line-fewer :
      (e : Engine Lu W) (line : Text)
      → lines_left json out vm only (trimmed_line json vm e line).0 ≤ lines_left json out vm only e
  trimmed_line-fewer e [] = omega arith
  trimmed_line-fewer e (c ∷ line) =
      rw (answered-engine (process_parsed json vm e (json.request (c ∷ line))))
        (process_parsed-Fewer e (json.request (c ∷ line)))

  pub handle_line-fewer :
      (e : Engine Lu W) (line : Text)
      → lines_left json out vm only (handle_line json vm e line).0 ≤ lines_left json out vm only e
  unfolding handle_line
  handle_line-fewer e line = trimmed_line-fewer e (trim line)
