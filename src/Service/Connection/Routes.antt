-- ===== src/Service/Connection/Routes.antt =====
-- Every request goes to one of the handlers, or is of an unknown method.
use luaml.Prelude.{codes, Bool, true, false, ◌++◌, text_eq, if◌then◌else◌}
use luaml.Prelude.Outcome.{ok}
use luaml.Types.{Float}
use luaml.Pattern.Chars.{Unicode}
use luaml.Engine.Api.{Vm}
use luaml.Service.Protocol.{Request, Json, respond_err, method_not_found}
use luaml.Service.Connection.{
  Session, Engine, Reply, handle_register, handle_register_api, handle_dispatch, handle_query,
  handle_query_subset, process_request,
}

if_case : {A : Type 0} (P : A → Type 0) (b : Bool) (x y : A) → P x → P y → P (if b then x else y)
if_case P true x y h k = h
if_case P false x y h k = k

pub process_request_cases :
    {Lu W J F : Type 0} ⦃fl : Float F⦄ ⦃u : Unicode⦄ (json : Json J F)
    (vm : Vm (Session Lu W) (Unit {0}) F) (P : Reply Lu W J → Type 0) (e : Engine Lu W)
    (request : Request J)
    → P (handle_register json e request)
    → P (handle_register_api json e request)
    → P (handle_dispatch json vm e request)
    → P (handle_query json e request)
    → P (handle_query_subset json e request)
    → P (
      e,
      ok (respond_err request.id method_not_found (codes "unknown method: " ++ request.method)),
    )
    → P (process_request json vm e request)
unfolding process_request
process_request_cases {Lu} {W} {J} json vm P e request a b c d f g =
    let m = request.method in
    let unknown : Reply Lu W J =
      (e, ok (respond_err request.id method_not_found (codes "unknown method: " ++ m))) in
    let subset =
      if text_eq m (codes "query_subset") then handle_query_subset json e request else unknown in
    let query = if text_eq m (codes "query") then handle_query json e request else subset in
    let dispatching =
      if text_eq m (codes "dispatch") then handle_dispatch json vm e request else query in
    let binding =
      if text_eq m (codes "register_api")
      then handle_register_api json e request
      else dispatching in
    if_case P (text_eq m (codes "register")) (handle_register json e request) binding a (
      if_case P (text_eq m (codes "register_api")) (handle_register_api json e request) dispatching
        b
        (if_case P (text_eq m (codes "dispatch")) (handle_dispatch json vm e request) query c (
          if_case P (text_eq m (codes "query")) (handle_query json e request) subset d (
            if_case P (text_eq m (codes "query_subset")) (handle_query_subset json e request)
              unknown f g))))
