-- ===== src/Service/Protocol.antt =====
-- crates/luaml-service/src/protocol.rs: the messages. JSON values are those of serde_json: `J` is
-- their type, and `Json` has the conversions that the program asks for, an error being its text.
use luaml.Prelude.{ℕ, Text, codes, Option, none, some, List}
use luaml.Prelude.Int.{ℤ, negsuc}
use luaml.Types.{FieldValue, FieldMap}
use luaml.Clause.{Annotations, FieldAnnotations, LuamlError}
use luaml.FileSystem.{IoResult}

pub record Request (J : Type 0) : Type 0 where
  pub jsonrpc : Text
  pub method : Text
  pub params : J
  pub id : ℕ

pub record RpcError : Type 0 where
  pub code : ℤ
  pub message : Text

pub record Response (J : Type 0) : Type 0 where
  pub jsonrpc : Text
  pub result : Option J
  pub error : Option RpcError
  pub id : ℕ

-- -32700, -32601, -32602 and -32000.
abbrev pub parse_error_code : ℤ
parse_error_code = negsuc 32699

abbrev pub method_not_found : ℤ
method_not_found = negsuc 32600

abbrev pub invalid_params : ℤ
invalid_params = negsuc 32601

abbrev pub luaml_error : ℤ
luaml_error = negsuc 31999

abbrev pub new_request : {J : Type 0} → Text → J → ℕ → Request J
new_request method params id = record {
  jsonrpc = codes "2.0";
  method = method;
  params = params;
  id = id;
}

abbrev pub respond_ok : {J : Type 0} → ℕ → J → Response J
respond_ok id result = record { jsonrpc = codes "2.0"; result = some result; error = none; id = id }

abbrev pub respond_err : {J : Type 0} → ℕ → ℤ → Text → Response J
respond_err id code message = record {
  jsonrpc = codes "2.0";
  result = none;
  error = some (record { code = code; message = message });
  id = id;
}

pub record RegisterParams : Type 0 where
  pub source_path : Text
  pub text : Text

-- A JSON object is the list of its entries in the order of its iteration.
pub record RegisterApiParams (J : Type 0) : Type 0 where
  pub namespace : Text
  pub pattern : List (Text × J)

pub record DispatchParams (J : Type 0) : Type 0 where
  pub event : List (Text × J)

pub record ApiCallParams (F : Type 0) : Type 0 where
  pub namespace : Text
  pub method : Text
  pub args : List (FieldValue F)

pub record DispatchMatch (F : Type 0) : Type 0 where
  pub script_path : Text
  pub bindings : FieldMap F

pub record SubsetQueryMatch : Type 0 where
  pub script_path : Text
  pub clause_index : ℕ
  pub annotations : Annotations
  pub field_annotations : FieldAnnotations

-- `from_str` and `from_value` for what is read, `to_value` for what is written, and the text of an
-- error of the engine, which a derived `Display` prints.
pub record Json (J F : Type 0) : Type 0 where
  pub request : Text → IoResult (Request J)
  pub response : Text → IoResult (Response J)
  pub register_params : J → IoResult RegisterParams
  pub register_api_params : J → IoResult (RegisterApiParams J)
  pub dispatch_params : J → IoResult (DispatchParams J)
  pub field_value : J → IoResult (FieldValue F)
  pub api_call_params : ApiCallParams F → IoResult J
  pub dispatch_result : List (DispatchMatch F) → IoResult J
  pub subset_query_result : List SubsetQueryMatch → IoResult J
  pub ok_true : J
  pub null : J
  pub display : LuamlError → Text
