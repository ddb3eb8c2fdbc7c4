-- ===== src/Samples/Service.antt =====
-- The service on sample requests. A JSON value is a text, and a line decodes to a query with the
-- line as its parameters, or to a result.
use luaml.Prelude.{
  ◌⊎◌, none, ℕ, ◌+◌, ◌%◌, ◌≡◌, refl, Text, codes, some, List, [], ◌∷◌, ◌++◌, ◌↔◌, inl, inr,
}
use luaml.Types.{FieldValue, string, empty}
use luaml.Engine.Api.{Vm, emitted}
use luaml.Engine.State.{with_lua, u64_mod}
use luaml.Service.Protocol.{Request, Json, new_request, respond_ok}
use luaml.Service.Remote.{Output, StreamPair, RemoteApiHandler, new_handler, call}
use luaml.Service.Remote.Calls.{Called, call_iff}
use luaml.Matching.{match_field_value}
use luaml.Pattern.{Pattern}
use luaml.Service.Convert.{field_value_to_pattern}
use luaml.Service.Convert.Literals.{Literal, Same, field_value_to_pattern-match}
use luaml.Service.Connection.{Session, Engine, process_request}
use luaml.Service.Connection.Answers.{Answers, read_only, process_request-Answers}
use luaml.Samples.{ascii, nat_float}
use luaml.Samples.Files.{script_text}

abbrev json : Json Text ℕ
json = record {
  request = λ line. inr (new_request (codes "query") line 7);
  response = λ line. inr (respond_ok 1000000 line);
  register_params = λ j. inr (record { source_path = j; text = script_text });
  register_api_params = λ j. inr (record { namespace = j; pattern = [] });
  dispatch_params = λ j. inr (record { event = (codes "type", j) ∷ [] });
  field_value = λ j. inr (string j);
  api_call_params = λ params. inr params.method;
  dispatch_result = λ matches. inr (codes "matches");
  subset_query_result = λ matches. inr (codes "matches");
  ok_true = codes "ok";
  null = codes "null";
  display = λ e. codes "error";
}

-- Writing appends to a list of texts.
abbrev out : Output (List Text) Text
out = record {
  write_request = λ w r. (w ++ r.params ∷ [], inr tt);
  write_response = λ w r. (w ++ codes "response" ∷ [], inr tt);
  write_newline = λ w. (w ++ codes "\n" ∷ [], inr tt);
  flush = λ w. (w, inr tt);
}

abbrev lines : StreamPair (List Text)
lines = record { reader = inr (codes "first") ∷ inl (codes "broken") ∷ []; writer = [] }

abbrev handler : RemoteApiHandler (List Text)
handler = new_handler lines

call_iff_example :
    (((call json out handler (codes "tool") (codes "run") []).1 ≡ inr (string (codes "first")))
      ↔ Called json out handler
          (record { namespace = codes "tool"; method = codes "run"; args = [] })
          (string (codes "first")))
    × ((call json out handler (codes "tool") (codes "run") []).0.next_id
        ≡ (handler.next_id + 1) % u64_mod)
call_iff_example =
    call_iff json out handler (codes "tool") (codes "run") [] (string (codes "first"))

call_succeeds :
    (call json out handler (codes "tool") (codes "run") []).1 ≡ inr (string (codes "first"))
unfolding call
call_succeeds = refl

-- Every body makes one call.
abbrev calling_vm : Vm (Session (Unit {0}) (List Text)) (Unit {0}) ℕ
calling_vm = record {
  run = λ l source b api local.
      (emitted [], record l { handler = (call json out l.handler (codes "tool") source []).0 });
}

abbrev served : Engine (Unit {0}) (List Text)
served = with_lua (record { vm_state = tt; handler = handler })

abbrev request : Request Text
request = new_request (codes "query_subset") (codes "input") 3

process_request-Answers_example :
    Answers (read_only request.method) served 3 (process_request json calling_vm served request)
process_request-Answers_example = process_request-Answers json calling_vm served request

abbrev value_a : FieldValue ℕ
value_a = string (codes "a")

abbrev value_b : FieldValue ℕ
value_b = string (codes "b")

field_value_to_pattern-match_example :
    (Literal value_a
      × (p : Pattern) × (field_value_to_pattern value_a ≡ some p)
      × ((match_field_value p value_b ≡ some empty) ↔ Same value_a value_b))
    ⊎ ((¬ (Literal value_a)) × (field_value_to_pattern value_a ≡ none))
field_value_to_pattern-match_example = field_value_to_pattern-match value_a value_b
