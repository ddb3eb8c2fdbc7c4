-- ===== src/Service/Remote.antt =====
-- crates/luaml-service/src/remote_api.rs: API calls that are sent to the consumer over the stream.
pub mod Calls
pub mod Reading
use luaml.Prelude.{
  ℕ, ◌+◌, ◌%◌, String, Text, codes, Bool, Option, none, some, List, [], ◌∷◌, ◌++◌, ◌==◌, ◌⊎◌, inl,
  inr, if◌then◌else◌,
}
use luaml.Types.{FieldValue}
use luaml.FileSystem.{IoResult}
use luaml.Engine.State.{u64_mod}
use luaml.Service.Protocol.{Request, Response, RpcError, ApiCallParams, Json, new_request}

-- The writing half of a stream: `W` is its state, and each operation may fail.
pub record Output (W J : Type 0) : Type 0 where
  pub write_request : W → Request J → W × IoResult (Unit {0})
  pub write_response : W → Response J → W × IoResult (Unit {0})
  pub write_newline : W → W × IoResult (Unit {0})
  pub flush : W → W × IoResult (Unit {0})

-- `reader` has the results of reading the lines to come; at its end is the end of the input.
pub record StreamPair (W : Type 0) : Type 0 where
  pub reader : List (IoResult Text)
  pub writer : W

pub record RemoteApiHandler (W : Type 0) : Type 0 where
  pub stream : StreamPair W
  pub next_id : ℕ

abbrev pub new_handler : {W : Type 0} → StreamPair W → RemoteApiHandler W
new_handler stream = record { stream = stream; next_id = 1000000 }

-- `read_line`: an empty line is the end of the input.
abbrev pub next_line :
    {W : Type 0} → StreamPair W → List (IoResult Text) → StreamPair W × IoResult Text
next_line stream [] = (stream, inr [])
next_line stream (l ∷ ls) = (record stream { reader = ls }, l)

unfoldable pub read_line : {W : Type 0} → StreamPair W → StreamPair W × IoResult Text
read_line stream = next_line stream stream.reader

-- The message of an `ApiError`; that of a mismatch has the expected id and the one received.
pub data ApiError : Type 0 where
  message : Text → ApiError
  id_mismatch : ℕ → ℕ → ApiError

abbrev pub CallResult : Type 0 → Type 0
CallResult A = ApiError ⊎ A

-- `map_err` with a prefix, and `?`, on a stream that every step may change.
abbrev pub then_or :
    {S A B : Type 0} → String → S × IoResult A → (S → A → S × CallResult B) → S × CallResult B
then_or failure (s, inl e) next = (s, inl (message (codes failure ++ e)))
then_or failure (s, inr a) next = next s a

module _ {W J F : Type 0} (json : Json J F) (out : Output W J) where
  abbrev pub on_writer :
      {A : Type 0} → StreamPair W → (W → W × IoResult A) → StreamPair W × IoResult A
  on_writer stream f = let (w, r) = f stream.writer in (record stream { writer = w }, r)

  abbrev pub decode : IoResult (FieldValue F) → CallResult (FieldValue F)
  decode (inl e) = inl (message (codes "invalid api_call result: " ++ e))
  decode (inr v) = inr v

  abbrev pub value_of : Option J → CallResult (FieldValue F)
  value_of none = inr FieldValue.null
  value_of (some j) = decode (json.field_value j)

  abbrev pub result_of : Response J → Option RpcError → CallResult (FieldValue F)
  result_of response (some e) = inl (message e.message)
  result_of response none = value_of response.result

  -- What the answer to the call `id` means.
  unfoldable pub answer : ℕ → Response J → CallResult (FieldValue F)
  answer id response =
      if response.id == id
      then result_of response response.error
      else inl (id_mismatch id response.id)

  abbrev pub receive : ℕ → StreamPair W → Text → StreamPair W × CallResult (FieldValue F)
  receive id stream [] = (stream, inl (message (codes "connection closed during api_call")))
  receive id stream (c ∷ line) =
      then_or "invalid api_call response: " (stream, json.response (c ∷ line))
        λ s r. (s, answer id r)

  -- The request goes out, and the answer is awaited.
  unfoldable pub exchange : Request J → StreamPair W → StreamPair W × CallResult (FieldValue F)
  unfolding read_line answer
  exchange request stream =
      then_or "failed to write api_call: " (on_writer stream λ w. out.write_request w request)
        λ s₁ _. then_or "failed to write newline: " (on_writer s₁ out.write_newline) λ s₂ _.
          then_or "failed to flush: " (on_writer s₂ out.flush) λ s₃ _.
            then_or "failed to read api_call response: " (read_line s₃)
              λ s₄ line. receive request.id s₄ line

  abbrev pub send_call :
      RemoteApiHandler W → ℕ → IoResult J → RemoteApiHandler W × CallResult (FieldValue F)
  send_call h id (inl e) = (h, inl (message e))
  send_call h id (inr params) =
      let (stream, result) = exchange (new_request (codes "api_call") params id) h.stream in
      (record h { stream = stream }, result)

  -- The counter of calls is 64 bits wide.
  unfoldable pub call :
      RemoteApiHandler W
      → Text
      → Text
      → List (FieldValue F)
      → RemoteApiHandler W × CallResult (FieldValue F)
  unfolding exchange
  call h namespace method args =
      send_call (record h { next_id = (h.next_id + 1) % u64_mod }) h.next_id
        (json.api_call_params (record { namespace = namespace; method = method; args = args }))
