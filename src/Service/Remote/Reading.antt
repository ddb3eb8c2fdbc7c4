-- ===== src/Service/Remote/Reading.antt =====
-- An API call takes at most one line off the stream.
use luaml.Prelude.{ℕ, ◌≤◌, ◌+◌, ◌%◌, String, Text, codes, List, [], ◌∷◌, inl, inr, length, arith}
use luaml.Types.{FieldValue}
use luaml.FileSystem.{IoResult}
use luaml.Engine.State.{u64_mod}
use luaml.Service.Protocol.{Request, Json, new_request}
use luaml.Service.Remote.{
  Output, StreamPair, RemoteApiHandler, CallResult, next_line, read_line, then_or, on_writer,
  receive, exchange, send_call, call,
}

-- What a state keeps through every step, it keeps through the chain.
then_or-keeps :
    {S A B : Type 0} (P : S → Type 0) (failure : String) (x : S × IoResult A)
    (next : S → A → S × CallResult B)
    → P x.0
    → ((a : A) → P (next x.0 a).0)
    → P (then_or failure x next).0
then_or-keeps P failure (s, inl e) next h k = h
then_or-keeps P failure (s, inr a) next h k = k a

next_line-length :
    {W : Type 0} (stream : StreamPair W) (ls : List (IoResult Text)) (n : ℕ)
    → length stream.reader ≤ n
    → length ls ≤ n
    → length (next_line stream ls).0.reader ≤ n
next_line-length stream [] n h k = h
next_line-length stream (l ∷ ls) n h k = omega arith

module _ {W J F : Type 0} (json : Json J F) (out : Output W J) (n : ℕ) where
  -- At most `n` lines are to come.
  abbrev Within : StreamPair W → Type 0
  Within stream = length stream.reader ≤ n

  receive-Within :
      (id : ℕ) (stream : StreamPair W) (text : Text)
      → Within stream
      → Within (receive json out id stream text).0
  receive-Within id stream [] h = h
  receive-Within id stream (c ∷ line) h =
      then_or-keeps Within "invalid api_call response: " (stream, json.response (c ∷ line)) _ h
        (λ r. h)

  exchange-Within :
      (request : Request J) (stream : StreamPair W)
      → Within stream
      → Within (exchange json out request stream).0
  unfolding exchange read_line
  exchange-Within request stream h =
      let sent = on_writer json out stream λ w. out.write_request w request in
      let ended = on_writer json out sent.0 out.write_newline in
      let flushed = on_writer json out ended.0 out.flush in
      let line = read_line flushed.0 in
      let shorter = next_line-length flushed.0 stream.reader n h h in
      then_or-keeps Within "failed to write api_call: " sent _ h λ _.
        then_or-keeps Within "failed to write newline: " ended _ h λ _.
          then_or-keeps Within "failed to flush: " flushed _ h λ _.
            then_or-keeps Within "failed to read api_call response: " line _ shorter
              λ text. receive-Within request.id line.0 text shorter

  send_call-Within :
      (h : RemoteApiHandler W) (id : ℕ) (o : IoResult J)
      → Within h.stream
      → Within (send_call json out h id o).0.stream
  send_call-Within h id (inl e) k = k
  send_call-Within h id (inr j) k = exchange-Within (new_request (codes "api_call") j id) h.stream k

  pub call-Within :
      (h : RemoteApiHandler W) (namespace method : Text) (args : List (FieldValue F))
      → Within h.stream
      → Within (call json out h namespace method args).0.stream
  unfolding call
  call-Within h namespace method args k =
      send_call-Within (record h { next_id = (h.next_id + 1) % u64_mod }) h.next_id
        (json.api_call_params (record { namespace = namespace; method = method; args = args })) k
