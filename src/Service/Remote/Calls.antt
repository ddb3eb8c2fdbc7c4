-- ===== src/Service/Remote/Calls.antt =====
-- When an API call over the stream succeeds.
use luaml.Prelude.{
  ℕ, ◌+◌, ◌%◌, ◌≡◌, refl, ap, sym, ◌∙◌, subst, String, Text, codes, Option, none, some, List, [],
  ◌∷◌, ◌==◌, ==_iff, ◌⊎◌, ◌↔◌, inl, inr, Bool-cases, if◌then◌else◌,
}
use luaml.Types.{FieldValue}
use luaml.FileSystem.{IoResult}
use luaml.Engine.State.{u64_mod}
use luaml.Service.Protocol.{Request, Response, RpcError, ApiCallParams, Json, new_request}
use luaml.Service.Remote.{
  Output, StreamPair, RemoteApiHandler, CallResult, next_line, read_line, then_or, on_writer,
  decode, value_of, result_of, answer, receive, exchange, send_call, call,
}

then_or_iff :
    {S A B : Type 0} (failure : String) (x : S × IoResult A) (next : S → A → S × CallResult B)
    (b : B)
    → ((then_or failure x next).1 ≡ inr b) ↔ ((a : A) × (x.1 ≡ inr a) × ((next x.0 a).1 ≡ inr b))
then_or_iff failure (s, inl e) next b = (λ h. cc, λ (a, e, k). cc)
then_or_iff failure (s, inr a) next b =
    (λ h. (a, refl, h), λ (a', e, k). subst (λ z. (next s z).1 ≡ inr b) (sym (ap (inr_or a) e)) k)
  where
    inr_or : {A : Type 0} → A → IoResult A → A
    inr_or other (inl e) = other
    inr_or other (inr a) = a

-- A line that is read is the first of those to come.
next_line_iff :
    {W : Type 0} (stream : StreamPair W) (ls : List (IoResult Text)) (c : ℕ) (line : Text)
    → (next_line stream ls).1 ≡ inr (c ∷ line)
    → (rest : List (IoResult Text)) × (ls ≡ inr (c ∷ line) ∷ rest)
next_line_iff stream [] c line h = cc
next_line_iff stream (l ∷ ls) c line h = (ls, ap (λ x. x ∷ ls) h)

module _ {W J F : Type 0} (json : Json J F) (out : Output W J) where
  -- The response answers the call `id` with a value: no error, and the value, or null for none.
  abbrev pub Gives : ℕ → Response J → FieldValue F → Type 0
  Gives id r v =
      (r.id ≡ id)
      × (r.error ≡ none)
      × (((r.result ≡ none) × (v ≡ FieldValue.null))
          ⊎ ((j : J) × (r.result ≡ some j) × (json.field_value j ≡ inr v)))

  -- The request goes out, and a line comes in that holds such a response.
  abbrev pub Exchanged : Request J → StreamPair W → FieldValue F → Type 0
  Exchanged request stream v =
      let sent = out.write_request stream.writer request in
      let ended = out.write_newline sent.0 in
      (sent.1 ≡ inr tt)
      × (ended.1 ≡ inr tt)
      × ((out.flush ended.0).1 ≡ inr tt)
      × ((c : ℕ) × (line : Text) × (rest : List (IoResult Text)) × (r : Response J) × (stream.reader
            ≡ inr (c ∷ line) ∷ rest)
          × (json.response (c ∷ line) ≡ inr r)
          × Gives request.id r v)

  decode_iff :
      (r : IoResult (FieldValue F)) (v : FieldValue F) → (decode json out r ≡ inr v) ↔ (r ≡ inr v)
  decode_iff (inl e) v = (λ h. cc, λ h. cc)
  decode_iff (inr w) v = (λ h. cc, λ h. cc)

  value_of_iff :
      (o : Option J) (v : FieldValue F)
      → (value_of json out o ≡ inr v) ↔ (
          ((o ≡ none) × (v ≡ FieldValue.null))
          ⊎ ((j : J) × (o ≡ some j) × (json.field_value j ≡ inr v)))
  value_of_iff none v = (
    λ h. inl (refl, sym (ap (value_or v) h)),
    λ s. elim s [ inl p ↦ ap inr (sym p.1) | inr q ↦ cc q.1 ],
  )
    where
      value_or : FieldValue F → CallResult (FieldValue F) → FieldValue F
      value_or other (inl e) = other
      value_or other (inr w) = w
  value_of_iff (some j) v = (
    λ h. inr (j, refl, (decode_iff (json.field_value j) v).0 h),
    λ s. elim s [
      | inl p ↦ cc p.0
      | inr q ↦
          (decode_iff (json.field_value j) v).1
            (subst (λ k. json.field_value k ≡ inr v) (sym (ap (some_or j) q.1)) q.2)
    ],
  )
    where
      some_or : J → Option J → J
      some_or other none = other
      some_or other (some k) = k

  result_of_iff :
      (r : Response J) (o : Option RpcError) (v : FieldValue F)
      → (result_of json out r o ≡ inr v) ↔ ((o ≡ none) × (value_of json out r.result ≡ inr v))
  result_of_iff r none v = (λ h. (refl, h), λ p. p.1)
  result_of_iff r (some e) v = (λ h. cc, λ p. cc p.0)

  answer_iff :
      (id : ℕ) (r : Response J) (v : FieldValue F) → (answer json out id r ≡ inr v) ↔ Gives id r v
  unfolding answer
  answer_iff id r v =
      let (forth, back) = result_of_iff r r.error v in
      let (forth', back') = value_of_iff r.result v in
      (
        λ h. elim (Bool-cases (r.id == id)) [
          | inl e ↦
              let (x, y) = forth (rw (e, if◌then◌else◌) at h) in ((==_iff r.id id).0 e, x, forth' y)
          | inr e ↦ cc (rw (e, if◌then◌else◌) at h)
        ],
        λ (e, x, y). rw ((==_iff r.id id).1 e, if◌then◌else◌) (back (x, back' y)),
      )

  receive_iff :
      (id : ℕ) (stream : StreamPair W) (text : Text) (v : FieldValue F)
      → ((receive json out id stream text).1 ≡ inr v) ↔ (
          (c : ℕ) × (line : Text) × (r : Response J) × (text ≡ c ∷ line)
          × (json.response (c ∷ line) ≡ inr r)
          × Gives id r v)
  receive_iff id stream [] v = (λ h. cc, λ (c, line, r, e, p, g). cc e)
  receive_iff id stream (c ∷ line) v =
      let (forth, back) =
        then_or_iff "invalid api_call response: " (stream, json.response (c ∷ line))
          (λ s r. (s, answer json out id r)) v in
      (
        λ h. let (r, e, k) = forth h in (c, line, r, refl, e, (answer_iff id r v).0 k),
        λ (c', line', r, e, p, g).
            back (r, subst (λ t. json.response t ≡ inr r) (sym e) p, (answer_iff id r v).1 g),
      )

  exchange_iff :
      (request : Request J) (stream : StreamPair W) (v : FieldValue F)
      → ((exchange json out request stream).1 ≡ inr v) ↔ Exchanged request stream v
  unfolding exchange
  exchange_iff request stream v =
      let sent = on_writer json out stream λ w. out.write_request w request in
      let ended = on_writer json out sent.0 out.write_newline in
      let flushed = on_writer json out ended.0 out.flush in
      (
        λ h.
            let (_, a, h₁) = (then_or_iff "failed to write api_call: " sent _ v).0 h in
            let (_, b, h₂) = (then_or_iff "failed to write newline: " ended _ v).0 h₁ in
            let (_, c, h₃) = (then_or_iff "failed to flush: " flushed _ v).0 h₂ in
            let (text, e, h₄) =
              (then_or_iff "failed to read api_call response: " (read_line flushed.0) _ v).0 h₃ in
            let (ch, line, r, t, p, g) =
              (receive_iff request.id (read_line flushed.0).0 text v).0 h₄ in
            let (rest, q) = next_line_iff flushed.0 stream.reader ch line (e ∙ ap inr t) in
            (a, b, c, (ch, line, rest, r, q, p, g)),
        λ (a, b, c, (ch, line, rest, r, q, p, g)).
            (then_or_iff "failed to write api_call: " sent _ v).1 (
              tt,
              a,
              (then_or_iff "failed to write newline: " ended _ v).1 (
                tt,
                b,
                (then_or_iff "failed to flush: " flushed _ v).1 (
                  tt,
                  c,
                  (then_or_iff "failed to read api_call response: " (read_line flushed.0) _ v).1 (
                    ch ∷ line,
                    (unfold read_line in ap (λ ls. (next_line flushed.0 ls).1) q),
                    (receive_iff request.id (read_line flushed.0).0 (ch ∷ line) v).1
                        (ch, line, r, refl, p, g),
                  ),
                ),
              ),
            ),
      )

  -- What a call needs to give the value.
  abbrev pub Called : RemoteApiHandler W → ApiCallParams F → FieldValue F → Type 0
  Called h params v =
      (j : J) × (json.api_call_params params ≡ inr j)
      × Exchanged (new_request (codes "api_call") j h.next_id) h.stream v

  send_call_iff :
      (h : RemoteApiHandler W) (id : ℕ) (o : IoResult J) (v : FieldValue F)
      → ((send_call json out h id o).1 ≡ inr v)
        ↔ ((j : J) × (o ≡ inr j) × Exchanged (new_request (codes "api_call") j id) h.stream v)
  send_call_iff h id (inl e) v = (λ k. cc, λ (j, k, x). cc k)
  send_call_iff h id (inr j) v =
      let (forth, back) = exchange_iff (new_request (codes "api_call") j id) h.stream v in
      (
        λ k. (j, refl, forth k),
        λ (j', k, x).
            subst (λ i. (send_call json out h id (inr i)).1 ≡ inr v) (sym (ap (json_or j) k))
              ((exchange_iff (new_request (codes "api_call") j' id) h.stream v).1 x),
      )
    where
      json_or : J → IoResult J → J
      json_or other (inl e) = other
      json_or other (inr k) = k

  send_call-next_id :
      (h : RemoteApiHandler W) (id : ℕ) (o : IoResult J)
      → (send_call json out h id o).0.next_id ≡ h.next_id
  send_call-next_id h id (inl e) = refl
  send_call-next_id h id (inr j) = refl

-- An API call gives a value exactly when its arguments have a JSON value, the request, with the
-- next id of the handler, the newline and the flush are written without an error, and the next line
-- of the stream, which is not the end of the input, is a response with that id and no error: the
-- value is then that of its result, or null when it has none. Every call takes the next id, which
-- wraps at 2^64.
pub call_iff :
    {W J F : Type 0} (json : Json J F) (out : Output W J) (h : RemoteApiHandler W)
    (namespace method : Text) (args : List (FieldValue F)) (v : FieldValue F)
    → (((call json out h namespace method args).1 ≡ inr v)
        ↔ Called json out h (record { namespace = namespace; method = method; args = args }) v)
      × ((call json out h namespace method args).0.next_id ≡ (h.next_id + 1) % u64_mod)
unfolding call
call_iff json out h namespace method args v =
    let params : ApiCallParams _ = record { namespace = namespace; method = method; args = args } in
    let h' = record h { next_id = (h.next_id + 1) % u64_mod } in
    (
      send_call_iff json out h' h.next_id (json.api_call_params params) v,
      send_call-next_id json out h' h.next_id (json.api_call_params params),
    )
