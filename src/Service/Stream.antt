-- ===== src/Service/Stream.antt =====
-- crates/luaml-service/src/connection.rs: the loop over the lines of a stream.
pub mod Lines
pub mod Fuel
use luaml.Prelude.{ℕ, zero, suc, Text, Option, none, some, [], ◌∷◌, inl, inr}
use luaml.Prelude.Outcome.{Outcome, ok, err, panic, out_of_fuel}
use luaml.Types.{Float}
use luaml.Pattern.Chars.{Unicode}
use luaml.FileSystem.{IoResult}
use luaml.Engine.Api.{Vm}
use luaml.Engine.State.{with_lua}
use luaml.Service.Protocol.{Response, Json}
use luaml.Service.Remote.{Output, StreamPair, new_handler, read_line}
use luaml.Service.Connection.{Session, Engine, handle_line}

-- The stream of the connection, inside the engine.
module _ {Lu W : Type 0} where
  abbrev pub stream_of : Engine Lu W → StreamPair W
  stream_of e = e.lua.handler.stream

  abbrev pub with_stream : Engine Lu W → StreamPair W → Engine Lu W
  with_stream e stream = record e {
    lua = record e.lua { handler = record e.lua.handler { stream = stream } };
  }

-- An error of the newline or of the flush is ignored.
abbrev pub end_line : {W J : Type 0} → Output W J → W × IoResult (Unit {0}) → W
end_line out (w, inl failure) = w
end_line out (w, inr _) = (out.flush (out.write_newline w).0).0

module _ {Lu W J F : Type 0} ⦃fl : Float F⦄ ⦃u : Unicode⦄ (json : Json J F) (out : Output W J) where
  unfoldable pub write_response : Engine Lu W → Response J → Engine Lu W
  write_response e response =
      let stream = stream_of e in
      with_stream e
        (record stream { writer = end_line out (out.write_response stream.writer response) })

  abbrev pub written : Engine Lu W → Option (Response J) → Engine Lu W
  written e none = e
  written e (some response) = write_response e response

  module _ (vm : Vm (Session Lu W) (Unit {0}) F) where
    abbrev pub continue :
        Engine Lu W × Outcome ⊥ (Option (Response J))
        → (Engine Lu W → Engine Lu W × Outcome ⊥ (Unit {0}))
        → Engine Lu W × Outcome ⊥ (Unit {0})
    continue (e, ok response) next = next (written e response)
    continue (e, err failure) next = (e, err failure)
    continue (e, panic) next = (e, panic)
    continue (e, out_of_fuel) next = (e, out_of_fuel)

    -- The end of the input and an error of reading leave the loop.
    abbrev pub with_line :
        Engine Lu W
        → IoResult Text
        → (Engine Lu W → Engine Lu W × Outcome ⊥ (Unit {0}))
        → Engine Lu W × Outcome ⊥ (Unit {0})
    with_line e (inl failure) next = (e, ok tt)
    with_line e (inr []) next = (e, ok tt)
    with_line e (inr (c ∷ line)) next = continue (handle_line json vm e (c ∷ line)) next

    -- A unit of fuel for each line, and one for the end.
    unfoldable pub serve : ℕ → Engine Lu W → Engine Lu W × Outcome ⊥ (Unit {0})
    unfolding read_line handle_line write_response
    serve zero e = (e, out_of_fuel)
    serve (suc n) e =
        let (stream, line) = read_line (stream_of e) in
        with_line (with_stream e stream) line (serve n)

    unfoldable pub handle_stream : ℕ → Lu → StreamPair W → Engine Lu W × Outcome ⊥ (Unit {0})
    unfolding serve with_lua
    handle_stream fuel vm_state stream =
        serve fuel (with_lua (record { vm_state = vm_state; handler = new_handler stream }))
