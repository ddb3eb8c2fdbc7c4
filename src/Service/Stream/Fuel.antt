-- ===== src/Service/Stream/Fuel.antt =====
-- The loop over the lines of a stream ends when the stream does.
use luaml.Prelude.Outcome.{Outcome}
use luaml.Service.Connection.{Engine}
