-- ===== src/Service.antt =====
-- crates/luaml-service/src: the engine behind JSON-RPC on a stream.
pub mod Protocol
pub mod Remote
pub mod Convert
pub mod Connection
pub mod Stream
pub mod Server
