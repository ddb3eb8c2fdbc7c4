-- ===== src/Engine.antt =====
-- crates/luaml/src/lib.rs: the engine, its API bindings and cascading dispatch.
pub mod Signature
pub mod Api
pub mod State
pub mod Cascade
pub mod Runs
pub mod Roots
pub mod Watch
pub mod Progress
pub mod Fuel
pub mod Siblings
pub mod Bindings
pub mod Order
