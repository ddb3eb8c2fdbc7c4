-- ===== src/Stdlib.antt =====
-- crates/luaml/src/stdlib: the pure routines behind the functions that scripts are given.
pub mod Url
pub mod Path
pub mod Vec
