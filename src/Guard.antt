-- ===== src/Guard.antt =====
-- crates/luaml/src/guard.rs: guard expressions, from text to a Boolean.
pub mod Token
pub mod Syntax
pub mod Parser
pub mod Eval
pub mod Lexing
pub mod Total
