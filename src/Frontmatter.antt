-- ===== src/Frontmatter.antt =====
-- crates/luaml/src/parser.rs: from the text of a script file to its clauses.
pub mod Text
pub mod Block
pub mod Merge
pub mod Boundaries
pub mod File
pub mod Inherit
pub mod Ranges
pub mod Settles
pub mod Total
pub mod Fuel
