-- ===== src/Lib.antt =====
-- luaml dispatches events to scripts. A script is a file of clauses; a clause has an execution
-- policy (patterns on the fields of an event), an optional guard, and a Lua body. An engine keeps
-- the registered scripts and the API bindings, and dispatching an event runs, in each script, the
-- first clause whose policy matches and whose guard holds. A body may emit events, which are
-- dispatched in their turn, within a depth, a budget, and with a test for cycles.
--
-- The files, and the code that each models (under crates/luaml/src):
--   Prelude       shared names, tests on numbers, texts as lists of code points, 64-bit integers'
--                 type, and `Outcome`, the result of code that may fail or panic
--   Types         types.rs: values, and maps as lists of entries
--   Pattern       pattern.rs: patterns; Pattern/Chars, Split, Number and Parse are its parser, Lengths,
--                 Total and Distinct are theorems
--   Matching      pattern_match.rs; Fits, Domain and Policy are its theorems
--   Guard         guard.rs: Token (lexer), Syntax and Parser, Eval; Lexing and Total are theorems
--   Clause        clause.rs and error.rs
--   Frontmatter   parser.rs: Text (lines), Block (a frontmatter block), Boundaries, Merge, File;
--                 Inherit, Ranges, Settles, Total and Fuel are theorems
--   Paths         std::path: components of paths, by which they are compared; Parts (file_name,
--                 extension, parent, join); Equality is theorems
--   FileSystem    std::fs as the program sees it
--   Extension     extension.rs
--   Registry      registry.rs: the scripts and the queries on them; Walk (walkdir), Manifests and
--                 Files (register_file, register_dir); First, InOrder, Update, Query, Extensions, Walk/Reach,
--                 Manifests/Blocked, Manifests/Listed, Files/Added and Files/Skipped are theorems
--   Watcher       watcher.rs; Project, Drain and Panics are theorems
--   Engine        lib.rs: Signature, Api (with api.rs and executor.rs), State, Cascade, Roots (files,
--                 directories and roots), Watch (the watcher, and dispatch with the feature
--                 file-watch; Cascade has dispatch without it); Progress, Fuel, Siblings, Bindings,
--                 Order, Runs, Roots/Reload, Roots/Distinct and Watch/Applied are theorems
--   Service       crates/luaml-service/src: Protocol (protocol.rs), Remote (remote_api.rs), Convert and
--                 Connection (the requests of connection.rs), Stream (its loop), Server (addresses of
--                 server.rs); Remote/Calls, Remote/Reading, Convert/Literals, Connection/Answers,
--                 Connection/Routes, Stream/Lines and Stream/Fuel are theorems
--   Stdlib        crates/luaml/src/stdlib: Url (percent-encoding of url.rs), Path (path.rs), Vec (vec.rs);
--                 Url/RoundTrip, Path/Normal, Path/Tidy, Path/Relative, Vec/Entries and Vec/Dimensions
--                 are theorems
--   Samples       concrete data, and each theorem at a concrete input
--
-- How it corresponds to the code. A text is the list of its code points. A HashMap or BTreeMap is an
-- association list; where the code iterates over a HashMap, the model takes the entries in the
-- order of the list. Slicing and indexing that panic give `panic`, which unwinds through every caller. The engine's cells, the cascade
-- context and the vector of outcomes are one state that each step passes on (Engine/Cascade).
-- 64-bit counters wrap (`% 2 ^ 64`), as in a release build; the parser of integers rejects what does not fit in 64 bits.
--
-- What is a parameter. `Float` (Types) has the operations on f64 that guards and signatures use,
-- `Unicode` (Pattern/Chars) the classes of characters, and `Vm` (Engine/Api) the Lua VM: it runs a
-- body under the bindings and API namespaces that it is given, and answers with the emitted events
-- or an error. `FileSystem` is the state of the files while one operation runs, `Toml` (Extension)
-- reads manifests, `Json` (Service/Protocol) converts between JSON and the
-- messages, `Output` (Service/Remote) writes to the stream, and `watch_dirs` (Engine/Watch) is the answer of the library that reports events.
-- `Arithmetic` (Stdlib/Vec) has the operations of f64 that vectors use, and `Table` what is read of a Lua table.
--
-- Fuel. The pattern parser has a unit of fuel for each character, and one; each level of brackets
-- takes one. The lexer of guards has one for each character, and each token takes at least one
-- character. The parser of guards has six for each token, and five: its six functions call each
-- other in turn, and a round of them takes a token.
-- The cascade has one for each level below `max_depth`, and one. `walkdir` has one for each level
-- of the directory tree, and does not end in the code where links make the tree endless. The loop of
-- the service has one for each line of the stream, and one.
--
-- Not modelled: changes of files while an operation runs, the conversions between Lua values and
-- values of the engine, the modules of the Lua standard library that bind other crates, and the
-- sockets of the service.
pub mod Prelude
pub mod Types
pub mod Pattern
pub mod Matching
pub mod Guard
pub mod Clause
pub mod Frontmatter
pub mod Paths
pub mod FileSystem
pub mod Extension
pub mod Registry
pub mod Watcher
pub mod Engine
pub mod Service
pub mod Stdlib
pub mod Samples
