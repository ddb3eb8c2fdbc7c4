-- ===== src/Clause.antt =====
-- crates/luaml/src/clause.rs and error.rs: clauses, scripts and the errors of the engine.
use luaml.Prelude.{Text, ℕ, Option, List}
use luaml.Pattern.{Fields}
use luaml.Pattern.Parse.{PatternParseError}

-- `(String, String)` pairs of an annotation, and the `BTreeMap` of those of the fields.
abbrev pub Annotations : Type 0
Annotations = List (Text × Text)

abbrev pub FieldAnnotations : Type 0
FieldAnnotations = List (Text × Annotations)

pub record ExecutionPolicy : Type 0 where
  pub fields : Fields

pub record Behavior : Type 0 where
  pub lua_source : Text

pub record Clause : Type 0 where
  pub policy : ExecutionPolicy
  pub guard : Option Text
  pub behavior : Behavior
  pub annotations : Annotations
  pub field_annotations : FieldAnnotations

pub record Script : Type 0 where
  pub source_path : Text
  pub extension : Option Text
  pub clauses : List Clause

-- The texts of `LuamlError::Parse`, with what they quote.
pub data ParseMessage : Type 0 where
  no_frontmatter unclosed_frontmatter : ParseMessage
  unclosed_block : ℕ → ParseMessage
  extension_no_name extension_twice extension_late : ParseMessage
  annotation_no_value : Text → ParseMessage
  guard_empty : ParseMessage
  invalid_line field_no_value : Text → ParseMessage
  invalid_manifest not_listed : Text → ParseMessage

-- The errors that loading a script can end in; that of an I/O operation carries its text.
pub data LuamlError : Type 0 where
  parse_error : ParseMessage → LuamlError
  pattern_error : PatternParseError → LuamlError
  io_error : Text → LuamlError
