-- ===== src/Guard/Syntax.antt =====
-- The AST of a guard expression.
use luaml.Prelude.{Text, Bool}

pub data CmpOp : Type 0 where
  eq neq lt gt lte gte : CmpOp

pub data Expr (F : Type 0) : Type 0 where
  bool_lit : Bool → Expr F
  number_lit : F → Expr F
  string_lit : Text → Expr F
  nil : Expr F
  var : Text → Expr F
  not : Expr F → Expr F
  compare : Expr F → CmpOp → Expr F → Expr F
  and or : Expr F → Expr F → Expr F
