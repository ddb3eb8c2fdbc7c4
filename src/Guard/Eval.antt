-- ===== src/Guard/Eval.antt =====
-- The evaluator, and `evaluate_guard`.
use luaml.Prelude.{
  Text, Bool, true, false, not, Option, none, some, [], ◌∷◌, text_eq, text_cmp, Ordering,
}
use luaml.Prelude.Int.{ℤ, int_eq, pos}
use luaml.Prelude.Outcome.{Outcome, ok, err, ◌>>=◌}
use luaml.Types.{Float, FieldValue, FieldMap, get}
use luaml.Matching.{bool_eq}
use luaml.Guard.Token.{GuardError, complex_operand, tokenize}
use luaml.Guard.Syntax.{CmpOp, Expr, var}
use luaml.Guard.Parser.{parse_expr, finish}

pub data GuardValue (F : Type 0) : Type 0 where
  bool : Bool → GuardValue F
  float : F → GuardValue F
  string : Text → GuardValue F
  null : GuardValue F

abbrev is_empty : Text → Bool
is_empty [] = true
is_empty (c ∷ s) = false

abbrev is_ne_zero : ℤ → Bool
is_ne_zero n = not (int_eq n (pos 0))

-- `is_some_and` on an ordering.
abbrev pub holds : (Ordering → Bool) → Option Ordering → Bool
holds test none = false
holds test (some o) = test o

module _ {F : Type 0} ⦃fl : Float F⦄ where
  -- `GuardValue::from_field_value`.
  unfoldable pub from_field_value : FieldValue F → GuardValue F
  from_field_value (FieldValue.bool b) = GuardValue.bool b
  from_field_value (FieldValue.number n) = GuardValue.float (fl.from_i64 n)
  from_field_value (FieldValue.float f) = GuardValue.float f
  from_field_value (FieldValue.string s) = GuardValue.string s
  from_field_value (FieldValue.enum s) = GuardValue.string s
  from_field_value FieldValue.null = GuardValue.null
  from_field_value (FieldValue.list xs) = GuardValue.null
  from_field_value (FieldValue.map m) = GuardValue.null

  unfoldable pub as_f64 : GuardValue F → Option F
  as_f64 (GuardValue.float f) = some f
  as_f64 (GuardValue.string s) = fl.parse s
  as_f64 _ = none

  unfoldable pub as_str : GuardValue F → Option Text
  as_str (GuardValue.string s) = some s
  as_str _ = none

  -- `s.parse::<f64>().ok() == Some(*n)`.
  unfoldable pub parses_to : Text → F → Bool
  parses_to s n = elim (fl.parse s) [ some m ↦ fl.feq m n | none ↦ false ]

  unfoldable pub guard_eq : GuardValue F → GuardValue F → Bool
  unfolding parses_to
  guard_eq GuardValue.null GuardValue.null = true
  guard_eq (GuardValue.bool a) (GuardValue.bool b) = bool_eq a b
  guard_eq (GuardValue.float a) (GuardValue.float b) = fl.feq a b
  guard_eq (GuardValue.string a) (GuardValue.string b) = text_eq a b
  guard_eq (GuardValue.float n) (GuardValue.string s) = parses_to s n
  guard_eq (GuardValue.string s) (GuardValue.float n) = parses_to s n
  guard_eq _ _ = false

  -- Text order, where both sides are texts.
  unfoldable pub str_cmp : GuardValue F → GuardValue F → Option Ordering
  str_cmp (GuardValue.string a) (GuardValue.string b) = some (text_cmp a b)
  str_cmp _ _ = none

  unfoldable pub guard_cmp : GuardValue F → GuardValue F → Option Ordering
  unfolding as_f64 str_cmp text_cmp
  guard_cmp a b = elim (as_f64 a) [
    | none ↦ str_cmp a b
    | some x ↦ elim (as_f64 b) [ none ↦ str_cmp a b | some y ↦ fl.partial_cmp x y ]
  ]

  unfoldable pub resolve_value : Expr F → FieldMap F → Outcome (GuardError F) (GuardValue F)
  unfolding from_field_value get
  resolve_value (Expr.bool_lit b) bindings = ok (GuardValue.bool b)
  resolve_value (Expr.number_lit n) bindings = ok (GuardValue.float n)
  resolve_value (Expr.string_lit s) bindings = ok (GuardValue.string s)
  resolve_value Expr.nil bindings = ok GuardValue.null
  resolve_value (var name) bindings = elim (get bindings name) [
    | some fv ↦ ok (from_field_value fv)
    | none ↦ ok GuardValue.null
  ]
  resolve_value _ bindings = err complex_operand

  unfoldable pub compare_values : CmpOp → GuardValue F → GuardValue F → Bool
  unfolding guard_eq guard_cmp
  compare_values CmpOp.eq lv rv = guard_eq lv rv
  compare_values CmpOp.neq lv rv = not (guard_eq lv rv)
  compare_values CmpOp.lt lv rv = holds (elim [ Ordering.lt ↦ true | _ ↦ false ]) (guard_cmp lv rv)
  compare_values CmpOp.gt lv rv = holds (elim [ Ordering.gt ↦ true | _ ↦ false ]) (guard_cmp lv rv)
  compare_values CmpOp.lte lv rv = holds (elim [ Ordering.gt ↦ false | _ ↦ true ]) (guard_cmp lv rv)
  compare_values CmpOp.gte lv rv = holds (elim [ Ordering.lt ↦ false | _ ↦ true ]) (guard_cmp lv rv)

  unfoldable pub eval_compare : Expr F → CmpOp → Expr F → FieldMap F → Outcome (GuardError F) Bool
  unfolding resolve_value compare_values
  eval_compare left op right bindings = do
    lv ← resolve_value left bindings
    rv ← resolve_value right bindings
    ok (compare_values op lv rv)

  -- A variable on its own.
  unfoldable pub truthy : Option (FieldValue F) → Bool
  truthy (some (FieldValue.bool b)) = b
  truthy (some (FieldValue.number n)) = is_ne_zero n
  truthy (some (FieldValue.float f)) = not (fl.feq f fl.zero_float)
  truthy (some (FieldValue.string s)) = not (is_empty s)
  truthy (some (FieldValue.enum s)) = true
  truthy (some FieldValue.null) = false
  truthy none = false
  truthy (some (FieldValue.list xs)) = true
  truthy (some (FieldValue.map m)) = true

  -- `&&` and `||` do not look at the right side where the left one decides.
  unfoldable pub eval_bool : Expr F → FieldMap F → Outcome (GuardError F) Bool
  unfolding truthy eval_compare get
  eval_bool (Expr.bool_lit b) bindings = ok b
  eval_bool (Expr.number_lit n) bindings = ok (not (fl.feq n fl.zero_float))
  eval_bool (Expr.string_lit s) bindings = ok (not (is_empty s))
  eval_bool Expr.nil bindings = ok false
  eval_bool (var name) bindings = ok (truthy (get bindings name))
  eval_bool (Expr.not inner) bindings = do b ← eval_bool inner bindings; ok (not b)
  eval_bool (Expr.and left right) bindings =
      eval_bool left bindings >>= elim [ true ↦ eval_bool right bindings | false ↦ ok false ]
  eval_bool (Expr.or left right) bindings =
      eval_bool left bindings >>= elim [ true ↦ ok true | false ↦ eval_bool right bindings ]
  eval_bool (Expr.compare left op right) bindings = eval_compare left op right bindings

  unfoldable pub evaluate_guard : Text → FieldMap F → Outcome (GuardError F) Bool
  unfolding tokenize parse_expr finish eval_bool
  evaluate_guard expr bindings = do
    tokens ← tokenize expr
    parsed ← parse_expr tokens
    ast ← finish parsed
    eval_bool ast bindings
