-- ===== src/Guard/Parser.antt =====
-- The recursive descent parser. `self.pos` is the suffix of tokens that is left.
use luaml.Prelude.{ℕ, zero, suc, ◌+◌, ◌*◌, List, [], ◌∷◌, Option, none, some, length}
use luaml.Prelude.Outcome.{Outcome, ok, err, out_of_fuel, ◌>>=◌}
use luaml.Guard.Token.{
  Token, GuardError, ident, lparen, rparen, unexpected_token, unexpected_end, expected_rparen,
  trailing_token,
}
use luaml.Guard.Syntax.{CmpOp, Expr, var}

abbrev pub Parsed : Type 0 → Type 0
Parsed F = Outcome (GuardError F) (Expr F × List (Token F))

-- The operator that `parse_compare` finds at the front.
unfoldable pub cmp_op : {F : Type 0} → Token F → Option CmpOp
cmp_op Token.eq = some CmpOp.eq
cmp_op Token.neq = some CmpOp.neq
cmp_op Token.lt = some CmpOp.lt
cmp_op Token.gt = some CmpOp.gt
cmp_op Token.lte = some CmpOp.lte
cmp_op Token.gte = some CmpOp.gte
cmp_op _ = none

unfoldable pub peek_op : {F : Type 0} → List (Token F) → Option (CmpOp × List (Token F))
unfolding cmp_op
peek_op [] = none
peek_op (t ∷ ts) = elim (cmp_op t) [ none ↦ none | some op ↦ some (op, ts) ]

-- The test `self.advance() != Some(&Token::RParen)`.
unfoldable pub close_paren : {F : Type 0} → Expr F → List (Token F) → Parsed F
close_paren inner (rparen ∷ ts) = ok (inner, ts)
close_paren inner _ = err expected_rparen

-- Each call costs a unit of fuel. `or_loop` and `and_loop` are the `while` loops.
unfoldable mutual
  unfolding peek_op close_paren

  pub parse_or : {F : Type 0} → ℕ → List (Token F) → Parsed F
  parse_or zero ts = out_of_fuel
  parse_or (suc f) ts = do (left, rest) ← parse_and f ts; or_loop f left rest

  pub or_loop : {F : Type 0} → ℕ → Expr F → List (Token F) → Parsed F
  or_loop zero left ts = out_of_fuel
  or_loop (suc f) left (Token.or ∷ ts) = do
    (right, rest) ← parse_and f ts
    or_loop f (Expr.or left right) rest
  or_loop (suc f) left ts = ok (left, ts)

  pub parse_and : {F : Type 0} → ℕ → List (Token F) → Parsed F
  parse_and zero ts = out_of_fuel
  parse_and (suc f) ts = do (left, rest) ← parse_not f ts; and_loop f left rest

  pub and_loop : {F : Type 0} → ℕ → Expr F → List (Token F) → Parsed F
  and_loop zero left ts = out_of_fuel
  and_loop (suc f) left (Token.and ∷ ts) = do
    (right, rest) ← parse_not f ts
    and_loop f (Expr.and left right) rest
  and_loop (suc f) left ts = ok (left, ts)

  pub parse_not : {F : Type 0} → ℕ → List (Token F) → Parsed F
  parse_not zero ts = out_of_fuel
  parse_not (suc f) (Token.not ∷ ts) = do (inner, rest) ← parse_not f ts; ok (Expr.not inner, rest)
  parse_not (suc f) ts = parse_compare f ts

  pub parse_compare : {F : Type 0} → ℕ → List (Token F) → Parsed F
  parse_compare zero ts = out_of_fuel
  parse_compare (suc f) ts = do
    (left, rest) ← parse_primary f ts
    elim (peek_op rest) [
      | none ↦ ok (left, rest)
      | some (op, after) ↦ (do
        (right, rest') ← parse_primary f after
        ok (Expr.compare left op right, rest'))
    ]

  pub parse_primary : {F : Type 0} → ℕ → List (Token F) → Parsed F
  parse_primary zero ts = out_of_fuel
  parse_primary (suc f) (Token.bool_lit b ∷ ts) = ok (Expr.bool_lit b, ts)
  parse_primary (suc f) (Token.number_lit n ∷ ts) = ok (Expr.number_lit n, ts)
  parse_primary (suc f) (Token.string_lit s ∷ ts) = ok (Expr.string_lit s, ts)
  parse_primary (suc f) (Token.nil ∷ ts) = ok (Expr.nil, ts)
  parse_primary (suc f) (ident name ∷ ts) = ok (var name, ts)
  parse_primary (suc f) (lparen ∷ ts) = do (inner, rest) ← parse_or f ts; close_paren inner rest
  parse_primary (suc f) (t ∷ ts) = err (unexpected_token t)
  parse_primary (suc f) [] = err unexpected_end

-- `parse_expr`, with fuel for every list of tokens.
unfoldable pub parse_expr : {F : Type 0} → List (Token F) → Parsed F
unfolding parse_or
parse_expr ts = parse_or (6 * length ts + 5) ts

-- The test of `evaluate_guard` on `parser.pos`.
unfoldable pub finish : {F : Type 0} → Expr F × List (Token F) → Outcome (GuardError F) (Expr F)
finish (ast, []) = ok ast
finish (ast, t ∷ ts) = err (trailing_token t)
