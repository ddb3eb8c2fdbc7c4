-- ===== src/Guard/Total.antt =====
-- Evaluating a guard always ends: no fuel runs out, and nothing panics.
use luaml.Prelude.{
  ℕ, zero, suc, ◌+◌, ◌*◌, ◌<◌, ◌≡◌, Text, true, false, some, List, [], ◌∷◌, length, arith,
  Option-cases, inl, inr,
}
use luaml.Prelude.Outcome.{Returns, Returns-bind, Ends}
use luaml.Types.{Float, FieldMap}
use luaml.Guard.Token.{Token, tokenize, lparen, rparen, ident}
use luaml.Guard.Lexing.{tokenize-Ends}
use luaml.Guard.Syntax.{CmpOp, Expr, var}
use luaml.Guard.Parser.{
  Parsed, peek_op, close_paren, parse_or, or_loop, parse_and, and_loop, parse_not, parse_compare,
  parse_primary, parse_expr, finish,
}
use luaml.Guard.Eval.{resolve_value, eval_compare, eval_bool, evaluate_guard}

-- A successful parse leaves fewer tokens than it was given.
abbrev LeavesLess : {F : Type 0} → ℕ → Parsed F → Type 0
LeavesLess n = Returns (λ r. length r.1 < n)

close_paren-Leaves :
    {F : Type 0} {n : ℕ} (e : Expr F) (ts : List (Token F))
    → length ts < n
    → LeavesLess n (close_paren e ts)
unfolding close_paren
close_paren-Leaves e (rparen ∷ ts) h = omega arith
close_paren-Leaves e _ h = tt

peek_op-length :
    {F : Type 0} (ts after : List (Token F)) (op : CmpOp)
    → peek_op ts ≡ some (op, after)
    → length after < length ts
unfolding peek_op
peek_op-length [] after op h = cc
peek_op-length (t ∷ ts) after op h = ground arith

mutual
  unfolding parse_or

  parse_or-Leaves :
      {F : Type 0} (f : ℕ) (ts : List (Token F))
      → 6 * length ts + 4 < f
      → LeavesLess (length ts) (parse_or f ts)
  parse_or-Leaves zero ts h = absurd (omega arith)
  parse_or-Leaves (suc f) ts h =
      Returns-bind (λ r. length r.1 < length ts) _ (parse_and f ts) _
        (parse_and-Leaves f ts (omega arith))
        λ (e, rest) less. or_loop-Leaves f e rest (length ts) (omega arith) less

  or_loop-Leaves :
      {F : Type 0} (f : ℕ) (e : Expr F) (ts : List (Token F)) (n : ℕ)
      → 6 * length ts < f
      → length ts < n
      → LeavesLess n (or_loop f e ts)
  or_loop-Leaves zero e ts n h g = absurd (omega arith)
  or_loop-Leaves (suc f) e (Token.or ∷ ts) n h g =
      Returns-bind (λ r. length r.1 < length ts) _ (parse_and f ts) _
        (parse_and-Leaves f ts (omega arith))
        λ (e', rest) less. or_loop-Leaves f (Expr.or e e') rest n (omega arith) (omega arith)
  or_loop-Leaves (suc f) e _ n h g = g

  parse_and-Leaves :
      {F : Type 0} (f : ℕ) (ts : List (Token F))
      → 6 * length ts + 3 < f
      → LeavesLess (length ts) (parse_and f ts)
  parse_and-Leaves zero ts h = absurd (omega arith)
  parse_and-Leaves (suc f) ts h =
      Returns-bind (λ r. length r.1 < length ts) _ (parse_not f ts) _
        (parse_not-Leaves f ts (omega arith))
        λ (e, rest) less. and_loop-Leaves f e rest (length ts) (omega arith) less

  and_loop-Leaves :
      {F : Type 0} (f : ℕ) (e : Expr F) (ts : List (Token F)) (n : ℕ)
      → 6 * length ts < f
      → length ts < n
      → LeavesLess n (and_loop f e ts)
  and_loop-Leaves zero e ts n h g = absurd (omega arith)
  and_loop-Leaves (suc f) e (Token.and ∷ ts) n h g =
      Returns-bind (λ r. length r.1 < length ts) _ (parse_not f ts) _
        (parse_not-Leaves f ts (omega arith))
        λ (e', rest) less. and_loop-Leaves f (Expr.and e e') rest n (omega arith) (omega arith)
  and_loop-Leaves (suc f) e _ n h g = g

  parse_not-Leaves :
      {F : Type 0} (f : ℕ) (ts : List (Token F))
      → 6 * length ts + 2 < f
      → LeavesLess (length ts) (parse_not f ts)
  parse_not-Leaves zero ts h = absurd (omega arith)
  parse_not-Leaves (suc f) (Token.not ∷ ts) h =
      Returns-bind (λ r. length r.1 < length ts) _ (parse_not f ts) _
        (parse_not-Leaves f ts (omega arith)) λ (e, rest) less. omega arith
  parse_not-Leaves (suc f) ts h = parse_compare-Leaves f ts (omega arith)

  parse_compare-Leaves :
      {F : Type 0} (f : ℕ) (ts : List (Token F))
      → 6 * length ts + 1 < f
      → LeavesLess (length ts) (parse_compare f ts)
  parse_compare-Leaves zero ts h = absurd (omega arith)
  parse_compare-Leaves (suc f) ts h =
      Returns-bind (λ r. length r.1 < length ts) _ (parse_primary f ts) _
        (parse_primary-Leaves f ts (omega arith))
        λ (e, rest) less. elim (Option-cases (peek_op rest)) [
          | inl no_op ↦ rw no_op less
          | inr ((op, after), found) ↦
              let shorter = peek_op-length rest after op found in
              rw found (
                Returns-bind (λ r. length r.1 < length after) _ (parse_primary f after) _
                  (parse_primary-Leaves f after (omega arith)) λ (e', rest') less'. omega arith)
        ]

  parse_primary-Leaves :
      {F : Type 0} (f : ℕ) (ts : List (Token F))
      → 6 * length ts < f
      → LeavesLess (length ts) (parse_primary f ts)
  parse_primary-Leaves zero ts h = absurd (omega arith)
  parse_primary-Leaves (suc f) (Token.bool_lit b ∷ ts) h = omega arith
  parse_primary-Leaves (suc f) (Token.number_lit n ∷ ts) h = omega arith
  parse_primary-Leaves (suc f) (Token.string_lit s ∷ ts) h = omega arith
  parse_primary-Leaves (suc f) (Token.nil ∷ ts) h = omega arith
  parse_primary-Leaves (suc f) (ident name ∷ ts) h = omega arith
  parse_primary-Leaves (suc f) (lparen ∷ ts) h =
      Returns-bind (λ r. length r.1 < length ts) _ (parse_or f ts) _
        (parse_or-Leaves f ts (omega arith))
        λ (e, rest) less. close_paren-Leaves e rest (omega arith)
  parse_primary-Leaves (suc f) (_ ∷ ts) h = tt
  parse_primary-Leaves (suc f) [] h = tt

finish-Ends : {F : Type 0} (r : Expr F × List (Token F)) → Ends (finish r)
unfolding finish
finish-Ends (e, []) = tt
finish-Ends (e, t ∷ ts) = tt

module _ {F : Type 0} ⦃fl : Float F⦄ where
  resolve_value-Ends : (e : Expr F) (m : FieldMap F) → Ends (resolve_value e m)
  unfolding resolve_value
  resolve_value-Ends (Expr.bool_lit b) m = tt
  resolve_value-Ends (var x) m = ground arith
  resolve_value-Ends _ m = tt

  eval_compare-Ends : (l r : Expr F) (op : CmpOp) (m : FieldMap F) → Ends (eval_compare l op r m)
  unfolding eval_compare
  eval_compare-Ends l r op m =
      Returns-bind (λ _. Unit) _ (resolve_value l m) _ (resolve_value-Ends l m)
        λ lv _. Returns-bind (λ _. Unit) _ (resolve_value r m) _ (resolve_value-Ends r m) λ rv _. tt

  eval_bool-Ends : (e : Expr F) (m : FieldMap F) → Ends (eval_bool e m)
  unfolding eval_bool
  eval_bool-Ends (Expr.bool_lit b) m = tt
  eval_bool-Ends (Expr.not e) m =
      Returns-bind (λ _. Unit) _ (eval_bool e m) _ (eval_bool-Ends e m) λ b _. tt
  eval_bool-Ends (Expr.and l r) m =
      Returns-bind (λ _. Unit) _ (eval_bool l m) _ (eval_bool-Ends l m)
        elim [ true ↦ λ _. eval_bool-Ends r m | false ↦ λ _. tt ]
  eval_bool-Ends (Expr.or l r) m =
      Returns-bind (λ _. Unit) _ (eval_bool l m) _ (eval_bool-Ends l m)
        elim [ true ↦ λ _. tt | false ↦ λ _. eval_bool-Ends r m ]
  eval_bool-Ends (Expr.compare l op r) m = eval_compare-Ends l r op m
  eval_bool-Ends _ m = tt

  -- Evaluating a guard ends in a Boolean or in an error, for every text and every binding.
  pub evaluate_guard-Ends :
      (expr : Text) (bindings : FieldMap F) → Ends (evaluate_guard expr bindings)
  unfolding evaluate_guard parse_expr
  evaluate_guard-Ends expr bindings =
      Returns-bind (λ _. Unit) _ (tokenize expr) _ (tokenize-Ends F expr)
        λ ts _.
          Returns-bind (λ r. length r.1 < length ts) _ (parse_expr ts) _
            (parse_or-Leaves (6 * length ts + 5) ts (omega arith))
            λ r _.
              Returns-bind (λ _. Unit) _ (finish r) _ (finish-Ends r)
                λ e _. eval_bool-Ends e bindings
