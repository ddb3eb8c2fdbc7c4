-- ===== src/Frontmatter/Fuel.antt =====
-- Parsing a script never lacks fuel, whatever its text: only the pattern parser has any.
use luaml.Prelude.{
  ℕ, ◌+◌, Text, true, false, Bool, Option, none, some, List, [], ◌∷◌, length, get_elem?, Bool-cases,
  Option-cases, inl, inr, trim, split_once, strip_prefix, starts_with, text_eq, leb, ◌&&◌,
}
use luaml.Prelude.Outcome.{
  Outcome, ok, err, panic, out_of_fuel, map_err, EnoughFuel, EnoughFuel-bind,
}
use luaml.Pattern.Chars.{Unicode}
use luaml.Pattern.Parse.{parse_pattern_value}
use luaml.Pattern.Total.{parse_pattern_value-EnoughFuel}
use luaml.Clause.{LuamlError, pattern_error}
use luaml.Frontmatter.Text.{lines, position, slice, is_delimiter}
use luaml.Frontmatter.Block.{
  FrontmatterBlock, BlockState, Extracted, declare_extension, extract_extension, annotation_line,
  guard_line, field_line, block_line, block_loop, block_start, parse_frontmatter_block,
}
use luaml.Frontmatter.Boundaries.{find_clause_boundaries}
use luaml.Frontmatter.File.{
  get_or_length, closing, clause_at_boundary, clauses_loop, parse_rest, parse_lines, parse_luaml,
}

slice-EnoughFuel : {A : Type 0} (a b : ℕ) (xs : List A) → EnoughFuel (slice {E = LuamlError} a b xs)
unfolding slice
slice-EnoughFuel a b xs = elim (Bool-cases (leb a b && leb b (length xs))) [
  | inl e ↦ rw e tt
  | inr e ↦ rw e tt
]

map_err-EnoughFuel :
    {E E' A : Type 0} (f : E → E') (m : Outcome E A) → EnoughFuel m → EnoughFuel (map_err f m)
map_err-EnoughFuel f (ok a) h = tt
map_err-EnoughFuel f (err e) h = tt
map_err-EnoughFuel f panic h = tt
map_err-EnoughFuel f out_of_fuel h = h

closing-EnoughFuel : (e : LuamlError) (o : Option ℕ) → EnoughFuel (closing e o)
unfolding closing
closing-EnoughFuel e none = tt
closing-EnoughFuel e (some j) = tt

guard_line-EnoughFuel : (st : BlockState) (expr : Text) → EnoughFuel (guard_line st expr)
unfolding guard_line
guard_line-EnoughFuel st [] = tt
guard_line-EnoughFuel st (c ∷ expr) = tt

annotation_line-EnoughFuel :
    (st : BlockState) (trimmed rest : Text) → EnoughFuel (annotation_line st trimmed rest)
unfolding annotation_line
annotation_line-EnoughFuel st trimmed rest = elim (Option-cases (split_once b':' rest)) [
  | inl e ↦ rw (e, annotation_line) tt
  | inr (kv, e) ↦ rw (e, annotation_line) tt
]

declared_EnoughFuel :
    (extension : Option Text) (name : Text) (next : Option Text → Extracted)
    → ((o : Option Text) → EnoughFuel (next o))
    → EnoughFuel (declare_extension extension name next)
unfolding declare_extension
declared_EnoughFuel extension [] next h = tt
declared_EnoughFuel (some e) (c ∷ name) next h = tt
declared_EnoughFuel none (c ∷ name) next h = h (some (c ∷ name))

extract_extension-EnoughFuel :
    (extension : Option Text) (ls : List Text) → EnoughFuel (extract_extension extension ls)
unfolding extract_extension
extract_extension-EnoughFuel extension [] = tt
extract_extension-EnoughFuel extension (l ∷ ls) = elim (Bool-cases (text_eq (trim l) [])) [
  | inl e ↦ rw e (extract_extension-EnoughFuel extension ls)
  | inr e ↦ elim (Option-cases (strip_prefix b'!' (trim l))) [
    | inl f ↦ rw e (rw f tt)
    | inr (name, f) ↦ rw e (
        rw f (
          declared_EnoughFuel extension (trim name) (λ o. extract_extension o ls)
            λ o. extract_extension-EnoughFuel o ls))
  ]
]

module _ ⦃u : Unicode⦄ where
  field_line-EnoughFuel :
      (is_child : Bool) (st : BlockState) (key value : Text)
      → EnoughFuel (field_line is_child st key value)
  unfolding field_line
  field_line-EnoughFuel is_child st key [] = tt
  field_line-EnoughFuel is_child st key (c ∷ value) =
      EnoughFuel-bind (map_err pattern_error (parse_pattern_value (c ∷ value))) _
        (map_err-EnoughFuel pattern_error _ (parse_pattern_value-EnoughFuel (c ∷ value))) λ p e. tt

  block_line-EnoughFuel :
      (is_child : Bool) (st : BlockState) (line trimmed : Text)
      → EnoughFuel (block_line is_child st line trimmed)
  unfolding block_line
  block_line-EnoughFuel is_child st line trimmed = elim (Bool-cases (starts_with b'!' trimmed)) [
    | inl e ↦ rw e tt
    | inr e ↦ elim (Option-cases (strip_prefix b'@' trimmed)) [
      | inr (rest, f) ↦ rw e (rw f (annotation_line-EnoughFuel st trimmed rest))
      | inl f ↦ elim (Option-cases (strip_prefix b'?' trimmed)) [
        | inr (expr, g) ↦ rw e (rw f (rw g (guard_line-EnoughFuel st (trim expr))))
        | inl g ↦ elim (Option-cases (split_once b':' trimmed)) [
          | inl i ↦ rw e (rw f (rw g (rw i tt)))
          | inr ((key, value), i) ↦
              rw e (rw f (rw g (rw i (field_line-EnoughFuel is_child st (trim key) (trim value)))))
        ]
      ]
    ]
  ]

  block_loop-EnoughFuel :
      (is_child : Bool) (st : BlockState) (ls : List Text) → EnoughFuel (block_loop is_child st ls)
  unfolding block_loop
  block_loop-EnoughFuel is_child st [] = tt
  block_loop-EnoughFuel is_child st (l ∷ ls) = elim (Bool-cases (text_eq (trim l) [])) [
    | inl e ↦ rw e (block_loop-EnoughFuel is_child st ls)
    | inr e ↦ rw e (
        EnoughFuel-bind (block_line is_child st l (trim l)) _
          (block_line-EnoughFuel is_child st l (trim l))
          λ st' h. block_loop-EnoughFuel is_child st' ls)
  ]

  block-EnoughFuel :
      (ls : List Text) (is_child : Bool) → EnoughFuel (parse_frontmatter_block ls is_child)
  unfolding parse_frontmatter_block
  block-EnoughFuel ls is_child =
      EnoughFuel-bind (block_loop is_child block_start ls) _
        (block_loop-EnoughFuel is_child block_start ls) λ st h. tt

  clause-EnoughFuel :
      (base : FrontmatterBlock) (rest : List Text) (bounds : List ℕ) (i b : ℕ)
      → EnoughFuel (clause_at_boundary base rest bounds i b)
  unfolding clause_at_boundary
  clause-EnoughFuel base rest bounds i b =
      EnoughFuel-bind _ _ (slice-EnoughFuel (b + 1) (length rest) rest) λ from h₁.
        EnoughFuel-bind _ _ (closing-EnoughFuel _ (position from)) λ j h₂.
          EnoughFuel-bind _ _ (slice-EnoughFuel (b + 1) (b + 1 + j) rest) λ child_lines h₃.
            EnoughFuel-bind _ _ (block-EnoughFuel child_lines true) λ child h₄.
              EnoughFuel-bind _ _ (slice-EnoughFuel (b + 1 + j + 1) _ rest) λ body h₅. tt

  clauses_loop-EnoughFuel :
      (base : FrontmatterBlock) (rest : List Text) (bounds : List ℕ) (i : ℕ) (bs : List ℕ)
      → EnoughFuel (clauses_loop base rest bounds i bs)
  unfolding clauses_loop
  clauses_loop-EnoughFuel base rest bounds i [] = tt
  clauses_loop-EnoughFuel base rest bounds i (b ∷ bs) =
      EnoughFuel-bind _ _ (clause-EnoughFuel base rest bounds i b) λ clause h₁.
        EnoughFuel-bind _ _ (clauses_loop-EnoughFuel base rest bounds (i + 1) bs) λ clauses h₂. tt

  parse_rest-EnoughFuel : (path : Text) (ls : List Text) (n : ℕ) → EnoughFuel (parse_rest path ls n)
  unfolding parse_rest
  parse_rest-EnoughFuel path ls n = EnoughFuel-bind _ _ (slice-EnoughFuel 1 n ls) λ fm_lines h₁.
      EnoughFuel-bind _ _ (extract_extension-EnoughFuel none fm_lines) λ found h₂.
        EnoughFuel-bind _ _ (block-EnoughFuel found.1 false) λ base h₃.
          EnoughFuel-bind _ _ (slice-EnoughFuel (n + 1) (length ls) ls) λ rest h₄.
            EnoughFuel-bind
              (slice 0 (get_or_length (get_elem? (find_clause_boundaries rest) 0) rest) rest) _
              (slice-EnoughFuel 0 _ rest)
              λ body h₅.
                EnoughFuel-bind _ _
                  (clauses_loop-EnoughFuel base rest (find_clause_boundaries rest) 0
                    (find_clause_boundaries rest))
                  λ clauses h₆. tt

  parse_lines-EnoughFuel : (path : Text) (ls : List Text) → EnoughFuel (parse_lines path ls)
  unfolding parse_lines
  parse_lines-EnoughFuel path [] = tt
  parse_lines-EnoughFuel path (l ∷ ls) = elim (Bool-cases (is_delimiter l)) [
    | inr e ↦ rw e tt
    | inl e ↦ rw e (
        EnoughFuel-bind _ _ (closing-EnoughFuel _ (position ls))
          λ i h. parse_rest-EnoughFuel path (l ∷ ls) (i + 1))
  ]

  pub parse_luaml-EnoughFuel : (path text : Text) → EnoughFuel (parse_luaml path text)
  unfolding parse_luaml
  parse_luaml-EnoughFuel path text = parse_lines-EnoughFuel path (lines text)
