-- ===== src/Frontmatter/Total.antt =====
-- `parse_luaml` stays within the ranges of its slices, and finds the closing delimiter of every
-- clause that `find_clause_boundaries` announces.
use luaml.Prelude.{
  ℕ, suc, ◌+◌, ◌≤◌, ◌<◌, ◌≡◌, refl, ap, ◌∙◌, Text, true, false, Option, none, some, List, [], ◌∷◌,
  length, length-drop, drop, get_elem?, arith, Bool-cases, Option-cases, inl, inr,
}
use luaml.Prelude.Maybe.{some-inj}
use luaml.Pattern.Chars.{Unicode}
use luaml.Clause.{LuamlError, parse_error, unclosed_block, unclosed_frontmatter}
use luaml.Frontmatter.Text.{position, slice, is_delimiter, lines}
use luaml.Frontmatter.Block.{extract_extension, parse_frontmatter_block, FrontmatterBlock}
use luaml.Frontmatter.Boundaries.{find_clause_boundaries}
use luaml.Frontmatter.File.{
  get_or_length, closing, clause_at_boundary, clauses_loop, parse_rest, parse_lines, parse_luaml,
}
use luaml.Frontmatter.Ranges.{
  length-position, take-all, drop-cons, head?, Chain, find_clause_boundaries-Chain,
}
use luaml.Frontmatter.Settles.{
  Settles, Settles-bind, AnyValue, AllQuoted, slice-Settles, extract_extension-Settles,
  parse_frontmatter_block-Settles,
}

-- A clause ends where the next one starts, or with the text.
ends :
    (rest : List Text) (b j : ℕ) (bs : List ℕ)
    → b < length rest
    → position (drop (b + 1) rest) ≡ some j
    → Chain rest (b + 1 + j + 1) bs
    → (b + 1 + j + 1 ≤ get_or_length (head? bs) rest)
      × (get_or_length (head? bs) rest ≤ length rest)
ends rest b j [] lt found g =
    let close = length-position (drop (b + 1) rest) j found in
    (omega (arith, length-drop (b + 1) rest), omega arith)
ends rest b j (c ∷ cs) lt found g = (g.0, omega (arith, g.1))

first_end :
    (rest : List Text) (bounds : List ℕ)
    → Chain rest 0 bounds
    → get_or_length (get_elem? bounds 0) rest ≤ length rest
first_end rest [] g = omega arith
first_end rest (b ∷ bs) g = omega (arith, g.1)

module _ ⦃u : Unicode⦄ where
  closing-Settles :
      (e : LuamlError) (o : Option ℕ) (j : ℕ) → o ≡ some j → Settles (λ k. k ≡ j) (closing e o)
  unfolding closing
  closing-Settles e none j h = cc
  closing-Settles e (some k) j h = some-inj h

  clause_at_boundary-Settles :
      (base : FrontmatterBlock) (rest : List Text) (bounds : List ℕ) (i b j : ℕ)
      → AllQuoted rest
      → b < length rest
      → position (drop (b + 1) rest) ≡ some j
      → b + 1 + j + 1 ≤ get_or_length (get_elem? bounds (i + 1)) rest
      → get_or_length (get_elem? bounds (i + 1)) rest ≤ length rest
      → Settles AnyValue (clause_at_boundary base rest bounds i b)
  unfolding clause_at_boundary
  clause_at_boundary-Settles base rest bounds i b j q lt found from to =
      let close = length-position (drop (b + 1) rest) j found in
      let size = length-drop (b + 1) rest in
      Settles-bind _ AnyValue (slice (b + 1) (length rest) rest) _
        (slice-Settles (b + 1) (length rest) rest (omega arith) (omega arith) q)
        λ rest' (same, q').
          Settles-bind (λ k. k ≡ j) AnyValue
            (closing (parse_error (unclosed_block (i + 2))) (position rest')) _
            (closing-Settles _ (position rest') j
              (ap position (same ∙ take-all _ _ (omega (arith, size))) ∙ found))
            λ k k_is.
              Settles-bind _ AnyValue (slice (b + 1) (b + 1 + k) rest) _
                (slice-Settles (b + 1) (b + 1 + k) rest (omega arith)
                  (omega (arith, k_is, close, size)) q)
                λ child (_, child_quoted).
                  Settles-bind AnyValue AnyValue (parse_frontmatter_block child true) _
                    (parse_frontmatter_block-Settles child true child_quoted)
                    λ block _.
                      Settles-bind _ AnyValue
                        (slice (b + 1 + k + 1) (get_or_length (get_elem? bounds (i + 1)) rest) rest)
                        _ (slice-Settles (b + 1 + k + 1) _ rest (omega (arith, k_is, from)) to q)
                        λ body _. tt

  clauses_loop-Settles :
      (base : FrontmatterBlock) (rest : List Text) (bounds : List ℕ) (i lo : ℕ) (bs : List ℕ)
      → AllQuoted rest
      → drop i bounds ≡ bs
      → Chain rest lo bs
      → Settles AnyValue (clauses_loop base rest bounds i bs)
  unfolding clauses_loop
  clauses_loop-Settles base rest bounds i lo [] q d g = tt
  clauses_loop-Settles base rest bounds i lo (b ∷ bs) q d (ge, lt, (j, found, g)) =
      let (next, after) = drop-cons i bounds b bs d in
      let plus : i + 1 ≡ suc i = omega arith in
      let (from, to) = ends rest b j bs lt found g in
      Settles-bind AnyValue AnyValue (clause_at_boundary base rest bounds i b) _
        (clause_at_boundary-Settles base rest bounds i b j q lt found (rw (plus, next) from)
          (rw (plus, next) to))
        λ clause _.
          Settles-bind AnyValue AnyValue (clauses_loop base rest bounds (i + 1) bs) _
            (clauses_loop-Settles base rest bounds (i + 1) (b + 1 + j + 1) bs q (rw plus after) g)
            λ clauses _. tt

  parse_rest-Settles :
      (path : Text) (ls : List Text) (n : ℕ)
      → 1 ≤ n
      → n < length ls
      → AllQuoted ls
      → Settles AnyValue (parse_rest path ls n)
  unfolding parse_rest
  parse_rest-Settles path ls n ge lt q =
      Settles-bind _ AnyValue (slice 1 n ls) _ (slice-Settles 1 n ls ge (omega arith) q)
        λ fm_lines (_, q₁).
          Settles-bind _ AnyValue (extract_extension none fm_lines) _
            (extract_extension-Settles none fm_lines q₁)
            λ found q₂.
              Settles-bind AnyValue AnyValue (parse_frontmatter_block found.1 false) _
                (parse_frontmatter_block-Settles found.1 false q₂)
                λ base _.
                  Settles-bind _ AnyValue (slice (n + 1) (length ls) ls) _
                    (slice-Settles (n + 1) (length ls) ls (omega arith) (omega arith) q)
                    λ rest (_, q₃).
                      let bounds = find_clause_boundaries rest in
                      let chain = find_clause_boundaries-Chain rest in
                      Settles-bind _ AnyValue
                        (slice 0 (get_or_length (get_elem? bounds 0) rest) rest) _
                        (slice-Settles 0 _ rest (omega arith) (first_end rest bounds chain) q₃)
                        λ body _.
                          Settles-bind AnyValue AnyValue (clauses_loop base rest bounds 0 bounds) _
                            (clauses_loop-Settles base rest bounds 0 0 bounds q₃ refl chain)
                            λ clauses _. tt

  closing-length :
      (ls : List Text)
      → Settles (λ i. i < length ls) (closing (parse_error unclosed_frontmatter) (position ls))
  unfolding closing
  closing-length ls = elim (Option-cases (position ls)) [
    | inl n ↦ rw (n, closing) tt
    | inr (j, n) ↦ rw (n, closing) (length-position ls j n)
  ]

  parse_lines-Settles :
      (path : Text) (ls : List Text) → AllQuoted ls → Settles AnyValue (parse_lines path ls)
  unfolding parse_lines
  parse_lines-Settles path [] q = tt
  parse_lines-Settles path (l ∷ ls) q = elim (Bool-cases (is_delimiter l)) [
    | inr e ↦ rw e tt
    | inl e ↦ rw e (
        Settles-bind (λ i. i < length ls) AnyValue
          (closing (parse_error unclosed_frontmatter) (position ls)) _ (closing-length ls)
          λ i lt. parse_rest-Settles path (l ∷ ls) (i + 1) (omega arith) (omega arith) q)
  ]

-- Unless the value of some line makes the pattern parser panic, parsing a script ends with the
-- script or an error: no slice is out of range, no fuel runs out, and the error for a later clause
-- that is not closed never occurs.
pub parse_luaml-Settles :
    ⦃u : Unicode⦄ (source_path text : Text)
    → AllQuoted (lines text)
    → Settles AnyValue (parse_luaml source_path text)
unfolding parse_luaml
parse_luaml-Settles source_path text q = parse_lines-Settles source_path (lines text) q
