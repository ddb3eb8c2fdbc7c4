-- ===== src/Frontmatter/File.antt =====
-- `parse_luaml`.
use luaml.Prelude.{
  ℕ, ◌+◌, Text, true, false, Option, none, some, List, [], ◌∷◌, length, get_elem?, if◌then◌else◌,
}
use luaml.Prelude.Outcome.{Outcome, ok, err, ◌>>=◌}
use luaml.Pattern.Chars.{Unicode}
use luaml.Clause.{
  Clause, Script, LuamlError, parse_error, no_frontmatter, unclosed_frontmatter, unclosed_block,
}
use luaml.Frontmatter.Text.{lines, join, newline, is_delimiter, position, slice}
use luaml.Frontmatter.Merge.{merge_fields, merge_field_annotations}
use luaml.Frontmatter.Block.{FrontmatterBlock, extract_extension, parse_frontmatter_block}
use luaml.Frontmatter.Boundaries.{find_clause_boundaries}

abbrev pub get_or_length : {A : Type 0} → Option ℕ → List A → ℕ
get_or_length none xs = length xs
get_or_length (some n) xs = n

unfoldable pub first_clause : FrontmatterBlock → Text → Clause
first_clause base body = record {
  policy = record { fields = base.fields };
  guard = base.guard;
  behavior = record { lua_source = body };
  annotations = base.annotations;
  field_annotations = base.field_annotations;
}

unfoldable pub child_clause : FrontmatterBlock → FrontmatterBlock → Text → Clause
unfolding merge_fields merge_field_annotations
child_clause base child body =
    let merged_fields = merge_fields base.fields child.fields in
    record {
      policy = record { fields = merged_fields };
      guard = child.guard;
      behavior = record { lua_source = body };
      annotations = child.annotations;
      field_annotations =
          merge_field_annotations base.field_annotations child.field_annotations merged_fields;
    }

-- `.position(…).ok_or_else(…)`.
unfoldable pub closing : LuamlError → Option ℕ → Outcome LuamlError ℕ
closing e none = err e
closing e (some j) = ok j

module _ ⦃u : Unicode⦄ where
  -- One round of the loop over the boundaries.
  unfoldable pub clause_at_boundary :
      FrontmatterBlock → List Text → List ℕ → ℕ → ℕ → Outcome LuamlError Clause
  unfolding closing slice join position parse_frontmatter_block child_clause
  clause_at_boundary base rest boundaries i boundary_start = do
    let fm_start = boundary_start + 1
    from ← slice fm_start (length rest) rest
    j ← closing (parse_error (unclosed_block (i + 2))) (position from)
    let fm_end = fm_start + j
    child_fm_lines ← slice fm_start fm_end rest
    child ← parse_frontmatter_block child_fm_lines true
    let body_end = get_or_length (get_elem? boundaries (i + 1)) rest
    body_lines ← slice (fm_end + 1) body_end rest
    ok (child_clause base child (join newline body_lines))

  -- The loop, from the boundary number `i` on.
  unfoldable pub clauses_loop :
      FrontmatterBlock → List Text → List ℕ → ℕ → List ℕ → Outcome LuamlError (List Clause)
  unfolding clause_at_boundary
  clauses_loop base rest boundaries i [] = ok []
  clauses_loop base rest boundaries i (b ∷ bs) = do
    clause ← clause_at_boundary base rest boundaries i b
    clauses ← clauses_loop base rest boundaries (i + 1) bs
    ok (clause ∷ clauses)

  -- From the first closing delimiter on.
  unfoldable pub parse_rest : Text → List Text → ℕ → Outcome LuamlError Script
  unfolding extract_extension parse_frontmatter_block find_clause_boundaries clauses_loop
      first_clause
  parse_rest source_path all_lines first_close = do
    fm_lines ← slice 1 first_close all_lines
    (extension, block_lines) ← extract_extension none fm_lines
    base ← parse_frontmatter_block block_lines false
    rest ← slice (first_close + 1) (length all_lines) all_lines
    let boundaries = find_clause_boundaries rest
    first_body ← slice 0 (get_or_length (get_elem? boundaries 0) rest) rest
    clauses ← clauses_loop base rest boundaries 0 boundaries
    ok (record {
      source_path = source_path;
      extension = extension;
      clauses = first_clause base (join newline first_body) ∷ clauses;
    })

  unfoldable pub parse_lines : Text → List Text → Outcome LuamlError Script
  unfolding parse_rest
  parse_lines source_path [] = err (parse_error no_frontmatter)
  parse_lines source_path (l ∷ ls) =
      if is_delimiter l
      then (closing (parse_error unclosed_frontmatter) (position ls) >>= λ i.
          parse_rest source_path (l ∷ ls) (i + 1))
      else err (parse_error no_frontmatter)

  unfoldable pub parse_luaml : Text → Text → Outcome LuamlError Script
  unfolding parse_lines lines
  parse_luaml source_path text = parse_lines source_path (lines text)
