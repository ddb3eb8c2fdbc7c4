-- ===== src/Frontmatter/Block.antt =====
-- `extract_extension` and `parse_frontmatter_block`.
use luaml.Prelude.{
  Text, codes, Bool, true, false, not, ◌&&◌, Option, none, some, List, [], ◌∷◌, ◌++◌, text_eq,
  if◌then◌else◌, trim, starts_with, strip_prefix, split_once,
}
use luaml.Prelude.Outcome.{Outcome, ok, err, ◌>>=◌, map_err}
use luaml.Pattern.{Pattern, Fields, no_fields, field}
use luaml.Pattern.Chars.{Unicode}
use luaml.Pattern.Parse.{parse_pattern_value}
use luaml.Clause.{
  Annotations, FieldAnnotations, LuamlError, parse_error, pattern_error, extension_no_name,
  extension_twice, extension_late, annotation_no_value, guard_empty, invalid_line, field_no_value,
}
use luaml.Frontmatter.Text.{join}
use luaml.Frontmatter.Merge.{assoc_insert}

abbrev pub Extracted : Type 0
Extracted = Outcome LuamlError (Option Text × List Text)

-- A line that starts with `!`; `next` is the rest of the loop.
unfoldable pub declare_extension : Option Text → Text → (Option Text → Extracted) → Extracted
declare_extension extension [] next = err (parse_error extension_no_name)
declare_extension (some e) (c ∷ name) next = err (parse_error extension_twice)
declare_extension none (c ∷ name) next = next (some (c ∷ name))

-- The lines that are left are `&lines[consumed..]`.
unfoldable pub extract_extension : Option Text → List Text → Extracted
unfolding declare_extension
extract_extension extension [] = ok (extension, [])
extract_extension extension (line ∷ lines) =
    let next = λ (e : Option Text). extract_extension e lines in
    if text_eq (trim line) [] then next extension else elim (strip_prefix b'!' (trim line)) [
      | some name ↦ declare_extension extension (trim name) next
      | none ↦ ok (extension, line ∷ lines)
    ]

-- The variables of the loop of `parse_frontmatter_block`.
pub record BlockState : Type 0 where
  pub fields : Fields
  pub guards : List Text
  pub top_annotations : Annotations
  pub field_annotations : FieldAnnotations
  pub pending_annotations : Annotations
  pub first_field_seen : Bool

pub record FrontmatterBlock : Type 0 where
  pub fields : Fields
  pub guard : Option Text
  pub annotations : Annotations
  pub field_annotations : FieldAnnotations

abbrev pub block_start : BlockState
block_start = record {
  fields = no_fields;
  guards = [];
  top_annotations = [];
  field_annotations = [];
  pending_annotations = [];
  first_field_seen = false;
}

-- `fields.push`.
unfoldable pub push_field : Fields → Text → Pattern → Fields
push_field no_fields k p = field k p no_fields
push_field (field j q fs) k p = field j q (push_field fs k p)

unfoldable pub annotation_line : BlockState → Text → Text → Outcome LuamlError BlockState
annotation_line st trimmed rest = elim (split_once b':' rest) [
  | none ↦ err (parse_error (annotation_no_value trimmed))
  | some (key, value) ↦
      ok (record st { pending_annotations = st.pending_annotations ++ (trim key, trim value) ∷ [] })
]

unfoldable pub guard_line : BlockState → Text → Outcome LuamlError BlockState
guard_line st [] = err (parse_error guard_empty)
guard_line st (c ∷ expr) =
    ok (record st { guards = st.guards ++ (c ∷ expr) ∷ []; pending_annotations = [] })

-- Where the pending annotations go when a field with this key is met.
unfoldable pub flush_annotations : Bool → BlockState → Text → BlockState
unfolding assoc_insert
flush_annotations is_child st key =
    if not st.first_field_seen && not is_child
    then record st {
      top_annotations = st.pending_annotations;
      pending_annotations = [];
      first_field_seen = true;
    }
    else elim st.pending_annotations [
      | [] ↦ record st { first_field_seen = true }
      | a ∷ as' ↦ record st {
        field_annotations = assoc_insert st.field_annotations key (a ∷ as');
        pending_annotations = [];
        first_field_seen = true;
      }
    ]

module _ ⦃u : Unicode⦄ where
  -- The key and the value stand trimmed.
  unfoldable pub field_line : Bool → BlockState → Text → Text → Outcome LuamlError BlockState
  unfolding flush_annotations push_field
  field_line is_child st key [] = err (parse_error (field_no_value key))
  field_line is_child st key (c ∷ value) = do
    let st' = flush_annotations is_child st key
    pattern_value ← map_err pattern_error (parse_pattern_value (c ∷ value))
    ok (record st' { fields = push_field st'.fields key pattern_value })

  -- One round of the loop, on a line that is not blank.
  unfoldable pub block_line : Bool → BlockState → Text → Text → Outcome LuamlError BlockState
  unfolding annotation_line guard_line field_line
  block_line is_child st line trimmed =
      if starts_with b'!' trimmed
      then err (parse_error extension_late)
      else elim (strip_prefix b'@' trimmed) [
        | some rest ↦ annotation_line st trimmed rest
        | none ↦ elim (strip_prefix b'?' trimmed) [
          | some expr ↦ guard_line st (trim expr)
          | none ↦ elim (split_once b':' trimmed) [
            | none ↦ err (parse_error (invalid_line line))
            | some (key, value) ↦ field_line is_child st (trim key) (trim value)
          ]
        ]
      ]

  unfoldable pub block_loop : Bool → BlockState → List Text → Outcome LuamlError BlockState
  unfolding block_line
  block_loop is_child st [] = ok st
  block_loop is_child st (line ∷ lines) =
      let next = (do
        st' ← block_line is_child st line (trim line)
        block_loop is_child st' lines) in
      let same = block_loop is_child st lines in if text_eq (trim line) [] then same else next

  unfoldable pub guard_of : List Text → Option Text
  unfolding join
  guard_of [] = none
  guard_of (g ∷ gs) = some (join (codes " and ") (g ∷ gs))

  unfoldable pub block_end : BlockState → FrontmatterBlock
  unfolding guard_of
  block_end st = record {
    fields = st.fields;
    guard = guard_of st.guards;
    annotations = if st.first_field_seen then st.top_annotations else st.pending_annotations;
    field_annotations = st.field_annotations;
  }

  unfoldable pub parse_frontmatter_block : List Text → Bool → Outcome LuamlError FrontmatterBlock
  unfolding block_loop block_end
  parse_frontmatter_block lines is_child = do
    st ← block_loop is_child block_start lines
    ok (block_end st)
