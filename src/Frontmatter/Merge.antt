-- ===== src/Frontmatter/Merge.antt =====
-- `merge_fields` and `merge_field_annotations`: what a clause inherits from the first one.
use luaml.Prelude.{Text, Option, none, some, List, [], ◌∷◌, text_eq, if◌then◌else◌}
use luaml.Pattern.{Pattern, Fields, no_fields, field}
use luaml.Clause.{Annotations, FieldAnnotations}

-- The first pattern under a key.
unfoldable pub find_field : Text → Fields → Option Pattern
find_field k no_fields = none
find_field k (field j p fs) = if text_eq j k then some p else find_field k fs

-- One round of `merge_fields`: the first field of that key is overwritten, or one is pushed.
unfoldable pub put_field : Fields → Text → Pattern → Fields
put_field no_fields k p = field k p no_fields
put_field (field j q fs) k p = if text_eq j k then field j p fs else field j q (put_field fs k p)

unfoldable pub merge_fields : Fields → Fields → Fields
unfolding put_field
merge_fields merged no_fields = merged
merge_fields merged (field k p child) = merge_fields (put_field merged k p) child

-- `BTreeMap::get` and `BTreeMap::insert`.
module _ {ℓ} {V : Type ℓ} where
  unfoldable pub assoc_get : List (Text × V) → Text → Option V
  assoc_get [] k = none
  assoc_get ((j, v) ∷ m) k = if text_eq j k then some v else assoc_get m k

  unfoldable pub assoc_insert : List (Text × V) → Text → V → List (Text × V)
  assoc_insert [] k v = (k, v) ∷ []
  assoc_insert ((j, w) ∷ m) k v = if text_eq j k then (j, v) ∷ m else (j, w) ∷ assoc_insert m k v

-- What a merged field is annotated with: by the child, or else by the base.
unfoldable pub choose_annotations : FieldAnnotations → FieldAnnotations → Text → Option Annotations
unfolding assoc_get
choose_annotations base child k = elim (assoc_get child k) [
  | some a ↦ some a
  | none ↦ assoc_get base k
]

unfoldable pub merge_loop :
    FieldAnnotations → FieldAnnotations → Fields → FieldAnnotations → FieldAnnotations
unfolding choose_annotations assoc_insert
merge_loop base child no_fields merged = merged
merge_loop base child (field k p fs) merged =
    merge_loop base child fs
      (elim (choose_annotations base child k) [ some a ↦ assoc_insert merged k a | none ↦ merged ])

unfoldable pub merge_field_annotations :
    FieldAnnotations → FieldAnnotations → Fields → FieldAnnotations
unfolding merge_loop
merge_field_annotations base child merged_fields = merge_loop base child merged_fields []
