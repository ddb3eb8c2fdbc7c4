-- ===== src/Registry/Query.antt =====
-- `query_subset` against what it means for a clause to accept a query.
use luaml.Prelude.{◌≡◌, some}
use luaml.Types.{FieldMap, empty, entry}
use luaml.Pattern.{Pattern, Fields}
use luaml.Matching.Fits.{Fits, Anything}
use luaml.Frontmatter.Merge.{find_field}

-- For each entry of the query, the fields have a pattern under its key, and its value fits the
-- first such pattern.
abbrev pub Accepts : {F : Type 0} → FieldMap F → Fields → Type 0
Accepts empty fs = Unit
Accepts (entry k v query) fs =
    ((p : Pattern) × (find_field k fs ≡ some p) × Fits Anything p v) × Accepts query fs
