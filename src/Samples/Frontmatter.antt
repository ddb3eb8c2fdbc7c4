-- ===== src/Samples/Frontmatter.antt =====
-- The theorems on the frontmatter parser at sample blocks.
use luaml.Prelude.Maybe.{some-inj}
use luaml.Prelude.Outcome.{ok}
use luaml.Pattern.Parse.{parse_pattern_value}
use luaml.Frontmatter.Text.{lines}
use luaml.Frontmatter.File.{parse_luaml}
use luaml.Frontmatter.Settles.{Settles, AnyValue, Quoted, AllQuoted}
use luaml.Frontmatter.Total.{parse_luaml-Settles}
use luaml.Prelude.{
  refl, some, Text, trim, split_once, text_eq, ap, sym, ◌∙◌, ◌≡◌, codes, none, is_some, [], ◌∷◌,
  if◌then◌else◌,
}
use luaml.Pattern.{Pattern, Fields, field, no_fields, enum, wildcard}
use luaml.Clause.{FieldAnnotations}
use luaml.Frontmatter.Merge.{find_field, merge_fields, assoc_get, merge_field_annotations}
use luaml.Frontmatter.Inherit.{patterns_at, override, or_else, last_field, merge-inherits}
use luaml.Samples.{ascii, policy}

abbrev child : Fields
child = field (codes "args") wildcard (field (codes "when") (enum (codes "now")) no_fields)

abbrev base_fa : FieldAnnotations
base_fa = (codes "args", (codes "doc", codes "the arguments") ∷ []) ∷ []

merge-inherits_example :
    (patterns_at (codes "args") (merge_fields policy child)
      ≡ override (last_field (codes "args") child) (patterns_at (codes "args") policy))
    × (find_field (codes "args") (merge_fields policy child)
        ≡ or_else (last_field (codes "args") child) (find_field (codes "args") policy))
    × (assoc_get (merge_field_annotations base_fa [] (merge_fields policy child)) (codes "args") ≡ (
        if is_some (find_field (codes "args") (merge_fields policy child))
        then or_else (assoc_get [] (codes "args")) (assoc_get base_fa (codes "args"))
        else none))
merge-inherits_example = merge-inherits policy child base_fa [] (codes "args")

-- A line without a colon, and one whose value is parsed.
Quoted-no_value : (line : Text) → split_once b':' (trim line) ≡ none → Quoted line
Quoted-no_value line h key value e = cc

Quoted-parsed :
    (line key₀ value₀ : Text) (p : Pattern)
    → split_once b':' (trim line) ≡ some (key₀, value₀)
    → parse_pattern_value (trim value₀) ≡ ok p
    → Quoted line
Quoted-parsed line key₀ value₀ p h g key value e panics =
    let same : value₀ ≡ value = ap (λ x. x.1) (some-inj (sym h ∙ e)) in
    let gives : parse_pattern_value (trim value) ≡ ok p = rw (← same) g in cc

abbrev sample_text : Text
sample_text = codes "---\ntype: :input:\n---\nbody"

sample_text-AllQuoted : AllQuoted (lines sample_text)
unfolding lines trim split_once parse_pattern_value text_eq
sample_text-AllQuoted =
    let type_line =
      Quoted-parsed (codes "type: :input:") (codes "type") (codes " :input:") (enum (codes "input"))
        refl refl in
    (
      Quoted-no_value (codes "---") refl,
      (type_line, (Quoted-no_value (codes "---") refl, (Quoted-no_value (codes "body") refl, tt))),
    )

parse_luaml-Settles_example : Settles AnyValue (parse_luaml (codes "a.luaml") sample_text)
parse_luaml-Settles_example =
    parse_luaml-Settles (codes "a.luaml") sample_text sample_text-AllQuoted
