-- ===== src/Samples/Registry.antt =====
-- The theorems on the registry at sample scripts.
use luaml.Prelude.{
  not, true, ℕ, ◌≡◌, refl, codes, Text, true, false, none, some, List, [], ◌∷◌, ◌++◌, ◌↔◌, text_eq,
}
use luaml.Prelude.Outcome.{err}
use luaml.Clause.{Script, no_frontmatter, parse_error}
use luaml.Pattern.{elem, no_fields, field, enum}
use luaml.Paths.{path_eq}
use luaml.Frontmatter.File.{parse_luaml}
use luaml.Registry.{
  ScriptRegistry, ClauseMatch, unregister, replace, match_first_clause, extension_names,
  has_extension, scripts_for_extension,
}
use luaml.Registry.Extensions.{is_empty, elem-extension_names}
use luaml.Registry.First.{FirstIn, match_first_clause_iff}
use luaml.Registry.Update.{has_path, ends, left, right, unregister-Woven, replace-failed}
use luaml.Samples.{ascii, nat_float, event, policy, script, clause}

abbrev sample_match : ClauseMatch ℕ
sample_match = record {
  script = script (codes "a.luaml") (codes "body");
  clause = clause (codes "body");
  bindings = event;
}

match_first_clause_iff_example :
    (match_first_clause (script (codes "a.luaml") (codes "body")) event ≡ some sample_match) ↔ (
      (sample_match.script ≡ script (codes "a.luaml") (codes "body"))
      × FirstIn (clause (codes "body") ∷ []) event sample_match.clause sample_match.bindings)
match_first_clause_iff_example =
    match_first_clause_iff (script (codes "a.luaml") (codes "body")) event sample_match

abbrev before : List Script
before = script (codes "a.luaml") (codes "1") ∷ []

abbrev own : List Script
own = script (codes "dir/b.luaml") (codes "2") ∷ script (codes "dir/./b.luaml") (codes "3") ∷ []

abbrev after : List Script
after = script (codes "dir/c.luaml") (codes "4") ∷ []

abbrev path : Text
path = codes "dir/b.luaml"

-- The scripts of the path stand apart from each other.
abbrev mixed : List Script
mixed = script path (codes "1") ∷ script (codes "a") (codes "2") ∷ script path (codes "3") ∷ []

unregister-Woven_example :
    unregister (record { scripts = mixed }) path
    ≡ (record { scripts = script (codes "a") (codes "2") ∷ [] }, true)
unregister-Woven_example =
    unregister-Woven path (script path (codes "1") ∷ script path (codes "3") ∷ [])
      (script (codes "a") (codes "2") ∷ []) mixed (left _ (right _ (left _ ends)))
      (unfold path_eq text_eq in refl, (unfold path_eq text_eq in refl, tt))
      (unfold has_path path_eq text_eq in refl)

abbrev registry : ScriptRegistry
registry = record { scripts = before ++ own }

bad_text : parse_luaml path (codes "no frontmatter") ≡ err (parse_error no_frontmatter)
unfolding parse_luaml text_eq
bad_text = refl

replace-failed_example :
    ((replace registry path (codes "no frontmatter")).1 ≡ err (parse_error no_frontmatter))
    × (has_path path (replace registry path (codes "no frontmatter")).0.scripts ≡ false)
replace-failed_example =
    replace-failed registry path (codes "no frontmatter") (parse_error no_frontmatter) bad_text

abbrev good_text : Text
good_text = codes "---\ntype: :input:\n---\nbody"

abbrev good_script : Script
good_script = record {
  source_path = path;
  extension = none;
  clauses =
      record {
        policy = record { fields = field (codes "type") (enum (codes "input")) no_fields };
        guard = none;
        behavior = record { lua_source = codes "body" };
        annotations = [];
        field_annotations = [];
      }
      ∷ [];
}

elem-extension_names_example :
    (elem path (extension_names registry) ≡ has_extension registry path)
    × (is_empty (scripts_for_extension registry path) ≡ not (has_extension registry path))
elem-extension_names_example = elem-extension_names registry path
