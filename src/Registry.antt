-- ===== src/Registry.antt =====
-- crates/luaml/src/registry.rs: the registered scripts, and the queries on them.
pub mod First
pub mod InOrder
pub mod Update
pub mod Query
pub mod Extensions
pub mod Walk
pub mod Manifests
pub mod Files
use luaml.Prelude.{
  ℕ, ◌+◌, Text, Bool, true, false, not, ◌&&◌, ◌||◌, Option, none, some, is_some, List, [], ◌∷◌,
  ◌++◌, ◌==◌, length, text_eq, if◌then◌else◌,
}
use luaml.Prelude.Outcome.{Outcome, ok, err, ◌>>=◌}
use luaml.Types.{Float, FieldMap, empty, entry}
use luaml.Pattern.{Fields, elem}
use luaml.Pattern.Chars.{Unicode}
use luaml.Matching.{match_field_value, match_fields}
use luaml.Guard.Eval.{evaluate_guard}
use luaml.Clause.{Clause, Script, LuamlError}
use luaml.Frontmatter.File.{parse_luaml}
use luaml.Frontmatter.Merge.{find_field}
use luaml.Paths.{path_eq}

pub record ScriptRegistry : Type 0 where
  pub scripts : List Script

pub record ClauseMatch (F : Type 0) : Type 0 where
  pub script : Script
  pub clause : Clause
  pub bindings : FieldMap F

pub record QueryResult : Type 0 where
  pub script : Script
  pub clause_index : ℕ
  pub clause : Clause

-- `register`.
unfoldable pub push_script : ScriptRegistry → Script → ScriptRegistry
push_script r script = record { scripts = r.scripts ++ script ∷ [] }

-- `Vec::retain`, on the scripts from other paths.
unfoldable pub retain_other : Text → List Script → List Script
retain_other path [] = []
retain_other path (s ∷ ss) =
    let rest = retain_other path ss in if path_eq s.source_path path then rest else s ∷ rest

unfoldable pub unregister : ScriptRegistry → Text → ScriptRegistry × Bool
unfolding retain_other
unregister r path =
    let kept = retain_other path r.scripts in
    (record { scripts = kept }, not (length kept == length r.scripts))

unfoldable pub clear : ScriptRegistry → ScriptRegistry
clear r = record { scripts = [] }

-- A script that does not parse leaves the registry as it was.
unfoldable pub register_parsed :
    ScriptRegistry → Outcome LuamlError Script → ScriptRegistry × Outcome LuamlError (Unit {0})
unfolding push_script
register_parsed r (ok script) = (push_script r script, ok tt)
register_parsed r (err e) = (r, err e)
register_parsed r Outcome.panic = (r, Outcome.panic)
register_parsed r Outcome.out_of_fuel = (r, Outcome.out_of_fuel)

module _ ⦃u : Unicode⦄ where
  unfoldable pub register_text :
      ScriptRegistry → Text → Text → ScriptRegistry × Outcome LuamlError (Unit {0})
  unfolding register_parsed parse_luaml
  register_text r source_path text = register_parsed r (parse_luaml source_path text)

  unfoldable pub replace : ScriptRegistry → Text → Text → ScriptRegistry × Outcome LuamlError Bool
  unfolding unregister register_text
  replace r source_path text =
      let (r', replaced) = unregister r source_path in
      let (r'', result) = register_text r' source_path text in (r'', (result >>= λ _. ok replaced))

-- `s.extension.as_deref() == Some(name)`.
abbrev pub declares : Text → Script → Bool
declares name s = elim s.extension [ none ↦ false | some e ↦ text_eq e name ]

unfoldable pub filter_extension : Text → List Script → List Script
filter_extension name [] = []
filter_extension name (s ∷ ss) =
    let rest = filter_extension name ss in if declares name s then s ∷ rest else rest

unfoldable pub scripts_for_extension : ScriptRegistry → Text → List Script
unfolding filter_extension
scripts_for_extension r name = filter_extension name r.scripts

unfoldable pub any_extension : Text → List Script → Bool
any_extension name [] = false
any_extension name (s ∷ ss) = declares name s || any_extension name ss

unfoldable pub has_extension : ScriptRegistry → Text → Bool
unfolding any_extension
has_extension r name = any_extension name r.scripts

-- One round of the loop of `extension_names`.
abbrev pub add_name : List Text → Option Text → List Text
add_name names none = names
add_name names (some e) = if elem e names then names else names ++ e ∷ []

unfoldable pub names_loop : List Text → List Script → List Text
unfolding elem
names_loop names [] = names
names_loop names (s ∷ ss) = names_loop (add_name names s.extension) ss

unfoldable pub extension_names : ScriptRegistry → List Text
unfolding names_loop
extension_names r = names_loop [] r.scripts

module _ {F : Type 0} where
  -- The loop over the entries of the query, in the order of its iteration.
  unfoldable pub subset_matches : FieldMap F → Fields → Bool
  unfolding find_field match_field_value
  subset_matches empty pattern_fields = true
  subset_matches (entry query_field query_value rest) pattern_fields =
      elim (find_field query_field pattern_fields) [
        | none ↦ false
        | some p ↦ is_some (match_field_value p query_value) && subset_matches rest pattern_fields
      ]

  unfoldable pub query_clauses : FieldMap F → Script → ℕ → List Clause → List QueryResult
  unfolding subset_matches
  query_clauses query script i [] = []
  query_clauses query script i (c ∷ cs) =
      let rest = query_clauses query script (i + 1) cs in
      if subset_matches query c.policy.fields
      then record { script = script; clause_index = i; clause = c } ∷ rest
      else rest

  unfoldable pub query_scripts : FieldMap F → List Script → List QueryResult
  unfolding query_clauses
  query_scripts query [] = []
  query_scripts query (s ∷ ss) = query_clauses query s 0 s.clauses ++ query_scripts query ss

  unfoldable pub query_subset : ScriptRegistry → FieldMap F → List QueryResult
  unfolding query_scripts
  query_subset r query = query_scripts query r.scripts

module _ {F : Type 0} ⦃fl : Float F⦄ where
  -- A guard passes only if it evaluates to true: an error counts as no match.
  unfoldable pub guard_passes : Option Text → FieldMap F → Bool
  unfolding evaluate_guard
  guard_passes none bindings = true
  guard_passes (some guard_expr) bindings = elim (evaluate_guard guard_expr bindings) [
    | ok b ↦ b
    | _ ↦ false
  ]

  -- The bindings under which a clause fires.
  unfoldable pub try_clause : Clause → FieldMap F → Option (FieldMap F)
  unfolding match_fields guard_passes
  try_clause clause event = elim (match_fields clause.policy.fields event) [
    | none ↦ none
    | some bindings ↦ if guard_passes clause.guard bindings then some bindings else none
  ]

  unfoldable pub first_clause_of : Script → List Clause → FieldMap F → Option (ClauseMatch F)
  unfolding try_clause
  first_clause_of script [] event = none
  first_clause_of script (c ∷ cs) event = elim (try_clause c event) [
    | some b ↦ some (record { script = script; clause = c; bindings = b })
    | none ↦ first_clause_of script cs event
  ]

  unfoldable pub match_first_clause : Script → FieldMap F → Option (ClauseMatch F)
  unfolding first_clause_of
  match_first_clause script event = first_clause_of script script.clauses event

  unfoldable pub match_scripts : List Script → FieldMap F → List (ClauseMatch F)
  unfolding match_first_clause
  match_scripts [] event = []
  match_scripts (s ∷ ss) event = elim (match_first_clause s event) [
    | none ↦ match_scripts ss event
    | some m ↦ m ∷ match_scripts ss event
  ]

  unfoldable pub match_clauses : ScriptRegistry → FieldMap F → List (ClauseMatch F)
  unfolding match_scripts
  match_clauses r event = match_scripts r.scripts event
