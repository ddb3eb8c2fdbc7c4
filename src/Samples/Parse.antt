-- ===== src/Samples/Parse.antt =====
-- The theorems on the pattern parser, and on repeated variables, at samples.
use luaml.Prelude.{Text, ◌≤◌, codes, ◌≡◌, ◌↔◌}
use luaml.Prelude.Outcome.{EnoughFuel, ok}
use luaml.Pattern.Parse.{parse_pattern_value}
use luaml.Pattern.Total.{parse_pattern_value-EnoughFuel}
use luaml.Pattern.{check_duplicate_variables}
use luaml.Pattern.Distinct.{occurrences_fields, check_duplicate_variables_iff}
use luaml.Samples.{ascii, policy}

parse_pattern_value-EnoughFuel_example :
    EnoughFuel (parse_pattern_value (codes "[$x, {k: [1 | _]}]"))
parse_pattern_value-EnoughFuel_example = parse_pattern_value-EnoughFuel (codes "[$x, {k: [1 | _]}]")

check_duplicate_variables_iff_example :
    (check_duplicate_variables policy ≡ ok tt) ↔ ((x : Text) → occurrences_fields x policy ≤ 1)
check_duplicate_variables_iff_example = check_duplicate_variables_iff policy
