-- ===== src/Samples/Matching.antt =====
-- Matching on sample events.
use luaml.Prelude.{ℕ, ◌≡◌, refl, ◌↔◌, codes, text_eq, none, some, is_some}
use luaml.Prelude.Int.{pos}
use luaml.Types.{FieldValue, FieldMap, empty, entry, get, list, number, nil, cons}
use luaml.Pattern.{elem, collect_variables, pin, field, no_fields}
use luaml.Matching.{match_field_value, match_fields}
use luaml.Matching.Fits.{Fits, Anything, AllBound, match_complete, match_iff}
use luaml.Matching.Domain.{bound-match}
use luaml.Matching.Policy.{match_fields-pin, has_pin}
use luaml.Samples.{numbers, event, args_pattern, policy}

abbrev rest_numbers : FieldValue ℕ
rest_numbers = list (cons (number (pos 2)) (cons (number (pos 3)) nil))

abbrev args_bindings : FieldMap ℕ
args_bindings = entry (codes "first") (number (pos 1)) (entry (codes "rest") rest_numbers empty)

args_match : match_field_value args_pattern (list numbers) ≡ some args_bindings
unfolding match_field_value text_eq
args_match = refl

policy_match : match_fields policy event ≡ some args_bindings
unfolding match_fields text_eq
policy_match = refl

match_complete_example :
    (b : FieldMap ℕ) × (match_field_value args_pattern (list numbers) ≡ some b)
    × AllBound Anything b
match_complete_example =
    match_complete Anything args_pattern (list numbers) (unfold Fits in (tt, tt))

match_iff_example :
    ((b : FieldMap ℕ) × (match_field_value args_pattern (list numbers) ≡ some b))
    ↔ Fits Anything args_pattern (list numbers)
match_iff_example = match_iff args_pattern (list numbers)

bound-match_example :
    is_some (get args_bindings (codes "rest"))
    ≡ elem (codes "rest") (collect_variables args_pattern)
bound-match_example =
    bound-match args_pattern (list numbers) args_bindings args_match (codes "rest")

match_fields-pin_example :
    match_fields (field (codes "id") (pin (codes "saved")) no_fields) event ≡ none
match_fields-pin_example =
    match_fields-pin (field (codes "id") (pin (codes "saved")) no_fields) event
      (unfold has_pin in refl)
