-- ===== src/Samples/Guard.antt =====
-- Guards on sample bindings.
use luaml.Prelude.{ℕ, ◌≡◌, refl, codes, text_eq, true, false}
use luaml.Prelude.Int.{pos}
use luaml.Prelude.Outcome.{ok, err, Ends}
use luaml.Types.{FieldMap, empty, entry, number, string}
use luaml.Pattern.Number.{magnitude}
use luaml.Guard.Token.{unterminated_string}
use luaml.Guard.Eval.{evaluate_guard}
use luaml.Guard.Total.{evaluate_guard-Ends}
use luaml.Samples.{nat_float}

abbrev bindings : FieldMap ℕ
bindings =
    entry (codes "depth") (number (pos 2)) (entry (codes "phase") (string (codes "planning")) empty)

guard_holds : evaluate_guard (codes "depth >= 1 and not (phase == \"idle\")") bindings ≡ ok true
unfolding evaluate_guard magnitude text_eq
guard_holds = refl

guard_fails : evaluate_guard (codes "depth > 2 or missing") bindings ≡ ok false
unfolding evaluate_guard magnitude text_eq
guard_fails = refl

guard_error : evaluate_guard (codes "phase == \"idle") bindings ≡ err unterminated_string
unfolding evaluate_guard magnitude text_eq
guard_error = refl

evaluate_guard-Ends_example : Ends (evaluate_guard (codes "depth >= (1") bindings)
evaluate_guard-Ends_example = evaluate_guard-Ends (codes "depth >= (1") bindings
