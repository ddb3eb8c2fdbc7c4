-- ===== src/Samples/Engine.antt =====
-- Cascades on sample scripts.
use mathlib.Core.List
use luaml.Prelude.{◌≢◌, true, text_eq_iff, ℕ, ◌≡◌, refl, codes, text_eq, [], ◌∷◌, arith, length}
use luaml.Types.{FieldMap, FieldValue, entry}
use luaml.Registry.{ClauseMatch}
use luaml.Engine.Signature.{sig_pairs_eq, event_signature}
use luaml.Engine.Order.{swap, event_signature-Reordered}
use luaml.Engine.State.{LuamlEngine, with_lua, default_config}
use luaml.Engine.Cascade.{CascadeState, dispatch_inner, dispatch}
use luaml.Engine.Progress.{Progress, dispatch_inner-Progress}
use luaml.Engine.Fuel.{dispatch_inner-fuel}
use luaml.Engine.Siblings.{dispatch_quiet, outcome_key}
use luaml.Registry.InOrder.{InOrder}
use luaml.Samples.{nat_float, vm, failing_vm, event, numbers, script, clause}

abbrev engine : LuamlEngine (Unit {0}) (Unit {0})
engine = record (with_lua tt) {
  registry = record { scripts = script (codes "a") (codes "loop") ∷ script (codes "b") [] ∷ [] };
}

abbrev state : CascadeState (Unit {0}) (Unit {0}) ℕ
state = record { engine = engine; visited = []; budget_remaining = 0; outcomes = [] }

abbrev loop_match : ClauseMatch ℕ
loop_match = record {
  script = script (codes "a") (codes "loop");
  clause = clause (codes "loop");
  bindings = FieldMap.empty;
}

-- The first script runs, its emission is a cycle, and the second script runs.
three_outcomes : length (dispatch vm engine event).1 ≡ 3
unfolding dispatch with_lua text_eq sig_pairs_eq
three_outcomes = refl

dispatch_inner-Progress_example :
    Progress 32 state (dispatch_inner vm default_config 40 3 event state)
dispatch_inner-Progress_example =
    dispatch_inner-Progress vm default_config 40 3 event state (omega arith)

dispatch_inner-fuel_example :
    dispatch_inner vm default_config 33 0 event state
    ≡ dispatch_inner vm default_config 50 0 event state
dispatch_inner-fuel_example =
    dispatch_inner-fuel vm default_config 33 50 0 event state (omega arith) (omega arith)
      (omega arith)

dispatch_quiet_example :
    InOrder event engine.registry.scripts
      (List.map outcome_key (dispatch failing_vm engine event).1)
dispatch_quiet_example =
    dispatch_quiet failing_vm (λ l s b api local. refl) engine event
      (unfold with_lua in omega arith)

-- The same fields in another order, under different keys.
abbrev fields_swapped : FieldMap ℕ
fields_swapped =
    entry (codes "args") (FieldValue.list numbers)
      (entry (codes "type") (FieldValue.enum (codes "input")) FieldMap.empty)

keys_differ : codes "type" ≢ codes "args"
unfolding text_eq
keys_differ e =
    let equal : text_eq (codes "type") (codes "args") ≡ true =
      (text_eq_iff (codes "type") (codes "args")).1 e in
    cc

event_signature-Reordered_example : event_signature event ≡ event_signature fields_swapped
event_signature-Reordered_example = event_signature-Reordered event fields_swapped (
    swap (codes "type") (codes "args") (FieldValue.enum (codes "input")) (FieldValue.list numbers)
      FieldMap.empty keys_differ)
