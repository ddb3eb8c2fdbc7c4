-- ===== src/Samples.antt =====
-- Sample data for the tests and examples: floats that are numbers, Unicode tables that are ASCII,
-- and a Lua VM that answers by a table.
pub mod Matching
pub mod Guard
pub mod Engine
pub mod Parse
pub mod Frontmatter
pub mod Bindings
pub mod Registry
pub mod Files
pub mod Watcher
pub mod Service
pub mod Stdlib
use luaml.Prelude.{
  ℕ, ◌<◌, ◌≡◌, refl, Text, codes, Bool, true, false, ◌||◌, ◌&&◌, Option, none, some, List, [], ◌∷◌,
  compare, Ordering, ◌==◌, leb, is_ascii_digit, is_ascii_alphabetic, is_whitespace, text_eq,
  if◌then◌else◌, arith,
}
use luaml.Prelude.Int.{ℤ, pos, negsuc}
use luaml.Types.{
  Float, FieldValue, FieldMap, Values, nil, cons, empty, entry, enum, string, number, list, map,
}
use luaml.Pattern.{
  Pattern, Fields, Patterns, ListPattern, variable, no_fields, field, head_tail, elements,
  no_patterns, pattern_cons,
}
use luaml.Pattern.Chars.{Unicode}
use luaml.Pattern.Number.{magnitude}
use luaml.Clause.{Clause, Script}
use luaml.Engine.Api.{Vm, emitted, failed, BodyResult}

abbrev pub as_nat : ℤ → ℕ
as_nat (pos n) = n
as_nat (negsuc n) = 0

instance abbrev pub nat_float : Float ℕ
nat_float = record {
  from_i64 = as_nat;
  parse = magnitude;
  feq = λ a b. a == b;
  partial_cmp = λ a b. some (compare a b);
  zero_float = 0;
  to_bits = λ a. a;
}

abbrev pub ascii_alphanumeric : ℕ → Bool
ascii_alphanumeric c = is_ascii_alphabetic c || is_ascii_digit c

pub not_space : (c : ℕ) → ascii_alphanumeric c ≡ true → is_whitespace c ≡ false
unfolding is_whitespace
not_space c h = ground arith

pub letter : (c : ℕ) → is_ascii_alphabetic c ≡ true → ascii_alphanumeric c ≡ true
letter c h = ground arith

instance abbrev pub ascii : Unicode
ascii = record {
  is_alphabetic = is_ascii_alphabetic;
  is_alphanumeric = ascii_alphanumeric;
  alphabetic_ascii = λ c h. refl;
  alphanumeric_ascii = λ c h. refl;
  whitespace_alphanumeric = not_space;
  alphabetic_alphanumeric = letter;
}

-- {type: :input:, args: [1, 2, 3]}
abbrev pub numbers : Values ℕ
numbers = cons (number (pos 1)) (cons (number (pos 2)) (cons (number (pos 3)) nil))

abbrev pub event : FieldMap ℕ
event = entry (codes "type") (enum (codes "input")) (entry (codes "args") (list numbers) empty)

-- type: :input:, args: [$first | $rest], surface: :global:
abbrev pub args_pattern : Pattern
args_pattern = Pattern.list (head_tail (variable (codes "first")) (variable (codes "rest")))

abbrev pub policy : Fields
policy = field (codes "type") (Pattern.enum (codes "input")) (
    field (codes "args") args_pattern
      (field (codes "surface") (Pattern.enum (codes "global")) no_fields))

abbrev pub clause : Text → Clause
clause source = record {
  policy = record { fields = policy };
  guard = none;
  behavior = record { lua_source = source };
  annotations = [];
  field_annotations = [];
}

abbrev pub script : Text → Text → Script
script path source = record { source_path = path; extension = none; clauses = clause source ∷ [] }

-- A body named `loop` dispatches the event once more, any other fails.
abbrev pub answer : Text → BodyResult ℕ
answer source =
    if text_eq source (codes "loop") then emitted (event ∷ []) else failed (codes "no such body")

abbrev pub vm : Vm (Unit {0}) (Unit {0}) ℕ
vm = record { run = λ l source b api local. (answer source, l) }

-- A VM whose bodies all fail.
abbrev pub failing_vm : Vm (Unit {0}) (Unit {0}) ℕ
failing_vm = record { run = λ l source b api local. (failed source, l) }
