-- ===== src/Samples/Stdlib.antt =====
-- The routines of the standard library at sample data.
use luaml.Prelude.{
  ◌↔◌, zero, suc, ℕ, ◌+◌, ◌-◌, ◌*◌, ◌≤◌, ◌≡◌, refl, Text, codes, List, [], ◌∷◌, text_eq, length,
  arith,
}
use luaml.Paths.{components, parent_dir, normal}
use luaml.Stdlib.Url.{Bytes, encode_component, decode_component}
use luaml.Stdlib.Url.RoundTrip.{AllSafe, decode_component-encode_component}
use luaml.Stdlib.Path.{normalize_lexical, is_absolute, relative}
use luaml.Stdlib.Path.Normal.{lead}
use luaml.Stdlib.Path.Tidy.{IsNormal, normalize_lexical-IsNormal}
use luaml.Stdlib.Path.Relative.{relative-lead}
use luaml.Prelude.Int.{pos}
use luaml.Prelude.Outcome.{ok, err}
use luaml.Stdlib.Vec.{
  Table, Entry, Arithmetic, integer, number, other, not_a_number, dim_mismatch, expected_list,
  cross_requires, to_vec, add, dot, cross,
}
use luaml.Stdlib.Vec.Entries.{IsVector, to_vec_iff}
use luaml.Samples.{nat_float}

abbrev accented : Bytes
accented = b'a' ∷ b'%' ∷ b'/' ∷ 195 ∷ 169 ∷ []

decode_component-encode_component_example :
    (decode_component (encode_component accented) ≡ accented)
    × AllSafe (encode_component accented)
    × (length (encode_component accented) ≤ 3 * length accented)
decode_component-encode_component_example = decode_component-encode_component accented (omega arith)

abbrev winding : Text
winding = codes "../a/./b//../../.."

normalize_lexical-IsNormal_example :
    IsNormal (normalize_lexical (components winding))
    × ((dir : List Text)
        → lead dir (normalize_lexical (components winding)) ≡ lead dir (components winding))
    × (normalize_lexical (normalize_lexical (components winding))
        ≡ normalize_lexical (components winding))
normalize_lexical-IsNormal_example = normalize_lexical-IsNormal winding

winding_ups : normalize_lexical (components winding) ≡ parent_dir ∷ parent_dir ∷ []
unfolding normalize_lexical components text_eq
winding_ups = refl

abbrev root_dirs : List Text
root_dirs = []

relative-lead_example :
    lead
      (lead root_dirs (components (codes "/a/./b")))
      (relative (components (codes "/a/./b")) (components (codes "/a/c")))
    ≡ lead root_dirs (components (codes "/a/c"))
relative-lead_example =
    relative-lead root_dirs (codes "/a/./b") (codes "/a/c")
      (unfold normalize_lexical components text_eq in tt)
      (unfold normalize_lexical is_absolute components text_eq in refl)

-- From a dot, the path to a name leads out of the directory first.
dot_relative :
    relative (components (codes ".")) (components (codes "a"))
    ≡ parent_dir ∷ normal (codes "a") ∷ []
unfolding relative components text_eq
dot_relative = refl

-- Whole numbers stand for floats.
abbrev total : List ℕ → ℕ
total [] = 0
total (n ∷ ns) = n + total ns

instance abbrev nat_arithmetic : Arithmetic ℕ
nat_arithmetic = record {
  add = λ a b. a + b;
  sub = λ a b. a - b;
  mul = λ a b. a * b;
  div = λ a b. a;
  sqrt = λ a. a;
  sum = total;
}

abbrev two_entries : ℕ → Entry ℕ
two_entries (suc zero) = integer (pos 3)
two_entries (suc (suc zero)) = number 4
two_entries _ = other

abbrev point : Table ℕ
point = record { keys = integer (pos 1) ∷ integer (pos 2) ∷ []; raw_len = 2; raw_get = two_entries }

-- An entry under the key 7 only, which the length does not reach.
abbrev stray : Table ℕ
stray = record { keys = integer (pos 7) ∷ []; raw_len = 0; raw_get = λ i. integer (pos 1) }

-- A string key, and a third entry that is no number.
abbrev named : Table ℕ
named = record { keys = other ∷ []; raw_len = 0; raw_get = λ i. other }

abbrev broken : Table ℕ
broken = record { keys = []; raw_len = 3; raw_get = two_entries }

to_vec_iff_example : (to_vec point ≡ ok (3 ∷ 4 ∷ [])) ↔ IsVector point (3 ∷ 4 ∷ [])
to_vec_iff_example = to_vec_iff point (3 ∷ 4 ∷ [])

point_read : to_vec point ≡ ok (3 ∷ 4 ∷ [])
unfolding to_vec
point_read = refl

stray_passed_over : to_vec stray ≡ ok []
unfolding to_vec
stray_passed_over = refl

named_refused : to_vec named ≡ err expected_list
unfolding to_vec
named_refused = refl

broken_refused : to_vec broken ≡ err (not_a_number 3)
unfolding to_vec
broken_refused = refl

point_added : add point point ≡ ok (6 ∷ 8 ∷ [])
unfolding add
point_added = refl

square_of_point : dot point point ≡ ok 25
unfolding dot
square_of_point = refl

dims_differ : dot point stray ≡ err (dim_mismatch 2 0)
unfolding dot
dims_differ = refl

plane_crossed : cross point point ≡ err (cross_requires 2 2)
unfolding cross
plane_crossed = refl
