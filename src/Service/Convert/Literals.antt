-- ===== src/Service/Convert/Literals.antt =====
-- The patterns that a client can give to an API binding.
use luaml.Prelude.{
  ◌≡◌, refl, ap, sym, Text, Bool, true, false, none, some, ◌⊎◌, ◌↔◌, inl, inr, text_eq, text_eq_iff,
  text_eq_refl, if◌then◌else◌, Bool-cases, arith,
}
use luaml.Prelude.Int.{ℤ, int_eq_iff}
use luaml.Types.{FieldValue, FieldMap, enum, string, number, float, bool, list, map, null}
use luaml.Pattern.{Pattern}
use luaml.Matching.{match_field_value, global_enum, bind_nothing}
use luaml.Service.Convert.{field_value_to_pattern}

-- The value is the literal itself, or any other name of an enum under `:global:`.
abbrev pub Same : {F : Type 0} → FieldValue F → FieldValue F → Type 0
Same v w = (w ≡ v) ⊎ ((v ≡ enum global_enum) × ((name : Text) × (w ≡ enum name)))

abbrev Accepts : {F : Type 0} → FieldValue F → Pattern → FieldValue F → Type 0
Accepts v p w = (match_field_value p w ≡ some FieldMap.empty) ↔ Same v w

abbrev enum_name : {F : Type 0} → Text → FieldValue F → Text
enum_name other (enum s) = s
enum_name other _ = other

enum-inj : {F : Type 0} (s t : Text) → ◌≡◌ {A = FieldValue F} (enum s) (enum t) → s ≡ t
enum-inj s t h = ap (enum_name s) h

other_enum :
    {F : Type 0} (s t : Text)
    → text_eq s global_enum ≡ false
    → (bind_nothing {F = F} (text_eq s t) ≡ some FieldMap.empty) ↔ Same {F = F} (enum s) (enum t)
other_enum s t g = elim (Bool-cases (text_eq s t)) [
  | inl e ↦ rw (e, bind_nothing) (λ h. inl (ap enum (sym ((text_eq_iff s t).0 e))), λ h. refl)
  | inr e ↦
      rw (e, bind_nothing)
        (
          λ h. cc,
          λ h. elim h [
            | inl q ↦ cc (rw (enum-inj t s q, text_eq_refl s) at e)
            | inr q ↦ cc (rw (enum-inj s global_enum q.0, text_eq_refl global_enum) at g)
          ],
        )
]

enum-Accepts : {F : Type 0} (s : Text) (w : FieldValue F) → Accepts (enum s) (Pattern.enum s) w
unfolding match_field_value
enum-Accepts {F} s (enum t) = elim (Bool-cases (text_eq s global_enum)) [
  | inl g ↦
      rw (g, if◌then◌else◌)
        (λ h. inr (ap enum ((text_eq_iff s global_enum).0 g), (t, refl)), λ h. refl)
  | inr g ↦ rw (g, if◌then◌else◌) (other_enum s t g)
]
enum-Accepts s (string t) = ground arith
enum-Accepts s (number n) = ground arith
enum-Accepts s (float x) = ground arith
enum-Accepts s (bool b) = ground arith
enum-Accepts s (list xs) = ground arith
enum-Accepts s (map m) = ground arith
enum-Accepts s null = ground arith

string-Accepts :
    {F : Type 0} (s : Text) (w : FieldValue F) → Accepts (string s) (Pattern.string_literal s) w
unfolding match_field_value
string-Accepts s (string t) = ground (arith, text_eq_iff s t)
string-Accepts s (enum t) = ground arith
string-Accepts s (number n) = ground arith
string-Accepts s (float x) = ground arith
string-Accepts s (bool b) = ground arith
string-Accepts s (list xs) = ground arith
string-Accepts s (map m) = ground arith
string-Accepts s null = ground arith

number-Accepts :
    {F : Type 0} (n : ℤ) (w : FieldValue F) → Accepts (number n) (Pattern.number_literal n) w
unfolding match_field_value
number-Accepts s (number n) = ground (arith, int_eq_iff s n)
number-Accepts s (enum t) = ground arith
number-Accepts s (string t) = ground arith
number-Accepts s (float x) = ground arith
number-Accepts s (bool b) = ground arith
number-Accepts s (list xs) = ground arith
number-Accepts s (map m) = ground arith
number-Accepts s null = ground arith

bool-Accepts :
    {F : Type 0} (b : Bool) (w : FieldValue F) → Accepts (bool b) (Pattern.bool_literal b) w
unfolding match_field_value
bool-Accepts true (bool true) = ground arith
bool-Accepts true (bool false) = ground arith
bool-Accepts false (bool true) = ground arith
bool-Accepts false (bool false) = ground arith
bool-Accepts b (number n) = ground arith
bool-Accepts b (enum t) = ground arith
bool-Accepts b (string t) = ground arith
bool-Accepts b (float x) = ground arith
bool-Accepts b (list xs) = ground arith
bool-Accepts b (map m) = ground arith
bool-Accepts b null = ground arith

-- The values that stand for a pattern.
abbrev pub Literal : {F : Type 0} → FieldValue F → Type 0
Literal (enum s) = Unit
Literal (string s) = Unit
Literal (number n) = Unit
Literal (bool b) = Unit
Literal _ = ⊥

-- Every literal, an enum, a string, a number or a Boolean, stands for a pattern, which accepts,
-- binding nothing, exactly that value, only that of the enum `global` accepts every enum; no other
-- value stands for a pattern.
pub field_value_to_pattern-match :
    {F : Type 0} (v w : FieldValue F)
    → (Literal v
        × (p : Pattern) × (field_value_to_pattern v ≡ some p)
        × ((match_field_value p w ≡ some FieldMap.empty) ↔ Same v w))
      ⊎ ((¬ (Literal v)) × (field_value_to_pattern v ≡ none))
unfolding field_value_to_pattern
field_value_to_pattern-match (enum s) w = inl (tt, Pattern.enum s, refl, enum-Accepts s w)
field_value_to_pattern-match (string s) w =
    inl (tt, Pattern.string_literal s, refl, string-Accepts s w)
field_value_to_pattern-match (number n) w =
    inl (tt, Pattern.number_literal n, refl, number-Accepts n w)
field_value_to_pattern-match (bool b) w = inl (tt, Pattern.bool_literal b, refl, bool-Accepts b w)
field_value_to_pattern-match (float s) w = inr (λ h. h, refl)
field_value_to_pattern-match (list s) w = inr (λ h. h, refl)
field_value_to_pattern-match (map s) w = inr (λ h. h, refl)
field_value_to_pattern-match null w = inr (λ h. h, refl)
