-- ===== src/Matching/Fits.antt =====
-- What it means for a value to fit a pattern, said without an algorithm, and `match_field_value`
-- against it.
use luaml.Prelude.{
  Text, Bool, true, false, Option, some, text_eq, text_eq_iff, ◌≡◌, refl, ◌⊎◌, inl, inr, ◌↔◌, arith,
  Bool-cases, ◌==◌, ==_refl, ==_iff, if◌then◌else◌,
}
use luaml.Prelude.Int.{int_eq_iff}
use luaml.Prelude.Maybe.{>>=-eq-some, if_some}
use luaml.Types.{FieldValue, Values, FieldMap, nil, cons, get, insert, extend}
use luaml.Pattern.{
  Pattern, ListPattern, Patterns, Fields, wildcard, enum, string_literal, number_literal,
  bool_literal, variable, list, map, head_tail, elements, no_patterns, pattern_cons, no_fields,
  field,
}
use luaml.Matching.{
  global_enum, match_field_value, match_list, match_elements, match_map, count_patterns,
  count_values, bind_nothing, bool_eq,
}

-- `R x w` says that the variable `x` may stand for `w`.
unfoldable mutual
  pub Fits : {F : Type 0} → (Text → FieldValue F → Type 0) → Pattern → FieldValue F → Type 0
  Fits R wildcard v = Unit
  Fits R (enum s) (FieldValue.enum t) = (s ≡ global_enum) ⊎ (s ≡ t)
  Fits R (string_literal s) (FieldValue.string t) = s ≡ t
  Fits R (number_literal m) (FieldValue.number n) = m ≡ n
  Fits R (bool_literal b) (FieldValue.bool c) = b ≡ c
  Fits R (variable x) v = R x v
  Fits R (list lp) v = FitsList R lp v
  Fits R (map fs) (FieldValue.map obj) = FitsMap R fs obj
  Fits R _ v = ⊥

  pub FitsList : {F : Type 0} → (Text → FieldValue F → Type 0) → ListPattern → FieldValue F → Type 0
  FitsList R ListPattern.empty (FieldValue.list nil) = Unit
  FitsList R (head_tail h t) (FieldValue.list (cons x xs)) =
      Fits R h x × Fits R t (FieldValue.list xs)
  FitsList R (elements ps) (FieldValue.list xs) = FitsElements R ps xs
  FitsList R _ _ = ⊥

  pub FitsElements : {F : Type 0} → (Text → FieldValue F → Type 0) → Patterns → Values F → Type 0
  FitsElements R no_patterns nil = Unit
  FitsElements R (pattern_cons p ps) (cons x xs) = Fits R p x × FitsElements R ps xs
  FitsElements R _ _ = ⊥

  pub FitsMap : {F : Type 0} → (Text → FieldValue F → Type 0) → Fields → FieldMap F → Type 0
  FitsMap {F} R no_fields obj = Unit
  FitsMap {F} R (field k p fs) obj =
      ((v : FieldValue F) × (get obj k ≡ some v) × Fits R p v) × FitsMap R fs obj

-- Every entry of a binding map satisfies `R`.
abbrev pub AllBound : {F : Type 0} → (Text → FieldValue F → Type 0) → FieldMap F → Type 0
AllBound R FieldMap.empty = Unit
AllBound R (FieldMap.entry k v m) = R k v × AllBound R m

module _ {F : Type 0} (R : Text → FieldValue F → Type 0) where
  AllBound-insert :
      (m : FieldMap F) (k : Text) (v : FieldValue F)
      → AllBound R m
      → R k v
      → AllBound R (insert m k v)
  unfolding insert
  AllBound-insert FieldMap.empty k v h r = (r, tt)
  AllBound-insert (FieldMap.entry j w m) k v h r = elim (Bool-cases (text_eq j k)) [
    | inl e ↦ rw e (rw (← (text_eq_iff j k).0 e) at r, h.1)
    | inr e ↦ rw e (h.0, AllBound-insert m k v h.1 r)
  ]

  AllBound-extend : (m b : FieldMap F) → AllBound R m → AllBound R b → AllBound R (extend m b)
  unfolding extend
  AllBound-extend m FieldMap.empty h g = h
  AllBound-extend m (FieldMap.entry k v b) h g =
      AllBound-extend (insert m k v) b (AllBound-insert m k v h g.0) g.1

  abbrev Succeeds : Option (FieldMap F) → Type 0
  Succeeds r = (b : FieldMap F) × (r ≡ some b) × AllBound R b

  Succeeds-literal : (b : Bool) → b ≡ true → Succeeds (bind_nothing b)
  Succeeds-literal b h = rw h (FieldMap.empty, refl, tt)

  Succeeds-enum :
      (s t : Text)
      → (s ≡ global_enum) ⊎ (s ≡ t)
      → Succeeds (if text_eq s global_enum then bind_nothing true else bind_nothing (text_eq s t))
  Succeeds-enum s t (inl g) = rw ((text_eq_iff s global_enum).1 g) (FieldMap.empty, refl, tt)
  Succeeds-enum s t (inr e) = elim (Bool-cases (text_eq s global_enum)) [
    | inl g ↦ rw g (FieldMap.empty, refl, tt)
    | inr g ↦ rw (g, (text_eq_iff s t).1 e) (FieldMap.empty, refl, tt)
  ]

bool_eq_iff : (b c : Bool) → (bool_eq b c ≡ true) ↔ (b ≡ c)
bool_eq_iff true true = ground arith
bool_eq_iff true false = ground arith
bool_eq_iff false true = ground arith
bool_eq_iff false false = ground arith

count-Fits :
    {F : Type 0} (R : Text → FieldValue F → Type 0) (ps : Patterns) (xs : Values F)
    → FitsElements R ps xs
    → count_values xs ≡ count_patterns ps
unfolding FitsElements count_values count_patterns
count-Fits R no_patterns nil h = refl
count-Fits R no_patterns (cons x xs) h = absurd h
count-Fits R (pattern_cons p ps) nil h = absurd h
count-Fits R (pattern_cons p ps) (cons x xs) h = ground (arith, count-Fits R ps xs h.1)

-- Completeness, by induction on the pattern: a value that fits is matched, and every binding is
-- one that `R` allows.
mutual
  unfolding Fits match_field_value

  complete :
      {F : Type 0} (R : Text → FieldValue F → Type 0) (p : Pattern) (v : FieldValue F)
      → Fits R p v
      → Succeeds R (match_field_value p v)
  complete R wildcard v h = (FieldMap.empty, refl, tt)
  complete R (enum s) (FieldValue.enum t) h = Succeeds-enum R s t h
  complete R (string_literal s) (FieldValue.string t) h =
      Succeeds-literal R _ ((text_eq_iff s t).1 h)
  complete R (number_literal m) (FieldValue.number n) h =
      Succeeds-literal R _ ((int_eq_iff m n).1 h)
  complete R (bool_literal b) (FieldValue.bool c) h = Succeeds-literal R _ ((bool_eq_iff b c).1 h)
  complete R (variable x) v h = (FieldMap.entry x v FieldMap.empty, refl, (h, tt))
  complete R (list lp) v h = complete_list R lp v h
  complete R (map fs) (FieldValue.map obj) h = complete_map R fs obj FieldMap.empty h tt
  complete R _ v h = absurd h

  complete_list :
      {F : Type 0} (R : Text → FieldValue F → Type 0) (lp : ListPattern) (v : FieldValue F)
      → FitsList R lp v
      → Succeeds R (match_list lp v)
  complete_list R ListPattern.empty (FieldValue.list nil) h = (FieldMap.empty, refl, tt)
  complete_list R (head_tail p q) (FieldValue.list (cons x xs)) h =
      let (b, e, a) = complete R p x h.0 in
      let (b', e', a') = complete R q (FieldValue.list xs) h.1 in
      (extend b b', rw (e, e'), AllBound-extend R b b' a a')
  complete_list R (elements ps) (FieldValue.list xs) h =
      rw (count-Fits R ps xs h, ==_refl) (complete_elements R ps xs FieldMap.empty h tt)
  complete_list R _ _ h = absurd h

  complete_elements :
      {F : Type 0} (R : Text → FieldValue F → Type 0) (ps : Patterns) (xs : Values F)
      (m : FieldMap F)
      → FitsElements R ps xs
      → AllBound R m
      → Succeeds R (match_elements ps xs m)
  complete_elements R no_patterns nil m h a = (m, refl, a)
  complete_elements R (pattern_cons p ps) (cons x xs) m h a =
      let (b, e, c) = complete R p x h.0 in
      rw e (complete_elements R ps xs (extend m b) h.1 (AllBound-extend R m b a c))
  complete_elements R _ _ m h a = absurd h

  complete_map :
      {F : Type 0} (R : Text → FieldValue F → Type 0) (fs : Fields) (obj m : FieldMap F)
      → FitsMap R fs obj
      → AllBound R m
      → Succeeds R (match_map fs obj m)
  complete_map R no_fields obj m h a = (m, refl, a)
  complete_map R (field k p fs) obj m ((v, g, f), h) a =
      let (b, e, c) = complete R p v f in
      rw (g, e) (complete_map R fs obj (extend m b) h (AllBound-extend R m b a c))

-- Any value may stand for a variable.
abbrev pub Anything : {F : Type 0} → Text → FieldValue F → Type 0
Anything x w = Unit {0}

bind_nothing→true : {F : Type 0} (c : Bool) (b : FieldMap F) → bind_nothing c ≡ some b → c ≡ true
bind_nothing→true true b h = refl
bind_nothing→true false b h = cc

enum_sound :
    {F : Type 0} (s t : Text) (b : FieldMap F)
    → (if text_eq s global_enum then bind_nothing true else bind_nothing (text_eq s t)) ≡ some b
    → (s ≡ global_enum) ⊎ (s ≡ t)
enum_sound s t b h = elim (Bool-cases (text_eq s global_enum)) [
  | inl g ↦ inl ((text_eq_iff s global_enum).0 g)
  | inr g ↦ inr ((text_eq_iff s t).0 (bind_nothing→true _ b (rw g at h)))
]

-- Soundness: what is matched has the shape of the pattern.
mutual
  unfolding Fits match_field_value

  sound :
      {F : Type 0} (p : Pattern) (v : FieldValue F) (b : FieldMap F)
      → match_field_value p v ≡ some b
      → Fits Anything p v
  sound wildcard v b h = tt
  sound (enum s) (FieldValue.enum t) b h = enum_sound s t b h
  sound (string_literal s) (FieldValue.string t) b h = (text_eq_iff s t).0 (bind_nothing→true _ b h)
  sound (number_literal m) (FieldValue.number n) b h = (int_eq_iff m n).0 (bind_nothing→true _ b h)
  sound (bool_literal c) (FieldValue.bool d) b h = (bool_eq_iff c d).0 (bind_nothing→true _ b h)
  sound (variable x) v b h = tt
  sound (list lp) v b h = sound_list lp v b h
  sound (map fs) (FieldValue.map obj) b h = sound_map fs obj FieldMap.empty b h
  sound _ v b h = cc

  sound_list :
      {F : Type 0} (lp : ListPattern) (v : FieldValue F) (b : FieldMap F)
      → match_list lp v ≡ some b
      → FitsList Anything lp v
  sound_list ListPattern.empty (FieldValue.list nil) b h = tt
  sound_list (head_tail p q) (FieldValue.list (cons x xs)) b h =
      let (b₁, e₁, h₁) = >>=-eq-some (match_field_value p x) _ h in
      let (b₂, e₂, h₂) = >>=-eq-some (match_field_value q (FieldValue.list xs)) _ h₁ in
      (sound p x b₁ e₁, sound q (FieldValue.list xs) b₂ e₂)
  sound_list (elements ps) (FieldValue.list xs) b h =
      let (same, h') = if_some (count_values xs == count_patterns ps) h in
      sound_elements ps xs FieldMap.empty b ((==_iff (count_values xs) (count_patterns ps)).0 same)
        h'
  sound_list _ _ b h = cc

  sound_elements :
      {F : Type 0} (ps : Patterns) (xs : Values F) (m b : FieldMap F)
      → count_values xs ≡ count_patterns ps
      → match_elements ps xs m ≡ some b
      → FitsElements Anything ps xs
  sound_elements no_patterns nil m b n h = tt
  sound_elements (pattern_cons p ps) (cons x xs) m b n h =
      let (b₁, e₁, h₁) = >>=-eq-some (match_field_value p x) _ h in
      (sound p x b₁ e₁, sound_elements ps xs (extend m b₁) b (omega arith) h₁)
  sound_elements no_patterns (cons x xs) m b n h = absurd (omega arith)
  sound_elements (pattern_cons p ps) nil m b n h = absurd (omega arith)

  sound_map :
      {F : Type 0} (fs : Fields) (obj m b : FieldMap F)
      → match_map fs obj m ≡ some b
      → FitsMap Anything fs obj
  sound_map no_fields obj m b h = tt
  sound_map (field k p fs) obj m b h =
      let (v, g, h₁) = >>=-eq-some (get obj k) _ h in
      let (b₁, e₁, h₂) = >>=-eq-some (match_field_value p v) _ h₁ in
      ((v, g, sound p v b₁ e₁), sound_map fs obj (extend m b₁) b h₂)

-- A value that fits a pattern is matched, and every binding is one that the fit allows.
pub match_complete :
    {F : Type 0} (R : Text → FieldValue F → Type 0) (p : Pattern) (v : FieldValue F)
    → Fits R p v
    → (b : FieldMap F) × (match_field_value p v ≡ some b) × AllBound R b
match_complete = complete

-- `match_field_value` succeeds exactly on the values that have the shape of the pattern.
pub match_iff :
    {F : Type 0} (p : Pattern) (v : FieldValue F)
    → ((b : FieldMap F) × (match_field_value p v ≡ some b)) ↔ Fits Anything p v
match_iff p v = (λ (b, e). sound p v b e, λ f. let (b, e, _) = complete Anything p v f in (b, e))
