-- ===== src/Matching/Domain.antt =====
-- Which variables a successful match binds, against `collect_variables`.
use luaml.Prelude.{
  Text, Bool, true, false, some, text_eq, text_eq_iff, ◌≡◌, refl, arith, is_some, ==_iff,
  Option-cases, inl, inr, ◌||◌, List, [], ◌∷◌, ◌++◌, ◌∙◌, if◌then◌else◌, ◌==◌,
}
use luaml.Prelude.Maybe.{>>=-eq-some, if_some, some-inj}
use luaml.Types.{FieldValue, Values, FieldMap, nil, cons, get, insert, extend}
use luaml.Pattern.{
  Pattern, ListPattern, Patterns, Fields, wildcard, enum, string_literal, number_literal,
  bool_literal, variable, list, map, head_tail, elements, no_patterns, pattern_cons, no_fields,
  field, collect_vars_inner, collect_vars_list, collect_vars_elements, collect_vars_fields,
  collect_variables, elem, all_variables,
}
use luaml.Matching.{
  global_enum, match_field_value, match_list, match_elements, match_map, count_patterns,
  count_values, bind_nothing, match_fields, match_fields_loop, is_global_enum,
}

-- Whether the variable `x` stands in a pattern.
unfoldable mutual
  pub occurs : Text → Pattern → Bool
  occurs x (variable y) = text_eq y x
  occurs x (list lp) = occurs_list x lp
  occurs x (map fs) = occurs_fields x fs
  occurs x _ = false

  pub occurs_list : Text → ListPattern → Bool
  occurs_list x (head_tail p q) = occurs x p || occurs x q
  occurs_list x (elements ps) = occurs_elements x ps
  occurs_list x ListPattern.empty = false

  pub occurs_elements : Text → Patterns → Bool
  occurs_elements x no_patterns = false
  occurs_elements x (pattern_cons p ps) = occurs x p || occurs_elements x ps

  pub occurs_fields : Text → Fields → Bool
  occurs_fields x no_fields = false
  occurs_fields x (field k p fs) = occurs x p || occurs_fields x fs

pub or_assoc : (a b c : Bool) → ((a || b) || c) ≡ (a || (b || c))
or_assoc a b c = ground arith

pub or_false : (a : Bool) → (a || false) ≡ a
or_false a = ground arith

pub elem-append : (x : Text) (xs ys : List Text) → elem x (xs ++ ys) ≡ (elem x xs || elem x ys)
unfolding elem
elem-append x [] ys = refl
elem-append x (y ∷ xs) ys = rw (elem-append x xs ys, or_assoc)

single : (x y : Text) (b : Bool) → (b || elem x (y ∷ [])) ≡ (b || text_eq y x)
unfolding elem
single x y b = rw or_false

mutual
  unfolding collect_vars_inner occurs

  elem-collect :
      (x : Text) (p : Pattern) (vars : List Text)
      → elem x (collect_vars_inner p vars) ≡ (elem x vars || occurs x p)
  elem-collect x (variable y) vars = elem-append x vars (y ∷ []) ∙ single x y (elem x vars)
  elem-collect x (list lp) vars = elem-collect_list x lp vars
  elem-collect x (map fs) vars = elem-collect_fields x fs vars
  elem-collect x _ vars = rw or_false

  elem-collect_list :
      (x : Text) (lp : ListPattern) (vars : List Text)
      → elem x (collect_vars_list lp vars) ≡ (elem x vars || occurs_list x lp)
  elem-collect_list x (head_tail p q) vars =
      rw (elem-collect x q (collect_vars_inner p vars), elem-collect x p vars, or_assoc)
  elem-collect_list x (elements ps) vars = elem-collect_elements x ps vars
  elem-collect_list x ListPattern.empty vars = rw or_false

  elem-collect_elements :
      (x : Text) (ps : Patterns) (vars : List Text)
      → elem x (collect_vars_elements ps vars) ≡ (elem x vars || occurs_elements x ps)
  elem-collect_elements x no_patterns vars = rw or_false
  elem-collect_elements x (pattern_cons p ps) vars =
      rw (elem-collect_elements x ps (collect_vars_inner p vars), elem-collect x p vars, or_assoc)

  elem-collect_fields :
      (x : Text) (fs : Fields) (vars : List Text)
      → elem x (collect_vars_fields fs vars) ≡ (elem x vars || occurs_fields x fs)
  elem-collect_fields x no_fields vars = rw or_false
  elem-collect_fields x (field k p fs) vars =
      rw (elem-collect_fields x fs (collect_vars_inner p vars), elem-collect x p vars, or_assoc)

pub elem-collect_variables : (x : Text) (p : Pattern) → elem x (collect_variables p) ≡ occurs x p
unfolding collect_variables elem
elem-collect_variables x p = elem-collect x p []

pub elem-all_variables : (x : Text) (fs : Fields) → elem x (all_variables fs) ≡ occurs_fields x fs
unfolding all_variables elem occurs
elem-all_variables x no_fields = refl
elem-all_variables x (field k p fs) = rw (
  elem-append x (collect_variables p) (all_variables fs),
  elem-collect_variables x p,
  elem-all_variables x fs,
)

module _ {F : Type 0} where
  abbrev pub bound : FieldMap F → Text → Bool
  bound m x = is_some (get m x)

  bound-insert :
      (m : FieldMap F) (k : Text) (v : FieldValue F) (x : Text)
      → bound (insert m k v) x ≡ (bound m x || text_eq k x)
  unfolding get insert
  bound-insert FieldMap.empty k v x = ground arith
  bound-insert (FieldMap.entry j w m) k v x =
      ground (arith, text_eq_iff j k, text_eq_iff j x, text_eq_iff k x, bound-insert m k v x)

  pub bound-extend : (m b : FieldMap F) (x : Text) → bound (extend m b) x ≡ (bound m x || bound b x)
  unfolding extend get
  bound-extend m FieldMap.empty x = rw or_false
  bound-extend m (FieldMap.entry k v b) x =
      ground (arith, bound-insert m k v x, bound-extend (insert m k v) b x)

  bound-nothing :
      (c : Bool) {b : FieldMap F} (x : Text) → bind_nothing c ≡ some b → bound b x ≡ false
  unfolding get
  bound-nothing true x h = rw (← some-inj h)
  bound-nothing false x h = cc

module _ {F : Type 0} where
  bound-enum :
      (g c : Bool) {b : FieldMap F} (x : Text)
      → (if g then bind_nothing true else bind_nothing c) ≡ some b
      → bound b x ≡ false
  bound-enum true c x h = bound-nothing true x h
  bound-enum false c x h = bound-nothing c x h

  bound-single :
      (y : Text) (v : FieldValue F) (x : Text)
      → bound (FieldMap.entry y v FieldMap.empty) x ≡ text_eq y x
  unfolding get
  bound-single y v x = ground arith

global-binds-nothing : (p : Pattern) (x : Text) → is_global_enum p ≡ true → occurs x p ≡ false
unfolding occurs is_global_enum
global-binds-nothing (enum s) x h = refl
global-binds-nothing _ x h = cc

abbrev Binds : {F : Type 0} → FieldMap F → (Text → Bool) → Type 0
Binds b vars = (x : Text) → bound b x ≡ vars x

mutual
  unfolding match_field_value occurs get insert

  domain :
      {F : Type 0} (p : Pattern) (v : FieldValue F) (b : FieldMap F)
      → match_field_value p v ≡ some b
      → Binds b (λ x. occurs x p)
  domain wildcard v b h x = rw (← some-inj h)
  domain (enum s) (FieldValue.enum t) b h x = bound-enum (text_eq s global_enum) (text_eq s t) x h
  domain (string_literal s) (FieldValue.string t) b h x = bound-nothing _ x h
  domain (number_literal m) (FieldValue.number n) b h x = bound-nothing _ x h
  domain (bool_literal c) (FieldValue.bool d) b h x = bound-nothing _ x h
  domain (variable y) v b h x = rw (← some-inj h) (bound-single y v x)
  domain (list lp) v b h x = domain_list lp v b h x
  domain (map fs) (FieldValue.map obj) b h x = domain_map fs obj FieldMap.empty b h x
  domain _ v b h x = cc

  domain_list :
      {F : Type 0} (lp : ListPattern) (v : FieldValue F) (b : FieldMap F)
      → match_list lp v ≡ some b
      → Binds b (λ x. occurs_list x lp)
  domain_list ListPattern.empty (FieldValue.list nil) b h x = rw (← some-inj h)
  domain_list (head_tail p q) (FieldValue.list (cons y ys)) b h x =
      let (b₁, e₁, h₁) = >>=-eq-some (match_field_value p y) _ h in
      let (b₂, e₂, h₂) = >>=-eq-some (match_field_value q (FieldValue.list ys)) _ h₁ in
      rw (← some-inj h₂)
        (rw (bound-extend b₁ b₂ x, domain p y b₁ e₁ x, domain q (FieldValue.list ys) b₂ e₂ x))
  domain_list (elements ps) (FieldValue.list xs) b h x =
      let (same, h') = if_some (count_values xs == count_patterns ps) h in
      domain_elements ps xs FieldMap.empty b ((==_iff (count_values xs) (count_patterns ps)).0 same)
        h' x
  domain_list _ _ b h x = cc

  domain_elements :
      {F : Type 0} (ps : Patterns) (xs : Values F) (m b : FieldMap F)
      → count_values xs ≡ count_patterns ps
      → match_elements ps xs m ≡ some b
      → Binds b (λ x. bound m x || occurs_elements x ps)
  domain_elements no_patterns nil m b n h x = rw (← some-inj h, or_false)
  domain_elements (pattern_cons p ps) (cons y ys) m b n h x =
      let (b₁, e₁, h₁) = >>=-eq-some (match_field_value p y) _ h in
      rw (
        domain_elements ps ys (extend m b₁) b (omega arith) h₁ x,
        bound-extend m b₁ x,
        domain p y b₁ e₁ x,
        or_assoc,
      )
  domain_elements no_patterns (cons y ys) m b n h x = absurd (omega arith)
  domain_elements (pattern_cons p ps) nil m b n h x = absurd (omega arith)

  domain_map :
      {F : Type 0} (fs : Fields) (obj m b : FieldMap F)
      → match_map fs obj m ≡ some b
      → Binds b (λ x. bound m x || occurs_fields x fs)
  domain_map no_fields obj m b h x = rw (← some-inj h, or_false)
  domain_map (field k p fs) obj m b h x =
      let (v, g, h₁) = >>=-eq-some (get obj k) _ h in
      let (b₁, e₁, h₂) = >>=-eq-some (match_field_value p v) _ h₁ in
      rw (domain_map fs obj (extend m b₁) b h₂ x, bound-extend m b₁ x, domain p v b₁ e₁ x, or_assoc)

-- A successful match binds exactly the variables that `collect_variables` lists.
pub bound-match :
    {F : Type 0} (p : Pattern) (v : FieldValue F) (b : FieldMap F)
    → match_field_value p v ≡ some b
    → (x : Text) → is_some (get b x) ≡ elem x (collect_variables p)
bound-match p v b h x = rw (elem-collect_variables x p) (domain p v b h x)

domain_fields :
    {F : Type 0} (fs : Fields) (input m b : FieldMap F)
    → match_fields_loop fs input m ≡ some b
    → Binds b (λ x. bound m x || occurs_fields x fs)
unfolding match_fields_loop occurs
domain_fields no_fields input m b h x = rw (← some-inj h, or_false)
domain_fields (field k p fs) input m b h x = elim (Option-cases (get input k)) [
  | inl absent ↦
      let (g, h') = if_some (is_global_enum p) (rw (absent, match_fields_loop) at h) in
      rw (domain_fields fs input m b h' x, global-binds-nothing p x g)
  | inr (v, present) ↦
      let (b₁, e₁, h₁) =
        >>=-eq-some (match_field_value p v) _ (rw (present, match_fields_loop) at h) in
      rw (
        domain_fields fs input (extend m b₁) b h₁ x,
        bound-extend m b₁ x,
        domain p v b₁ e₁ x,
        or_assoc,
      )
]

-- A policy that matches an event binds exactly the variables of its fields.
bound-match_fields :
    {F : Type 0} (fs : Fields) (input b : FieldMap F)
    → match_fields fs input ≡ some b
    → (x : Text) → is_some (get b x) ≡ elem x (all_variables fs)
unfolding match_fields get
bound-match_fields fs input b h x =
    rw (elem-all_variables x fs) (domain_fields fs input FieldMap.empty b h x)
