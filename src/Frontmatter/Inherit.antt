-- ===== src/Frontmatter/Inherit.antt =====
-- What `merge_fields` and `merge_field_annotations` give for each key.
use luaml.Prelude.{
  ◌≡◌, refl, ap, ◌∙◌, sym, Text, Bool, true, false, Option, none, some, is_some, List, [], ◌∷◌,
  text_eq, text_eq_iff, if◌then◌else◌, Bool-cases, inl, inr, arith,
}
use luaml.Pattern.{Pattern, Fields, no_fields, field}
use luaml.Clause.{Annotations, FieldAnnotations}
use luaml.Frontmatter.Merge.{
  find_field, put_field, merge_fields, assoc_get, assoc_insert, choose_annotations, merge_loop,
  merge_field_annotations,
}

-- The last pattern under a key.
unfoldable pub last_field : Text → Fields → Option Pattern
last_field k no_fields = none
last_field k (field j p fs) = elim (last_field k fs) [
  | some q ↦ some q
  | none ↦ if text_eq j k then some p else none
]

-- The first of two that is there.
abbrev pub or_else : {A : Type 0} → Option A → Option A → Option A
or_else (some a) b = some a
or_else none b = b

text_eq_apart : (i j k : Text) → text_eq i j ≡ false → text_eq i k ≡ true → text_eq j k ≡ false
text_eq_apart i j k e h = elim (Bool-cases (text_eq j k)) [
  | inl g ↦
      let same = (text_eq_iff i k).0 h ∙ sym ((text_eq_iff j k).0 g) in
      let clash = (text_eq_iff i j).1 same in cc
  | inr g ↦ g
]

find-put :
    (k j : Text) (p : Pattern) (fs : Fields)
    → find_field k (put_field fs j p) ≡ (if text_eq j k then some p else find_field k fs)
unfolding find_field put_field
find-put k j p no_fields = refl
find-put k j p (field i q fs) = elim (Bool-cases (text_eq i j)) [
  | inl e ↦ let same = (text_eq_iff i j).0 e in ground arith
  | inr e ↦ elim (Bool-cases (text_eq i k)) [
    | inl h ↦ let apart = text_eq_apart i j k e h in ground arith
    | inr h ↦ ground (arith, find-put k j p fs)
  ]
]

find-merge :
    (k : Text) (base child : Fields)
    → find_field k (merge_fields base child) ≡ or_else (last_field k child) (find_field k base)
unfolding merge_fields last_field
find-merge k base no_fields = refl
find-merge k base (field j p child) =
    let rest = find-merge k (put_field base j p) child in ground (arith, find-put k j p base)

get-insert :
    {V : Type 0} (m : List (Text × V)) (k j : Text) (v : V)
    → assoc_get (assoc_insert m j v) k ≡ (if text_eq j k then some v else assoc_get m k)
unfolding assoc_get assoc_insert
get-insert [] k j v = refl
get-insert ((i, w) ∷ m) k j v = elim (Bool-cases (text_eq i j)) [
  | inl e ↦ let same = (text_eq_iff i j).0 e in ground arith
  | inr e ↦ elim (Bool-cases (text_eq i k)) [
    | inl h ↦ let apart = text_eq_apart i j k e h in ground arith
    | inr h ↦ ground (arith, get-insert m k j v)
  ]
]

get-step :
    (o : Option Annotations) (merged : FieldAnnotations) (j k : Text)
    → assoc_get (elim o [ some a ↦ assoc_insert merged j a | none ↦ merged ]) k
      ≡ (if text_eq j k then or_else o (assoc_get merged k) else assoc_get merged k)
get-step none merged j k = ground arith
get-step (some a) merged j k = get-insert merged k j a

get-step_at :
    (base child merged : FieldAnnotations) (j k : Text)
    → assoc_get
        (elim (choose_annotations base child j) [
          | some a ↦ assoc_insert merged j a
          | none ↦ merged
        ])
        k
      ≡ (if text_eq j k
          then or_else (choose_annotations base child k) (assoc_get merged k)
          else assoc_get merged k)
get-step_at base child merged j k =
    get-step (choose_annotations base child j) merged j k ∙ elim (Bool-cases (text_eq j k)) [
      | inl e ↦ rw ((text_eq_iff j k).0 e) refl
      | inr e ↦ rw e refl
    ]

-- One round more: the key `b` says to be that of the field, `x` what is found after the round.
settle :
    {A : Type 0} (p : Pattern) (f : Option Pattern) (b : Bool) (o y x : Option A)
    → x ≡ (if b then or_else o y else y)
    → (if is_some f then or_else o x else x)
      ≡ (if is_some (if b then some p else f) then or_else o y else y)
settle p none true o y x h = h
settle p none false o y x h = h
settle p (some q) true none y x h = h
settle p (some q) true (some a) y x h = refl
settle p (some q) false o y x h = rw h refl

get-merge_loop :
    (base child : FieldAnnotations) (fs : Fields) (merged : FieldAnnotations) (k : Text)
    → assoc_get (merge_loop base child fs merged) k ≡ (
        if is_some (find_field k fs)
        then or_else (choose_annotations base child k) (assoc_get merged k)
        else assoc_get merged k)
unfolding merge_loop find_field
get-merge_loop base child no_fields merged k = refl
get-merge_loop base child (field j p fs) merged k =
    get-merge_loop base child fs _ k
    ∙ settle p (find_field k fs) (text_eq j k) _ _ _ (get-step_at base child merged j k)

chosen :
    {A : Type 0} (x y : Option A)
    → or_else (elim x [ some a ↦ some a | none ↦ y ]) none ≡ or_else x y
chosen none none = refl
chosen none (some b) = refl
chosen (some a) y = refl

-- All the patterns under a key, in the order of the fields.
unfoldable pub patterns_at : Text → Fields → List Pattern
patterns_at k no_fields = []
patterns_at k (field j p fs) = let rest = patterns_at k fs in if text_eq j k then p ∷ rest else rest

-- The pattern that overrides takes the place of the first one, or stands alone.
abbrev pub override : Option Pattern → List Pattern → List Pattern
override none ps = ps
override (some p) [] = p ∷ []
override (some p) (q ∷ ps) = p ∷ ps

patterns-put :
    (k j : Text) (p : Pattern) (fs : Fields)
    → patterns_at k (put_field fs j p)
      ≡ (if text_eq j k then override (some p) (patterns_at k fs) else patterns_at k fs)
unfolding patterns_at put_field
patterns-put k j p no_fields = ground arith
patterns-put k j p (field i q fs) = elim (Bool-cases (text_eq i j)) [
  | inl e ↦ let same = (text_eq_iff i j).0 e in ground arith
  | inr e ↦ elim (Bool-cases (text_eq i k)) [
    | inl h ↦ let apart = text_eq_apart i j k e h in ground (arith, patterns-put k j p fs)
    | inr h ↦ ground (arith, patterns-put k j p fs)
  ]
]

override_again :
    (o : Option Pattern) (p : Pattern) (b : Bool) (ps : List Pattern)
    → override o (if b then override (some p) ps else ps)
      ≡ override (elim o [ some q ↦ some q | none ↦ if b then some p else none ]) ps
override_again none p true ps = refl
override_again none p false ps = refl
override_again (some q) p true [] = refl
override_again (some q) p true (r ∷ ps) = refl
override_again (some q) p false ps = refl

patterns-merge :
    (k : Text) (base child : Fields)
    → patterns_at k (merge_fields base child) ≡ override (last_field k child) (patterns_at k base)
unfolding merge_fields last_field
patterns-merge k base no_fields = refl
patterns-merge k base (field j p child) =
    patterns-merge k (put_field base j p) child
    ∙ ap (override (last_field k child)) (patterns-put k j p base)
    ∙ override_again (last_field k child) p (text_eq j k) (patterns_at k base)

-- A clause has, under each key, the patterns of the first clause, but for the first of them, in whose
-- place, or alone if there is none, stands the last pattern that the clause gives to that key itself,
-- if it gives one. So the pattern found under a key is its own, or else that of the first clause. It
-- has annotations only on its own fields and those that it inherits: its own, or else those of the
-- first clause.
pub merge-inherits :
    (base child : Fields) (base_fa child_fa : FieldAnnotations) (k : Text)
    → (patterns_at k (merge_fields base child) ≡ override (last_field k child) (patterns_at k base))
      × (find_field k (merge_fields base child) ≡ or_else (last_field k child) (find_field k base))
      × (assoc_get (merge_field_annotations base_fa child_fa (merge_fields base child)) k ≡ (
          if is_some (find_field k (merge_fields base child))
          then or_else (assoc_get child_fa k) (assoc_get base_fa k)
          else none))
unfolding merge_field_annotations choose_annotations
merge-inherits base child base_fa child_fa k = (
  patterns-merge k base child,
  find-merge k base child,
  get-merge_loop base_fa child_fa (merge_fields base child) [] k
      ∙ ap (λ o. if is_some (find_field k (merge_fields base child)) then o else none)
          (chosen (assoc_get child_fa k) (assoc_get base_fa k)),
)
