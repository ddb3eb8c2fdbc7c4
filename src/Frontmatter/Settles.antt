-- ===== src/Frontmatter/Settles.antt =====
-- A frontmatter block, and the extension above it, are parsed without a panic unless the pattern
-- parser panics.
use luaml.Prelude.{
  ℕ, zero, suc, ◌-◌, ◌≤◌, ◌≡◌, ◌≢◌, refl, Text, Bool, Option, none, some, List, [], ◌∷◌, length,
  take, drop, arith, le→leb, Bool-cases, Option-cases, inl, inr, trim, split_once, strip_prefix,
  starts_with, text_eq,
}
use luaml.Prelude.Outcome.{Outcome, ok, err, panic, out_of_fuel, ◌>>=◌, map_err, EnoughFuel}
use luaml.Pattern.{Pattern}
use luaml.Pattern.Chars.{Unicode}
use luaml.Pattern.Parse.{PatternParseError, parse_pattern_value}
use luaml.Pattern.Total.{parse_pattern_value-EnoughFuel}
use luaml.Clause.{LuamlError, parse_error, pattern_error, unclosed_block}
use luaml.Frontmatter.Text.{slice}
use luaml.Frontmatter.Block.{
  BlockState, Extracted, declare_extension, extract_extension, annotation_line, guard_line,
  field_line, block_line, block_loop, block_start, parse_frontmatter_block,
}

-- Any error but that of an unclosed block.
abbrev pub Expected : LuamlError → Type 0
Expected (parse_error (unclosed_block n)) = ⊥
Expected e = Unit

-- The run gives a value with the property, or an error other than that of an unclosed block: no
-- panic, and fuel enough.
abbrev pub Settles : {A : Type 0} → (A → Type 0) → Outcome LuamlError A → Type 0
Settles P (ok a) = P a
Settles P (err e) = Expected e
Settles P panic = ⊥
Settles P out_of_fuel = ⊥

pub Settles-bind :
    {A B : Type 0} (P : A → Type 0) (Q : B → Type 0) (m : Outcome LuamlError A)
    (f : A → Outcome LuamlError B)
    → Settles P m
    → ((a : A) → P a → Settles Q (f a))
    → Settles Q (m >>= f)
Settles-bind P Q (ok a) f h k = k a h
Settles-bind P Q (err e) f h k = h
Settles-bind P Q panic f h k = h
Settles-bind P Q out_of_fuel f h k = h

abbrev pub AnyValue : {A : Type 0} → A → Type 0
AnyValue a = Unit {0}

module _ ⦃u : Unicode⦄ where
  -- The value of the line, if it has one, does not make the pattern parser panic.
  abbrev pub Quoted : Text → Type 0
  Quoted line =
      (key value : Text)
      → split_once b':' (trim line) ≡ some (key, value)
      → parse_pattern_value (trim value) ≢ panic

  abbrev pub AllQuoted : List Text → Type 0
  AllQuoted [] = Unit
  AllQuoted (l ∷ ls) = Quoted l × AllQuoted ls

  AllQuoted-drop : (n : ℕ) (ls : List Text) → AllQuoted ls → AllQuoted (drop n ls)
  AllQuoted-drop zero ls h = h
  AllQuoted-drop (suc n) [] h = tt
  AllQuoted-drop (suc n) (l ∷ ls) h = AllQuoted-drop n ls h.1

  AllQuoted-take : (n : ℕ) (ls : List Text) → AllQuoted ls → AllQuoted (take n ls)
  AllQuoted-take zero ls h = tt
  AllQuoted-take (suc n) [] h = tt
  AllQuoted-take (suc n) (l ∷ ls) h = (h.0, AllQuoted-take n ls h.1)

  pattern-Settles :
      (m : Outcome PatternParseError Pattern)
      → m ≢ panic
      → EnoughFuel m
      → Settles AnyValue (map_err pattern_error m)
  pattern-Settles (ok p) h g = tt
  pattern-Settles (err e) h g = tt
  pattern-Settles panic h g = absurd (h refl)
  pattern-Settles out_of_fuel h g = absurd g

  field_line-Settles :
      (c : Bool) (st : BlockState) (key value : Text)
      → parse_pattern_value value ≢ panic
      → Settles AnyValue (field_line c st key value)
  unfolding field_line
  field_line-Settles c st key [] h = tt
  field_line-Settles c st key (d ∷ value) h =
      Settles-bind AnyValue AnyValue (map_err pattern_error (parse_pattern_value (d ∷ value))) _
        (pattern-Settles _ h (parse_pattern_value-EnoughFuel (d ∷ value))) λ p _. tt

  annotation_line-Settles :
      (st : BlockState) (trimmed rest : Text) → Settles AnyValue (annotation_line st trimmed rest)
  unfolding annotation_line
  annotation_line-Settles st trimmed rest = ground arith

  guard_line-Settles : (st : BlockState) (expr : Text) → Settles AnyValue (guard_line st expr)
  unfolding guard_line
  guard_line-Settles st [] = tt
  guard_line-Settles st (c ∷ expr) = tt

  block_line-Settles :
      (c : Bool) (st : BlockState) (line : Text)
      → Quoted line
      → Settles AnyValue (block_line c st line (trim line))
  unfolding block_line
  block_line-Settles c st line h = elim (Bool-cases (starts_with b'!' (trim line))) [
    | inl e ↦ rw e tt
    | inr e ↦ elim (Option-cases (strip_prefix b'@' (trim line))) [
      | inr (rest, f) ↦ rw e (rw f (annotation_line-Settles st (trim line) rest))
      | inl f ↦ elim (Option-cases (strip_prefix b'?' (trim line))) [
        | inr (expr, g) ↦ rw e (rw f (rw g (guard_line-Settles st (trim expr))))
        | inl g ↦ elim (Option-cases (split_once b':' (trim line))) [
          | inl i ↦ rw e (rw f (rw g (rw i tt)))
          | inr ((key, value), i) ↦
              rw e (
                rw f
                  (rw g (rw i (field_line-Settles c st (trim key) (trim value) (h key value i)))))
        ]
      ]
    ]
  ]

  block_loop-Settles :
      (c : Bool) (st : BlockState) (ls : List Text)
      → AllQuoted ls
      → Settles AnyValue (block_loop c st ls)
  unfolding block_loop
  block_loop-Settles c st [] h = tt
  block_loop-Settles c st (l ∷ ls) h = elim (Bool-cases (text_eq (trim l) [])) [
    | inl e ↦ rw e (block_loop-Settles c st ls h.1)
    | inr e ↦ rw e (
        Settles-bind AnyValue AnyValue (block_line c st l (trim l)) _
          (block_line-Settles c st l h.0) λ st' _. block_loop-Settles c st' ls h.1)
  ]

  pub parse_frontmatter_block-Settles :
      (ls : List Text) (c : Bool) → AllQuoted ls → Settles AnyValue (parse_frontmatter_block ls c)
  unfolding parse_frontmatter_block
  parse_frontmatter_block-Settles ls c h =
      Settles-bind AnyValue AnyValue (block_loop c block_start ls) _
        (block_loop-Settles c block_start ls h) λ st _. tt

  pub slice-Settles :
      (a b : ℕ) (ls : List Text)
      → a ≤ b
      → b ≤ length ls
      → AllQuoted ls
      → Settles (λ ys. (ys ≡ take (b - a) (drop a ls)) × AllQuoted ys) (slice a b ls)
  unfolding slice
  slice-Settles a b ls h g q =
      rw (le→leb a b h)
        (rw (le→leb b (length ls) g) (refl, AllQuoted-take (b - a) _ (AllQuoted-drop a ls q)))

  declare_extension-Settles :
      (e : Option Text) (name : Text) (next : Option Text → Extracted)
      → ((e' : Option Text) → Settles (λ r. AllQuoted r.1) (next e'))
      → Settles (λ r. AllQuoted r.1) (declare_extension e name next)
  unfolding declare_extension
  declare_extension-Settles e [] next h = tt
  declare_extension-Settles (some n) (c ∷ name) next h = tt
  declare_extension-Settles none (c ∷ name) next h = h (some (c ∷ name))

  pub extract_extension-Settles :
      (e : Option Text) (ls : List Text)
      → AllQuoted ls
      → Settles (λ r. AllQuoted r.1) (extract_extension e ls)
  unfolding extract_extension
  extract_extension-Settles e [] h = tt
  extract_extension-Settles e (l ∷ ls) h = elim (Bool-cases (text_eq (trim l) [])) [
    | inl b ↦ rw b (extract_extension-Settles e ls h.1)
    | inr b ↦ elim (Option-cases (strip_prefix b'!' (trim l))) [
      | inl n ↦ rw b (rw n h)
      | inr (name, n) ↦ rw b (
          rw n
            (declare_extension-Settles e (trim name) _ λ e'. extract_extension-Settles e' ls h.1))
    ]
  ]
