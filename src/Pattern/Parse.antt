-- ===== src/Pattern/Parse.antt =====
-- `parse_pattern_value` and the two parsers that it calls.
use luaml.Prelude.{
  Option, ℕ, zero, suc, Text, codes, Bool, true, false, ◌&&◌, ◌||◌, none, some, List, [], ◌∷◌, leb,
  length, text_eq, if◌then◌else◌, trim, starts_with, ends_with, strip_prefix, split_once,
}
use luaml.Prelude.Outcome.{Outcome, ok, err, panic, out_of_fuel, ◌>>=◌}
use luaml.Pattern.{
  Pattern, ListPattern, Patterns, Fields, wildcard, enum, string_literal, number_literal,
  bool_literal, variable, pin, list, map, head_tail, elements, no_patterns, pattern_cons, no_fields,
  field,
}
use luaml.Pattern.Chars.{Unicode, is_identifier}
use luaml.Pattern.Split.{find_pipe, split_top_level}
use luaml.Pattern.Number.{parse_i64}

pub data PatternMessage : Type 0 where
  empty_pattern invalid_enum_name invalid_variable_name invalid_pin_name : PatternMessage
  bare_word missing_colon invalid_map_key : PatternMessage

pub record PatternParseError : Type 0 where
  pub message : PatternMessage
  pub input : Text

abbrev pub ParsedPattern : Type 0
ParsedPattern = Outcome PatternParseError Pattern

abbrev pub parse_err {ℓ} : {A : Type ℓ} → PatternMessage → Text → Outcome PatternParseError A
parse_err message input = err (record { message = message; input = input })

-- All but the last character.
unfoldable pub drop_last : Text → Text
drop_last [] = []
drop_last (c ∷ []) = []
drop_last (c ∷ d ∷ s) = c ∷ drop_last (d ∷ s)

-- `&s[1..s.len() - 1]`, of a text whose first and last character are of one byte: out of range
-- if there is one character only.
unfoldable pub inner : Text → Outcome PatternParseError Text
unfolding drop_last
inner [] = panic
inner (c ∷ []) = panic
inner (c ∷ d ∷ s) = ok (drop_last (d ∷ s))

abbrev pub enclosed : ℕ → ℕ → Text → Bool
enclosed l r s = starts_with l s && ends_with r s

-- A name in the place where an identifier is due.
unfoldable pub named :
    ⦃u : Unicode⦄ → (Text → Pattern) → PatternMessage → Text → Text → ParsedPattern
unfolding is_identifier
named make message name input =
    if is_identifier name then ok (make name) else parse_err message input

-- `parse` is `parse_pattern_value`, for the parts.
unfoldable pub parse_elements :
    (Text → ParsedPattern) → List Text → Outcome PatternParseError Patterns
parse_elements parse [] = ok no_patterns
parse_elements parse (e ∷ es) = do
  p ← parse (trim e)
  ps ← parse_elements parse es
  ok (pattern_cons p ps)

-- A list pattern whose inside is cut at a pipe, or is not.
unfoldable pub list_parts : (Text → ParsedPattern) → Option (Text × Text) → Text → ParsedPattern
unfolding split_top_level parse_elements
list_parts parse (some (before, after)) s = do
  head ← parse (trim before)
  tail ← parse (trim after)
  ok (list (head_tail head tail))
list_parts parse none s = do
  ps ← parse_elements parse (split_top_level s b',')
  ok (list (elements ps))

-- The body of `parse_list_pattern`, on the trimmed inside of the brackets.
unfoldable pub list_within : (Text → ParsedPattern) → Text → ParsedPattern
unfolding find_pipe list_parts
list_within parse [] = ok (list ListPattern.empty)
list_within parse (c ∷ s) = list_parts parse (find_pipe (c ∷ s)) (c ∷ s)

unfoldable pub parse_list_pattern : (Text → ParsedPattern) → Text → ParsedPattern
unfolding inner list_within
parse_list_pattern parse input = do cut ← inner input; list_within parse (trim cut)

module _ ⦃u : Unicode⦄ where
  -- A pair of a map pattern, cut at its colon if it has one.
  unfoldable pub pair_parts :
      (Text → ParsedPattern)
      → Option (Text × Text)
      → Text
      → Outcome PatternParseError (Text × Pattern)
  unfolding is_identifier
  pair_parts parse none pair = parse_err missing_colon pair
  pair_parts parse (some (before, after)) pair =
      let key = trim before in
      if is_identifier key
      then (do pattern_value ← parse (trim after); ok (key, pattern_value))
      else parse_err invalid_map_key key

  unfoldable pub parse_pair :
      (Text → ParsedPattern) → Text → Outcome PatternParseError (Text × Pattern)
  unfolding pair_parts split_once
  parse_pair parse pair = pair_parts parse (split_once b':' pair) pair

  unfoldable pub parse_pairs : (Text → ParsedPattern) → List Text → Outcome PatternParseError Fields
  unfolding parse_pair
  parse_pairs parse [] = ok no_fields
  parse_pairs parse (pair ∷ pairs) = do
    (key, p) ← parse_pair parse (trim pair)
    fs ← parse_pairs parse pairs
    ok (field key p fs)

  -- The body of `parse_map_pattern`, on the trimmed inside of the braces.
  unfoldable pub map_within : (Text → ParsedPattern) → Text → ParsedPattern
  unfolding split_top_level parse_pairs
  map_within parse [] = ok (map no_fields)
  map_within parse (c ∷ s) = do fs ← parse_pairs parse (split_top_level (c ∷ s) b','); ok (map fs)

  unfoldable pub parse_map_pattern : (Text → ParsedPattern) → Text → ParsedPattern
  unfolding inner map_within
  parse_map_pattern parse input = do cut ← inner input; map_within parse (trim cut)

  -- The tests from `Variable` on.
  unfoldable pub parse_compound : (Text → ParsedPattern) → Text → Text → ParsedPattern
  unfolding named parse_list_pattern parse_map_pattern ends_with
  parse_compound parse trimmed input = elim (strip_prefix b'$' trimmed) [
    | some name ↦ named variable invalid_variable_name (trim name) input
    | none ↦ elim (strip_prefix b'^' trimmed) [
      | some name ↦ named pin invalid_pin_name (trim name) input
      | none ↦
          if enclosed b'[' b']' trimmed
          then parse_list_pattern parse trimmed
          else if enclosed b'{' b'}' trimmed
          then parse_map_pattern parse trimmed
          else parse_err bare_word input
    ]
  ]

  -- The tests from the start to the numbers.
  unfoldable pub parse_trimmed : (Text → ParsedPattern) → Text → Text → ParsedPattern
  unfolding parse_compound parse_i64 inner named
  parse_trimmed parse trimmed input =
      if text_eq trimmed []
      then parse_err empty_pattern input
      else if text_eq trimmed (codes "*") || text_eq trimmed (codes "_")
      then ok wildcard
      else if enclosed b':' b':' trimmed && leb 3 (length trimmed)
      then (do name ← inner trimmed; named enum invalid_enum_name name input)
      else if enclosed 34 34 trimmed || enclosed 39 39 trimmed
      then (do text ← inner trimmed; ok (string_literal text))
      else if text_eq trimmed (codes "true")
      then ok (bool_literal true)
      else if text_eq trimmed (codes "false")
      then ok (bool_literal false)
      else elim (parse_i64 trimmed) [
        | some n ↦ ok (number_literal n)
        | none ↦ parse_compound parse trimmed input
      ]

  -- A unit of fuel for each level of brackets.
  unfoldable pub parse_value : ℕ → Text → ParsedPattern
  unfolding parse_trimmed trim
  parse_value zero input = out_of_fuel
  parse_value (suc f) input = parse_trimmed (parse_value f) (trim input) input

  unfoldable pub parse_pattern_value : Text → ParsedPattern
  unfolding parse_value
  parse_pattern_value input = parse_value (suc (length input)) input
