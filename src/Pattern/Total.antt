-- ===== src/Pattern/Total.antt =====
-- `parse_pattern_value` has enough fuel: each level of brackets shortens the text.
use luaml.Prelude.{
  ℕ, zero, suc, ◌≤◌, ◌<◌, ◌≡◌, refl, Text, Option, none, some, List, [], ◌∷◌, length, arith, trim,
  text_eq, split_once,
}
use luaml.Prelude.Outcome.{EnoughFuel, EnoughFuel-bind}
use luaml.Pattern.{Pattern, variable, pin}
use luaml.Pattern.Chars.{Unicode}
use luaml.Pattern.Split.{find_pipe, split_top_level}
use luaml.Pattern.Lengths.{
  length-trim, length-inner, length-find_pipe, length-split_once, AllWithin, AllWithin-le,
  split_top_level-AllWithin,
}
use luaml.Pattern.Parse.{
  ParsedPattern, PatternMessage, inner, named, parse_elements, list_within, list_parts,
  parse_list_pattern, parse_pair, pair_parts, parse_pairs, map_within, parse_map_pattern,
  parse_compound, parse_trimmed, parse_value, parse_pattern_value, invalid_variable_name,
  invalid_pin_name,
}

inner-EnoughFuel : (s : Text) → EnoughFuel (inner s)
unfolding inner
inner-EnoughFuel [] = tt
inner-EnoughFuel (c ∷ []) = tt
inner-EnoughFuel (c ∷ d ∷ s) = tt

-- A parser of the parts that has enough fuel for texts of length `n` or less.
module _ (parse : Text → ParsedPattern) (n : ℕ)
    (enough : (s : Text) → length s ≤ n → EnoughFuel (parse s)) where
  parse_trim : (s : Text) → length s ≤ n → EnoughFuel (parse (trim s))
  parse_trim s h = enough (trim s) (omega (arith, length-trim s))

  parse_elements-EnoughFuel :
      (es : List Text) → AllWithin n es → EnoughFuel (parse_elements parse es)
  unfolding parse_elements
  parse_elements-EnoughFuel [] h = tt
  parse_elements-EnoughFuel (e ∷ es) h =
      EnoughFuel-bind (parse (trim e)) _ (parse_trim e h.0) λ p _.
        EnoughFuel-bind (parse_elements parse es) _ (parse_elements-EnoughFuel es h.1) λ ps _. tt

  list_parts-EnoughFuel :
      (o : Option (Text × Text)) (s : Text)
      → ((l r : Text) → o ≡ some (l, r) → (length l ≤ n) × (length r ≤ n))
      → AllWithin n (split_top_level s b',')
      → EnoughFuel (list_parts parse o s)
  unfolding list_parts
  list_parts-EnoughFuel (some (l, r)) s h g =
      let (p, q) = h l r refl in
      EnoughFuel-bind (parse (trim l)) _ (parse_trim l p)
        λ head _. EnoughFuel-bind (parse (trim r)) _ (parse_trim r q) λ tail _. tt
  list_parts-EnoughFuel none s h g =
      EnoughFuel-bind (parse_elements parse (split_top_level s b',')) _
        (parse_elements-EnoughFuel _ g) λ ps _. tt

  list_within-EnoughFuel : (s : Text) → length s ≤ n → EnoughFuel (list_within parse s)
  unfolding list_within
  list_within-EnoughFuel [] h = tt
  list_within-EnoughFuel (c ∷ s) h =
      list_parts-EnoughFuel (find_pipe (c ∷ s)) (c ∷ s)
        (λ l r e. let (p, q) = length-find_pipe (c ∷ s) l r e in (omega arith, omega arith))
        (AllWithin-le (length (c ∷ s)) n _ h (split_top_level-AllWithin (c ∷ s) b','))

  parse_list_pattern-EnoughFuel :
      (s : Text) → length s ≤ suc n → EnoughFuel (parse_list_pattern parse s)
  unfolding parse_list_pattern
  parse_list_pattern-EnoughFuel s h = EnoughFuel-bind (inner s) _ (inner-EnoughFuel s) λ cut e.
      list_within-EnoughFuel (trim cut) (omega (arith, length-trim cut, length-inner s cut e))

  module _ ⦃u : Unicode⦄ where
    pair_parts-EnoughFuel :
        (o : Option (Text × Text)) (pair : Text)
        → ((l r : Text) → o ≡ some (l, r) → length r ≤ n)
        → EnoughFuel (pair_parts parse o pair)
    unfolding pair_parts
    pair_parts-EnoughFuel none pair h = tt
    pair_parts-EnoughFuel (some (l, r)) pair h = let e = parse_trim r (h l r refl) in ground arith

    parse_pair-EnoughFuel : (s : Text) → length s ≤ n → EnoughFuel (parse_pair parse s)
    unfolding parse_pair
    parse_pair-EnoughFuel s h =
        pair_parts-EnoughFuel (split_once b':' s) s
          λ l r e. omega (arith, (length-split_once b':' s l r e).1)

    parse_pairs-EnoughFuel : (ss : List Text) → AllWithin n ss → EnoughFuel (parse_pairs parse ss)
    unfolding parse_pairs
    parse_pairs-EnoughFuel [] h = tt
    parse_pairs-EnoughFuel (s ∷ ss) h =
        EnoughFuel-bind (parse_pair parse (trim s)) _
          (parse_pair-EnoughFuel (trim s) (omega (arith, length-trim s, h.0)))
          λ p _. EnoughFuel-bind (parse_pairs parse ss) _ (parse_pairs-EnoughFuel ss h.1) λ ps _. tt

    map_within-EnoughFuel : (s : Text) → length s ≤ n → EnoughFuel (map_within parse s)
    unfolding map_within
    map_within-EnoughFuel [] h = tt
    map_within-EnoughFuel (c ∷ s) h =
        EnoughFuel-bind (parse_pairs parse (split_top_level (c ∷ s) b',')) _
          (parse_pairs-EnoughFuel _
            (AllWithin-le (length (c ∷ s)) n _ h (split_top_level-AllWithin (c ∷ s) b',')))
          λ fs _. tt

    parse_map_pattern-EnoughFuel :
        (s : Text) → length s ≤ suc n → EnoughFuel (parse_map_pattern parse s)
    unfolding parse_map_pattern
    parse_map_pattern-EnoughFuel s h = EnoughFuel-bind (inner s) _ (inner-EnoughFuel s) λ cut e.
        map_within-EnoughFuel (trim cut) (omega (arith, length-trim cut, length-inner s cut e))

    named-EnoughFuel :
        (make : Text → Pattern) (m : PatternMessage) (name input : Text)
        → EnoughFuel (named make m name input)
    unfolding named
    named-EnoughFuel make m name input = ground arith

    parse_compound-EnoughFuel :
        (trimmed input : Text)
        → length trimmed ≤ suc n
        → EnoughFuel (parse_compound parse trimmed input)
    unfolding parse_compound
    parse_compound-EnoughFuel [] input h = tt
    parse_compound-EnoughFuel (c ∷ name) input h =
        let in_list = parse_list_pattern-EnoughFuel (c ∷ name) h in
        let in_map = parse_map_pattern-EnoughFuel (c ∷ name) h in
        let dollar = named-EnoughFuel variable invalid_variable_name (trim name) input in
        let caret = named-EnoughFuel pin invalid_pin_name (trim name) input in ground arith

    parse_trimmed-EnoughFuel :
        (trimmed input : Text)
        → length trimmed ≤ suc n
        → EnoughFuel (parse_trimmed parse trimmed input)
    unfolding parse_trimmed
    parse_trimmed-EnoughFuel trimmed input h =
        let compound = parse_compound-EnoughFuel trimmed input h in
        let cut = inner-EnoughFuel trimmed in ground arith

parse_value-EnoughFuel :
    ⦃u : Unicode⦄ (f : ℕ) (s : Text) → length s < f → EnoughFuel (parse_value f s)
unfolding parse_value text_eq
parse_value-EnoughFuel zero s h = absurd (omega arith)
parse_value-EnoughFuel (suc zero) [] h = tt
parse_value-EnoughFuel (suc zero) (c ∷ s) h = absurd (omega arith)
parse_value-EnoughFuel (suc (suc g)) s h =
    parse_trimmed-EnoughFuel (parse_value (suc g)) g
      (λ t le. parse_value-EnoughFuel (suc g) t (omega arith)) (trim s) s
      (omega (arith, length-trim s))

-- The fuel of `parse_pattern_value` is enough for every text.
pub parse_pattern_value-EnoughFuel :
    ⦃u : Unicode⦄ (input : Text) → EnoughFuel (parse_pattern_value input)
unfolding parse_pattern_value
parse_pattern_value-EnoughFuel input =
    parse_value-EnoughFuel (suc (length input)) input (omega arith)
