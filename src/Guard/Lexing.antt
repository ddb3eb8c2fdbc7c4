-- ===== src/Guard/Lexing.antt =====
-- `tokenize` ends: each round of its loop consumes a character.
use luaml.Prelude.{
  ℕ, zero, suc, ◌≤◌, Text, Bool, true, false, [], ◌∷◌, length, arith, tail, ◌==◌, if◌then◌else◌,
}
use luaml.Prelude.Outcome.{Returns, Returns-bind, Ends}
use luaml.Types.{Float}
use luaml.Guard.Token.{
  Lexed, span, lex_string, lex_number, lex_word, next_token, tokenize_loop, tokenize, number_token,
  close_quote,
}

length-span : (test : ℕ → Bool) (s : Text) → length (span test s).1 ≤ length s
unfolding span
length-span test [] = omega arith
length-span test (c ∷ s) = ground (arith, length-span test s)

length-tail-le : (s : Text) → length (tail s) ≤ length s
length-tail-le [] = omega arith
length-tail-le (c ∷ s) = omega arith

module _ (F : Type 0) ⦃fl : Float F⦄ where
  abbrev LeavesAtMost : ℕ → Lexed F → Type 0
  LeavesAtMost n = Returns (λ r. length r.1 ≤ n)

  close-Leaves : {n : ℕ} (r : Text × Text) → length r.1 ≤ n → LeavesAtMost n (close_quote r)
  unfolding close_quote
  close-Leaves (text, []) h = tt
  close-Leaves (text, q ∷ after) h = omega arith

  token-Leaves : {n : ℕ} (s rest : Text) → length rest ≤ n → LeavesAtMost n (number_token s rest)
  unfolding number_token
  token-Leaves s rest h = ground arith

  string-Leaves : (q : ℕ) (s : Text) → LeavesAtMost (length s) (lex_string q s)
  unfolding lex_string
  string-Leaves q s =
      close-Leaves (span (λ c. if c == q then false else true) s)
        (length-span (λ c. if c == q then false else true) s)

  number-Leaves : (c : ℕ) (s : Text) → LeavesAtMost (length s) (lex_number c s)
  unfolding lex_number
  number-Leaves c s = token-Leaves _ _ (length-span _ s)

  word-Leaves : (c : ℕ) (s : Text) → LeavesAtMost (length s) (lex_word c s)
  unfolding lex_word
  word-Leaves c s = length-span _ s

  next-Leaves : (c : ℕ) (s : Text) → LeavesAtMost (length s) (next_token {F = F} c s)
  unfolding next_token
  next-Leaves c s =
      ground (arith, string-Leaves c s, number-Leaves c s, word-Leaves c s, length-tail-le s)

  tokenize_loop-Ends : (f : ℕ) (s : Text) → length s ≤ f → Ends (tokenize_loop {F = F} f s)
  unfolding tokenize_loop
  tokenize_loop-Ends f [] h = tt
  tokenize_loop-Ends zero (c ∷ s) h = absurd (omega arith)
  tokenize_loop-Ends (suc f) (c ∷ s) h =
      Returns-bind (λ r. length r.1 ≤ length s) _ (next_token {F = F} c s) _ (next-Leaves c s)
        λ (t, rest) shorter.
          Returns-bind (λ _. Unit) _ (tokenize_loop {F = F} f rest) _
            (tokenize_loop-Ends f rest (omega arith)) λ ts _. tt

  pub tokenize-Ends : (s : Text) → Ends (tokenize {F = F} s)
  unfolding tokenize
  tokenize-Ends s = tokenize_loop-Ends (length s) s (omega arith)
