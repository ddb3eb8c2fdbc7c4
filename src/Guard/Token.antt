-- ===== src/Guard/Token.antt =====
-- The tokens of a guard expression, and `tokenize`.
use luaml.Prelude.{
  ℕ, zero, suc, Text, codes, Bool, true, false, ◌&&◌, ◌||◌, Option, none, some, List, [], ◌∷◌,
  text_eq, ◌==◌, if◌then◌else◌, is_ascii_digit, is_ascii_alphabetic, starts_with, length, tail,
}
use luaml.Prelude.Outcome.{Outcome, ok, err, out_of_fuel, ◌>>=◌}
use luaml.Types.{Float}

pub data Token (F : Type 0) : Type 0 where
  ident string_lit : Text → Token F
  number_lit : F → Token F
  bool_lit : Bool → Token F
  eq neq lt gt lte gte and or not nil lparen rparen : Token F

-- The messages of the module, with what they quote.
pub data GuardError (F : Type 0) : Type 0 where
  unterminated_string : GuardError F
  invalid_number : Text → GuardError F
  unexpected_character : ℕ → GuardError F
  unexpected_token trailing_token : Token F → GuardError F
  unexpected_end expected_rparen complex_operand : GuardError F

-- What an inner `while` loop consumes, and what it leaves.
unfoldable pub span : (ℕ → Bool) → Text → Text × Text
span test [] = ([], [])
span test (c ∷ s) = let (l, r) = span test s in if test c then (c ∷ l, r) else ([], c ∷ s)

abbrev is_word_char : ℕ → Bool
is_word_char c = is_ascii_alphabetic c || is_ascii_digit c || c == b'_'

abbrev is_number_char : ℕ → Bool
is_number_char c = is_ascii_digit c || c == b'.'

abbrev is_space : ℕ → Bool
is_space c = c == 32 || c == 9 || c == 13 || c == 10

abbrev is_quote : ℕ → Bool
is_quote c = c == 34 || c == 39

abbrev next_is_digit : Text → Bool
next_is_digit [] = false
next_is_digit (c ∷ s) = is_ascii_digit c

abbrev pub Lexed : Type 0 → Type 0
Lexed F = Outcome (GuardError F) (Option (Token F) × Text)

module _ {F : Type 0} ⦃fl : Float F⦄ where
  -- The keywords, and identifiers.
  unfoldable pub word_token : Text → Token F
  word_token word =
      if text_eq word (codes "and")
      then Token.and
      else if text_eq word (codes "or")
      then Token.or
      else if text_eq word (codes "not")
      then Token.not
      else if text_eq word (codes "true")
      then bool_lit true
      else if text_eq word (codes "false")
      then bool_lit false
      else if text_eq word (codes "nil")
      then Token.nil
      else ident word

  -- The closing quote, after the characters of the text.
  unfoldable pub close_quote : Text × Text → Lexed F
  close_quote (text, []) = err unterminated_string
  close_quote (text, q ∷ after) = ok (some (string_lit text), after)

  -- A text in quotes; `quote` is the character that opened it.
  unfoldable pub lex_string : ℕ → Text → Lexed F
  unfolding span close_quote
  lex_string quote s = close_quote (span (λ c. if c == quote then false else true) s)

  unfoldable pub number_token : Text → Text → Lexed F
  number_token s rest = elim (fl.parse s) [
    | some n ↦ ok (some (number_lit n), rest)
    | none ↦ err (invalid_number s)
  ]

  -- A number: the first character is a digit, or a minus sign before one.
  unfoldable pub lex_number : ℕ → Text → Lexed F
  unfolding span number_token
  lex_number c rest =
      let (digits, after) = span is_number_char rest in number_token (c ∷ digits) after

  unfoldable pub lex_word : ℕ → Text → Lexed F
  unfolding span word_token
  lex_word c rest =
      let (word, after) = span is_word_char rest in ok (some (word_token (c ∷ word)), after)

  -- The `match chars[i]` of the loop: the token to push, if there is one, and what is left.
  unfoldable pub next_token : ℕ → Text → Lexed F
  unfolding lex_string lex_number lex_word
  next_token c rest =
      if is_space c
      then ok (none, rest)
      else if c == b'('
      then ok (some lparen, rest)
      else if c == b')'
      then ok (some rparen, rest)
      else if c == b'=' && starts_with b'=' rest
      then ok (some Token.eq, tail rest)
      else if c == b'~' && starts_with b'=' rest
      then ok (some neq, tail rest)
      else if c == b'!' && starts_with b'=' rest
      then ok (some neq, tail rest)
      else if c == b'<' && starts_with b'=' rest
      then ok (some lte, tail rest)
      else if c == b'>' && starts_with b'=' rest
      then ok (some gte, tail rest)
      else if c == b'<'
      then ok (some Token.lt, rest)
      else if c == b'>'
      then ok (some Token.gt, rest)
      else if is_quote c
      then lex_string c rest
      else if is_ascii_digit c || c == b'-' && next_is_digit rest
      then lex_number c rest
      else if is_ascii_alphabetic c || c == b'_'
      then lex_word c rest
      else err (unexpected_character c)

  -- Push a token in front of those of the later rounds.
  abbrev pub push : Option (Token F) → List (Token F) → List (Token F)
  push none tokens = tokens
  push (some t) tokens = t ∷ tokens

  -- Each round consumes a character at least, so the length of the text is fuel enough.
  unfoldable pub tokenize_loop : ℕ → Text → Outcome (GuardError F) (List (Token F))
  unfolding next_token
  tokenize_loop f [] = ok []
  tokenize_loop zero (c ∷ s) = out_of_fuel
  tokenize_loop (suc f) (c ∷ s) = do
    (token, rest) ← next_token c s
    tokens ← tokenize_loop f rest
    ok (push token tokens)

  unfoldable pub tokenize : Text → Outcome (GuardError F) (List (Token F))
  unfolding tokenize_loop
  tokenize input = tokenize_loop (length input) input
