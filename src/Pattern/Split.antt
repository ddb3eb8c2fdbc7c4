-- ===== src/Pattern/Split.antt =====
-- `find_pipe` and `split_top_level`: cutting the inside of a bracket at its separators.
use luaml.Prelude.{
  ℕ, zero, suc, Text, Bool, ◌&&◌, ◌||◌, Option, none, some, List, [], ◌∷◌, ◌++◌, ◌==◌,
  if◌then◌else◌,
}
use luaml.Prelude.Int.{ℤ, pos, negsuc, int_eq}

-- `depth += 1` and `depth -= 1`; the text is taken to be shorter than 2^31.
abbrev pub up : ℤ → ℤ
up (pos n) = pos (suc n)
up (negsuc zero) = pos 0
up (negsuc (suc n)) = negsuc n

abbrev pub down : ℤ → ℤ
down (pos zero) = negsuc 0
down (pos (suc n)) = pos n
down (negsuc n) = negsuc (suc n)

abbrev pub opens : ℕ → Bool
opens c = c == b'[' || c == b'{'

abbrev pub closes : ℕ → Bool
closes c = c == b']' || c == b'}'

abbrev pub nest : ℕ → ℤ → ℤ
nest c depth = if opens c then up depth else if closes c then down depth else depth

-- The position of the pipe serves to cut the text there: the result is the two parts.
unfoldable pub find_pipe_loop : Text → ℤ → Text → Option (Text × Text)
find_pipe_loop before depth [] = none
find_pipe_loop before depth (c ∷ s) =
    let rest = find_pipe_loop (before ++ c ∷ []) (nest c depth) s in
    if c == b'|' && int_eq depth (pos 0) then some (before, s) else rest

unfoldable pub find_pipe : Text → Option (Text × Text)
unfolding find_pipe_loop
find_pipe s = find_pipe_loop [] (pos 0) s

-- The variables of the loop; `quote` is the quote character while `in_quotes`.
pub record SplitState : Type 0 where
  pub parts : List Text
  pub depth : ℤ
  pub current : Text
  pub quote : Option ℕ

abbrev pub is_quote : ℕ → Bool
is_quote c = c == 34 || c == 39

-- One round in quotes, which a second character like the first one ends.
unfoldable pub quoted_step : ℕ → SplitState → ℕ → SplitState
quoted_step q st ch = record st {
  current = st.current ++ ch ∷ [];
  quote = if ch == q then none else some q;
}

-- One round outside quotes.
unfoldable pub plain_step : ℕ → SplitState → ℕ → SplitState
plain_step delim st ch =
    if is_quote ch
    then record st { current = st.current ++ ch ∷ []; quote = some ch }
    else if opens ch
    then record st { depth = up st.depth; current = st.current ++ ch ∷ [] }
    else if closes ch
    then record st { depth = down st.depth; current = st.current ++ ch ∷ [] }
    else if ch == delim && int_eq st.depth (pos 0)
    then record st { parts = st.parts ++ st.current ∷ []; current = [] }
    else record st { current = st.current ++ ch ∷ [] }

unfoldable pub split_step : ℕ → SplitState → ℕ → SplitState
unfolding quoted_step plain_step
split_step delim st ch = elim st.quote [
  | some q ↦ quoted_step q st ch
  | none ↦ plain_step delim st ch
]

unfoldable pub split_loop : ℕ → SplitState → Text → SplitState
unfolding split_step
split_loop delim st [] = st
split_loop delim st (ch ∷ s) = split_loop delim (split_step delim st ch) s

abbrev pub split_start : SplitState
split_start = record { parts = []; depth = pos 0; current = []; quote = none }

unfoldable pub last_part : List Text → Text → List Text
last_part parts [] = parts
last_part parts (c ∷ s) = parts ++ (c ∷ s) ∷ []

-- It never returns an error.
unfoldable pub split_top_level : Text → ℕ → List Text
unfolding split_loop last_part
split_top_level s delim = let st = split_loop delim split_start s in last_part st.parts st.current
