-- ===== src/Frontmatter/Text.antt =====
-- `str::lines`, `join`, and slices of a vector of lines.
use mathlib.Core.Option
use luaml.Prelude.{
  ℕ, suc, ◌-◌, Text, Bool, ◌&&◌, Option, none, some, List, [], ◌∷◌, ◌++◌, ◌==◌, leb, length, take,
  drop, text_eq, if◌then◌else◌, codes,
}
use luaml.Prelude.Outcome.{Outcome, ok, panic}

-- A line without the carriage return that stands before its newline.
unfoldable pub strip_return : Text → Text
strip_return [] = []
strip_return (c ∷ []) = if c == 13 then [] else c ∷ []
strip_return (c ∷ d ∷ s) = c ∷ strip_return (d ∷ s)

abbrev last_line : Text → List Text
last_line [] = []
last_line (c ∷ s) = (c ∷ s) ∷ []

unfoldable pub lines_loop : Text → Text → List Text
unfolding strip_return
lines_loop line [] = last_line line
lines_loop line (c ∷ s) =
    let ended = strip_return line ∷ lines_loop [] s in
    let longer = lines_loop (line ++ c ∷ []) s in if c == 10 then ended else longer

unfoldable pub lines : Text → List Text
unfolding lines_loop
lines text = lines_loop [] text

-- `[&str]::join`.
unfoldable pub join : Text → List Text → Text
join sep [] = []
join sep (l ∷ []) = l
join sep (l ∷ m ∷ ls) = l ++ (sep ++ join sep (m ∷ ls))

abbrev pub newline : Text
newline = 10 ∷ []

abbrev pub is_delimiter : Text → Bool
is_delimiter l = text_eq l (codes "---")

-- `.iter().position(|l| *l == "---")`.
unfoldable pub position : List Text → Option ℕ
position [] = none
position (l ∷ ls) =
    let later = Option.map suc (position ls) in if is_delimiter l then some 0 else later

-- `&xs[a..b]`, which panics out of range.
unfoldable pub slice {ℓ κ} : {E : Type κ} {A : Type ℓ} → ℕ → ℕ → List A → Outcome E (List A)
slice a b xs = if leb a b && leb b (length xs) then ok (take (b - a) (drop a xs)) else panic
