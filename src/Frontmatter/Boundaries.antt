-- ===== src/Frontmatter/Boundaries.antt =====
-- `find_clause_boundaries`: the `---` lines of a body that start a new clause.
use luaml.Prelude.{
  ℕ, zero, suc, ◌+◌, Text, Bool, false, ◌||◌, Option, none, some, List, [], ◌∷◌, ltb, length, take,
  drop, get_elem?, text_eq, if◌then◌else◌, trim, starts_with, contains,
}
use luaml.Frontmatter.Text.{is_delimiter, position}

-- The first line that is not blank decides.
unfoldable pub looks_like_frontmatter : List Text → Bool
looks_like_frontmatter [] = false
looks_like_frontmatter (line ∷ lines) =
    let trimmed = trim line in
    if text_eq trimmed []
    then looks_like_frontmatter lines
    else contains b':' trimmed || starts_with b'?' trimmed || starts_with b'@' trimmed

abbrev pub delimiter_at : List Text → ℕ → Bool
delimiter_at lines i = elim (get_elem? lines i) [ none ↦ false | some l ↦ is_delimiter l ]

-- The test of the loop at `i`: the distance from the next line to the closing delimiter.
unfoldable pub clause_at : List Text → ℕ → Option ℕ
unfolding position looks_like_frontmatter
clause_at lines i =
    if delimiter_at lines i
    then elim (position (drop (i + 1) lines)) [
      | none ↦ none
      | some close ↦
          if looks_like_frontmatter (take close (drop (i + 1) lines)) then some close else none
    ]
    else none

-- Each round moves `i` forward, so the number of lines is fuel enough. A boundary that is pushed
-- stands in front of those of the later rounds.
unfoldable pub boundaries_loop : ℕ → List Text → ℕ → List ℕ
unfolding clause_at
boundaries_loop zero lines i = []
boundaries_loop (suc f) lines i =
    let round : List ℕ = elim (clause_at lines i) [
      | some close ↦ i ∷ boundaries_loop f lines (i + 1 + close + 1)
      | none ↦ boundaries_loop f lines (i + 1)
    ] in
    if ltb i (length lines) then round else []

unfoldable pub find_clause_boundaries : List Text → List ℕ
unfolding boundaries_loop
find_clause_boundaries lines = boundaries_loop (length lines) lines 0
