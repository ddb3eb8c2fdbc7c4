-- ===== src/Frontmatter/Ranges.antt =====
-- The boundaries of clauses: in order, apart, and each with a closing delimiter behind it.
use luaml.Prelude.{
  ℕ, zero, suc, ◌+◌, ◌≤◌, ◌<◌, ◌≡◌, refl, ap, Text, true, Option, none, some, List, [], ◌∷◌, length,
  take, drop, get_elem?, arith, ltb, Bool-cases, Option-cases, inl, inr,
}
use luaml.Frontmatter.Text.{position, is_delimiter}
use luaml.Frontmatter.Boundaries.{clause_at, boundaries_loop, find_clause_boundaries}

pub length-position : (ls : List Text) (i : ℕ) → position ls ≡ some i → i < length ls
unfolding position
length-position [] i h = cc
length-position (l ∷ ls) i h = elim (Bool-cases (is_delimiter l)) [
  | inl e ↦ ground arith
  | inr e ↦ elim (Option-cases (position ls)) [
    | inl n ↦ ground arith
    | inr (j, p) ↦ let below = length-position ls j p in ground arith
  ]
]

-- The boundaries stand at `lo` or behind, each with the distance to its closing delimiter, and the
-- next one behind that.
abbrev pub Chain : List Text → ℕ → List ℕ → Type 0
Chain ls lo [] = Unit
Chain ls lo (b ∷ bs) =
    (lo ≤ b)
    × (b < length ls)
    × ((j : ℕ) × (position (drop (b + 1) ls) ≡ some j) × Chain ls (b + 1 + j + 1) bs)

ltb→lt : (a b : ℕ) → ltb a b ≡ true → a < b
ltb→lt a b h = ground arith

clause_at-position :
    (ls : List Text) (i j : ℕ) → clause_at ls i ≡ some j → position (drop (i + 1) ls) ≡ some j
unfolding clause_at
clause_at-position ls i j h = elim (Option-cases (position (drop (i + 1) ls))) [
  | inl e ↦ ground arith
  | inr (k, e) ↦ ground arith
]

Chain-lower :
    (ls : List Text) (lo lo' : ℕ) (bs : List ℕ) → lo' ≤ lo → Chain ls lo bs → Chain ls lo' bs
Chain-lower ls lo lo' [] h g = tt
Chain-lower ls lo lo' (b ∷ bs) h g = (omega (arith, g.0), g.1, g.2)

boundaries_loop-Chain : (f : ℕ) (ls : List Text) (i : ℕ) → Chain ls i (boundaries_loop f ls i)
unfolding boundaries_loop
boundaries_loop-Chain zero ls i = tt
boundaries_loop-Chain (suc f) ls i = elim (Bool-cases (ltb i (length ls))) [
  | inl e ↦ elim (Option-cases (clause_at ls i)) [
    | inl n ↦
        rw e (rw n (Chain-lower ls (i + 1) i _ (omega arith) (boundaries_loop-Chain f ls (i + 1))))
    | inr (j, n) ↦ rw e (
        rw n (
          omega arith,
          ltb→lt i (length ls) e,
          (j, clause_at-position ls i j n, boundaries_loop-Chain f ls (i + 1 + j + 1)),
        ))
  ]
  | inr e ↦ rw e tt
]

pub find_clause_boundaries-Chain : (ls : List Text) → Chain ls 0 (find_clause_boundaries ls)
unfolding find_clause_boundaries
find_clause_boundaries-Chain ls = boundaries_loop-Chain (length ls) ls 0

pub take-all : {A : Type 0} (n : ℕ) (xs : List A) → length xs ≤ n → take n xs ≡ xs
take-all zero [] h = refl
take-all zero (x ∷ xs) h = absurd (omega arith)
take-all (suc n) [] h = refl
take-all (suc n) (x ∷ xs) h = ap (λ ys. x ∷ ys) (take-all n xs (omega arith))

abbrev pub head? : {A : Type 0} → List A → Option A
head? [] = none
head? (x ∷ xs) = some x

-- What follows the place `i` of a list, when the rest from `i` on is known.
pub drop-cons :
    {A : Type 0} (i : ℕ) (xs : List A) (b : A) (bs : List A)
    → drop i xs ≡ b ∷ bs
    → (get_elem? xs (suc i) ≡ head? bs) × (drop (suc i) xs ≡ bs)
drop-cons zero [] b bs h = cc
drop-cons zero (x ∷ []) b bs h = let t : [] ≡ bs = cc in (ap head? t, t)
drop-cons zero (x ∷ y ∷ xs) b bs h = let t : (y ∷ xs) ≡ bs = cc in (ap head? t, t)
drop-cons (suc i) [] b bs h = cc
drop-cons (suc i) (x ∷ xs) b bs h = drop-cons i xs b bs h
