-- ===== src/Pattern/Lengths.antt =====
-- The pieces that the pattern parser cuts a text into are no longer than the text.
use luaml.Prelude.{
  ℕ, ◌+◌, ◌≤◌, ◌<◌, ◌≡◌, Text, some, List, [], ◌∷◌, Option-cases, ◌++◌, length, length-append,
  arith, trim, trim_start, trim_end, Bool-cases, inl, inr, ◌==◌, ◌&&◌, split_once, strip_prefix,
}
use luaml.Prelude.Int.{ℤ, pos, int_eq}
use luaml.Prelude.Outcome.{ok}
use luaml.Pattern.Split.{
  SplitState, nest, find_pipe_loop, find_pipe, split_step, split_loop, split_start, last_part,
  split_top_level,
}
use luaml.Pattern.Parse.{drop_last, inner}

length-trim_start : (s : Text) → length (trim_start s) ≤ length s
unfolding trim_start
length-trim_start [] = omega arith
length-trim_start (c ∷ s) = ground (arith, length-trim_start s)

length-trim_end : (s : Text) → length (trim_end s) ≤ length s
unfolding trim_end
length-trim_end [] = omega arith
length-trim_end (c ∷ s) = ground (arith, length-trim_end s)

pub length-trim : (s : Text) → length (trim s) ≤ length s
unfolding trim
length-trim s = omega (arith, length-trim_start s, length-trim_end (trim_start s))

pub length-strip_prefix :
    (c : ℕ) (s rest : Text) → strip_prefix c s ≡ some rest → length rest < length s
length-strip_prefix c [] rest h = cc
length-strip_prefix c (d ∷ s) rest h = ground arith

length-drop_last : (s : Text) → length (drop_last s) ≤ length s
unfolding drop_last
length-drop_last [] = omega arith
length-drop_last (c ∷ []) = omega arith
length-drop_last (c ∷ d ∷ s) = omega (arith, length-drop_last (d ∷ s))

pub length-inner : (s t : Text) → inner s ≡ ok t → length t < length s
unfolding inner
length-inner [] t h = cc
length-inner (c ∷ []) t h = cc
length-inner (c ∷ d ∷ s) t h = ground (arith, length-drop_last (d ∷ s))

pub length-split_once :
    (c : ℕ) (s l r : Text)
    → split_once c s ≡ some (l, r)
    → (length l ≤ length s) × (length r ≤ length s)
unfolding split_once
length-split_once c [] l r h = cc
length-split_once c (d ∷ s) l r h = elim (Bool-cases (d == c)) [
  | inl e ↦ ground arith
  | inr e ↦ elim (Option-cases (split_once c s)) [
    | inl n ↦ ground arith
    | inr ((l', r'), f) ↦ let below = length-split_once c s l' r' f in ground arith
  ]
]

length-find_pipe_loop :
    (before : Text) (depth : ℤ) (s l r : Text)
    → find_pipe_loop before depth s ≡ some (l, r)
    → (length l ≤ length before + length s) × (length r ≤ length s)
unfolding find_pipe_loop
length-find_pipe_loop before depth [] l r h = cc
length-find_pipe_loop before depth (c ∷ s) l r h =
    elim (Bool-cases (c == b'|' && int_eq depth (pos 0))) [
      | inl e ↦ ground arith
      | inr e ↦
          let deeper = length-find_pipe_loop (before ++ c ∷ []) (nest c depth) s l r (rw e at h) in
          ground (arith, length-append before (c ∷ []))
    ]

pub length-find_pipe :
    (s l r : Text) → find_pipe s ≡ some (l, r) → (length l ≤ length s) × (length r ≤ length s)
unfolding find_pipe
length-find_pipe s l r h =
    let (p, q) = length-find_pipe_loop [] (pos 0) s l r h in (omega (arith, p), q)

abbrev pub AllWithin : ℕ → List Text → Type 0
AllWithin n [] = Unit
AllWithin n (p ∷ ps) = (length p ≤ n) × AllWithin n ps

pub AllWithin-le : (m n : ℕ) (ps : List Text) → m ≤ n → AllWithin m ps → AllWithin n ps
AllWithin-le m n [] h g = tt
AllWithin-le m n (p ∷ ps) h g = (omega (arith, g.0), AllWithin-le m n ps h g.1)

AllWithin-append :
    (n : ℕ) (ps : List Text) (q : Text) → AllWithin n ps → length q ≤ n → AllWithin n (ps ++ q ∷ [])
AllWithin-append n [] q h g = (g, tt)
AllWithin-append n (p ∷ ps) q h g = (h.0, AllWithin-append n ps q h.1 g)

-- The parts are within `n`, and so is what is being collected with the text that is to come.
abbrev Within : ℕ → SplitState → Text → Type 0
Within n st s = AllWithin n st.parts × (length st.current + length s ≤ n)

split_step-Within :
    (n delim : ℕ) (st : SplitState) (c : ℕ) (s : Text)
    → Within n st (c ∷ s)
    → Within n (split_step delim st c) s
unfolding split_step
split_step-Within n delim st c s h =
    ground (arith, length-append st.current (c ∷ []), AllWithin-append n st.parts st.current)

split_loop-Within :
    (n delim : ℕ) (st : SplitState) (s : Text) → Within n st s → Within n (split_loop delim st s) []
unfolding split_loop
split_loop-Within n delim st [] h = h
split_loop-Within n delim st (c ∷ s) h =
    split_loop-Within n delim (split_step delim st c) s (split_step-Within n delim st c s h)

last_part-AllWithin :
    (n : ℕ) (ps : List Text) (q : Text)
    → AllWithin n ps
    → length q ≤ n
    → AllWithin n (last_part ps q)
unfolding last_part
last_part-AllWithin n ps [] h g = h
last_part-AllWithin n ps (c ∷ s) h g = AllWithin-append n ps (c ∷ s) h g

pub split_top_level-AllWithin :
    (s : Text) (delim : ℕ) → AllWithin (length s) (split_top_level s delim)
unfolding split_top_level
split_top_level-AllWithin s delim =
    let h = split_loop-Within (length s) delim split_start s (tt, omega arith) in
    last_part-AllWithin _ _ _ h.0 (omega (arith, h.1))
