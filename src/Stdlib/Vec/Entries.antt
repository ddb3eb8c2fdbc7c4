-- ===== src/Stdlib/Vec/Entries.antt =====
-- crates/luaml/src/stdlib/vec.rs: which tables are vectors, and the dimensions that operations on
-- two of them want.
use luaml.Prelude.{
  ℕ, zero, suc, ◌+◌, ◌<◌, Option, none, some, List, [], ◌∷◌, length, get_elem?, In, ◌≡◌, refl, ◌↔◌,
  inl, inr, sym, arith,
}
use luaml.Prelude.Outcome.{ok, >>=-eq-ok}
use luaml.Types.{Float}
use luaml.Stdlib.Vec.{
  Entry, integer, number, other, Table, check_keys, entry_number, read_entries, to_vec,
}

first_index : (i : ℕ) → i + 0 ≡ i
first_index i = omega arith

next_index : (i j : ℕ) → i + suc j ≡ suc i + j
next_index i j = omega arith

module _ {F : Type 0} where
  -- The number that an entry stands for.
  abbrev pub numeric : ⦃fl : Float F⦄ → Entry F → Option F
  numeric ⦃fl⦄ (integer n) = some (fl.from_i64 n)
  numeric (number x) = some x
  numeric other = none

  abbrev pub IsInteger : Entry F → Type 0
  IsInteger (integer n) = Unit
  IsInteger k = ⊥

  module _ ⦃fl : Float F⦄ where
    abbrev pub AreEntries : (ℕ → Entry F) → ℕ → ℕ → List F → Type 0
    AreEntries raw_get i n v =
        (length v ≡ n) × ((j : ℕ) → j < n → get_elem? v j ≡ numeric (raw_get (i + j)))

    -- The keys are integers, whichever, and the vector has the numbers that stand under 1 to
    -- `raw_len`.
    abbrev pub IsVector : Table F → List F → Type 0
    IsVector t v = ((k : Entry F) → In k t.keys → IsInteger k) × AreEntries t.raw_get 1 t.raw_len v

    entry_number_iff :
        (i : ℕ) (e : Entry F) (x : F) → (entry_number i e ≡ ok x) ↔ (numeric e ≡ some x)
    unfolding entry_number
    entry_number_iff i (integer n) x = (λ h. cc, λ h. cc)
    entry_number_iff i (number y) x = (λ h. cc, λ h. cc)
    entry_number_iff i other x = (λ h. cc, λ h. cc)

    cons-at :
        (raw_get : ℕ → Entry F) (i n : ℕ) (x : F) (v : List F)
        → numeric (raw_get i) ≡ some x
        → ((j : ℕ) → j < n → get_elem? v j ≡ numeric (raw_get (suc i + j)))
        → (j : ℕ) → j < suc n
        → get_elem? (x ∷ v) j ≡ numeric (raw_get (i + j))
    cons-at raw_get i n x v e h zero l = rw (first_index i) (sym e)
    cons-at raw_get i n x v e h (suc j) l = rw (next_index i j) (h j (omega (arith, l)))

    rest-at :
        (raw_get : ℕ → Entry F) (i n : ℕ) (x : F) (v : List F)
        → ((j : ℕ) → j < suc n → get_elem? (x ∷ v) j ≡ numeric (raw_get (i + j)))
        → (j : ℕ) → j < n
        → get_elem? v j ≡ numeric (raw_get (suc i + j))
    rest-at raw_get i n x v h j l = rw (← next_index i j) (h (suc j) (omega (arith, l)))

    first-at :
        (raw_get : ℕ → Entry F) (i n : ℕ) (x : F) (v : List F)
        → ((j : ℕ) → j < suc n → get_elem? (x ∷ v) j ≡ numeric (raw_get (i + j)))
        → numeric (raw_get i) ≡ some x
    first-at raw_get i n x v h = rw (first_index i) at (sym (h zero (omega arith)))

    AreEntries-read_entries :
        (raw_get : ℕ → Entry F) (i n : ℕ) (v : List F)
        → read_entries raw_get i n ≡ ok v
        → AreEntries raw_get i n v
    unfolding read_entries
    AreEntries-read_entries raw_get i zero [] h = (refl, λ j l. absurd (omega (arith, l)))
    AreEntries-read_entries raw_get i zero (x ∷ v) h = absurd cc
    AreEntries-read_entries raw_get i (suc n) v h =
        let (x, e₁, h₁) = >>=-eq-ok (entry_number i (raw_get i)) _ h in
        let (xs, e₂, h₂) = >>=-eq-ok (read_entries raw_get (suc i) n) _ h₁ in
        let (l, rest) = AreEntries-read_entries raw_get (suc i) n xs e₂ in
        let same : x ∷ xs ≡ v = cc in
        rw (← same) (
          omega (arith, l),
          cons-at raw_get i n x xs ((entry_number_iff i (raw_get i) x).0 e₁) rest,
        )

    read_entries-AreEntries :
        (raw_get : ℕ → Entry F) (i n : ℕ) (v : List F)
        → AreEntries raw_get i n v
        → read_entries raw_get i n ≡ ok v
    unfolding read_entries
    read_entries-AreEntries raw_get i zero [] h = refl
    read_entries-AreEntries raw_get i zero (x ∷ v) (l, h) = absurd (omega (arith, l))
    read_entries-AreEntries raw_get i (suc n) [] (l, h) = absurd (omega (arith, l))
    read_entries-AreEntries raw_get i (suc n) (x ∷ v) (l, h) =
        let here = (entry_number_iff i (raw_get i) x).1 (first-at raw_get i n x v h) in
        let rest =
          read_entries-AreEntries raw_get (suc i) n v
            (omega (arith, l), rest-at raw_get i n x v h) in
        rw here (rw rest refl)

    check_keys_iff :
        (ks : List (Entry F)) → (check_keys ks ≡ ok tt) ↔ ((k : Entry F) → In k ks → IsInteger k)
    unfolding check_keys
    check_keys_iff [] = (λ h k m. absurd m, λ h. refl)
    check_keys_iff (integer n ∷ ks) =
        let (forth, back) = check_keys_iff ks in
        (λ h k m. elim m [ inl e ↦ rw e tt | inr r ↦ forth h k r ], λ h. back (λ k m. h k (inr m)))
    check_keys_iff (number x ∷ ks) = (λ h. absurd cc, λ h. absurd (h (number x) (inl refl)))
    check_keys_iff (other ∷ ks) = (λ h. absurd cc, λ h. absurd (h other (inl refl)))

    -- A table is read as a vector exactly when its keys are integers and the vector has, in order,
    -- the numbers under the keys from 1 to `raw_len`; other integer keys are passed over.
    pub to_vec_iff : (t : Table F) (v : List F) → (to_vec t ≡ ok v) ↔ IsVector t v
    unfolding to_vec
    to_vec_iff t v = (
      λ h.
          let (u, e, h') = >>=-eq-ok (check_keys t.keys) _ h in
          ((check_keys_iff t.keys).0 e, AreEntries-read_entries t.raw_get 1 t.raw_len v h'),
      λ (ks, es).
          rw ((check_keys_iff t.keys).1 ks) (read_entries-AreEntries t.raw_get 1 t.raw_len v es),
    )
