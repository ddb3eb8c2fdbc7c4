-- ===== src/Stdlib/Vec.antt =====
-- crates/luaml/src/stdlib/vec.rs: vectors of any dimension, behind the functions that scripts are
-- given. A function takes Lua tables, by what it reads of them, and its result is the vector that
-- `from_vec` puts into a fresh table.
pub mod Entries
pub mod Dimensions
use luaml.Prelude.{ℕ, zero, suc, ◌==◌, ◌||◌, List, [], ◌∷◌, map, length, if◌then◌else◌}
use luaml.Prelude.Int.{ℤ}
use luaml.Prelude.Outcome.{Outcome, ok, err, ◌>>=◌, ◌>>◌}
use luaml.Types.{Float}

-- The arithmetic of f64, and `Iterator::sum`.
pub record Arithmetic (F : Type 0) : Type 0 where
  pub add : F → F → F
  pub sub : F → F → F
  pub mul : F → F → F
  pub div : F → F → F
  pub sqrt : F → F
  pub sum : List F → F

-- What `Value::Integer(x)` and `Value::Number(x)` match, or a value of any other type.
pub data Entry (F : Type 0) : Type 0 where
  integer : ℤ → Entry F
  number : F → Entry F
  other : Entry F

-- A Lua table, by what `to_vec` reads: the keys of `pairs`, `raw_len` and `raw_get`.
pub record Table (F : Type 0) : Type 0 where
  pub keys : List (Entry F)
  pub raw_len : ℕ
  pub raw_get : ℕ → Entry F

-- The runtime errors, by what their texts say.
pub data VecError : Type 0 where
  expected_list zero_vector undefined_for_zero : VecError
  not_a_number : ℕ → VecError
  dim_mismatch cross_requires : ℕ → ℕ → VecError

module _ {F : Type 0} where
  unfoldable pub check_keys : List (Entry F) → Outcome VecError (Unit {0})
  check_keys [] = ok tt
  check_keys (integer n ∷ ks) = check_keys ks
  check_keys (k ∷ ks) = err expected_list

  unfoldable pub entry_number : ⦃fl : Float F⦄ → ℕ → Entry F → Outcome VecError F
  entry_number ⦃fl⦄ i (integer n) = ok (fl.from_i64 n)
  entry_number i (number x) = ok x
  entry_number i other = err (not_a_number i)

  -- The loop over the indices from `i`, of which `n` are left.
  unfoldable pub read_entries : ⦃fl : Float F⦄ → (ℕ → Entry F) → ℕ → ℕ → Outcome VecError (List F)
  unfolding entry_number
  read_entries raw_get i zero = ok []
  read_entries raw_get i (suc n) =
      entry_number i (raw_get i) >>= λ x. read_entries raw_get (suc i) n >>= λ xs. ok (x ∷ xs)

  unfoldable pub to_vec : ⦃fl : Float F⦄ → Table F → Outcome VecError (List F)
  unfolding check_keys read_entries
  to_vec t = check_keys t.keys >> read_entries t.raw_get 1 t.raw_len

  -- `zip` and `map`.
  abbrev pub zip_with : (F → F → F) → List F → List F → List F
  zip_with f (x ∷ a) (y ∷ b) = f x y ∷ zip_with f a b
  zip_with f _ _ = []

  unfoldable pub check_same_dim : List F → List F → Outcome VecError (Unit {0})
  check_same_dim a b =
      if length a == length b then ok tt else err (dim_mismatch (length a) (length b))

  unfoldable pub inner_product : ⦃ar : Arithmetic F⦄ → List F → List F → F
  inner_product ⦃ar⦄ a b = ar.sum (zip_with ar.mul a b)

  unfoldable pub norm_of : ⦃ar : Arithmetic F⦄ → List F → F
  norm_of ⦃ar⦄ a = ar.sqrt (ar.sum (map (λ x. ar.mul x x) a))

  -- Two tables of one dimension, as vectors.
  abbrev pub pair_of :
      {B : Type 0}
      → ⦃fl : Float F⦄ → Table F
      → Table F
      → (List F → List F → Outcome VecError B)
      → Outcome VecError B
  unfolding to_vec check_same_dim
  pair_of s t next = to_vec s >>= λ a. to_vec t >>= λ b. check_same_dim a b >> next a b

  module _ ⦃fl : Float F⦄ ⦃ar : Arithmetic F⦄ where
    unfoldable pub add : Table F → Table F → Outcome VecError (List F)
    unfolding to_vec check_same_dim
    add s t = pair_of s t (λ a b. ok (zip_with ar.add a b))

    unfoldable pub sub : Table F → Table F → Outcome VecError (List F)
    unfolding to_vec check_same_dim
    sub s t = pair_of s t (λ a b. ok (zip_with ar.sub a b))

    unfoldable pub scale : Table F → F → Outcome VecError (List F)
    unfolding to_vec
    scale t k = to_vec t >>= λ a. ok (map (λ x. ar.mul x k) a)

    unfoldable pub dot : Table F → Table F → Outcome VecError F
    unfolding to_vec check_same_dim inner_product
    dot s t = pair_of s t (λ a b. ok (inner_product a b))

    abbrev pub cross_of : List F → List F → Outcome VecError (List F)
    cross_of (x ∷ y ∷ z ∷ []) (u ∷ v ∷ w ∷ []) = ok (
        ar.sub (ar.mul y w) (ar.mul z v)
        ∷ ar.sub (ar.mul z u) (ar.mul x w)
        ∷ ar.sub (ar.mul x v) (ar.mul y u)
        ∷ [])
    cross_of a b = err (cross_requires (length a) (length b))

    unfoldable pub cross : Table F → Table F → Outcome VecError (List F)
    unfolding to_vec
    cross s t = to_vec s >>= λ a. to_vec t >>= λ b. cross_of a b

    unfoldable pub norm : Table F → Outcome VecError F
    unfolding to_vec norm_of
    norm t = to_vec t >>= λ a. ok (norm_of a)

    unfoldable pub normalize : Table F → Outcome VecError (List F)
    unfolding to_vec norm_of
    normalize t = to_vec t >>= λ a.
        let n = norm_of a in
        if fl.feq n fl.zero_float then err zero_vector else ok (map (λ x. ar.div x n) a)

    abbrev square : F → F
    square d = ar.mul d d

    unfoldable pub distance : Table F → Table F → Outcome VecError F
    unfolding to_vec check_same_dim
    distance s t =
        pair_of s t (λ a b. ok (ar.sqrt (ar.sum (zip_with (λ x y. square (ar.sub x y)) a b))))

    abbrev cosine : List F → List F → Outcome VecError F
    unfolding inner_product norm_of
    cosine a b =
        let na = norm_of a in
        let nb = norm_of b in
        if fl.feq na fl.zero_float || fl.feq nb fl.zero_float
        then err undefined_for_zero
        else ok (ar.div (inner_product a b) (ar.mul na nb))

    unfoldable pub cosine_sim : Table F → Table F → Outcome VecError F
    unfolding to_vec check_same_dim inner_product norm_of
    cosine_sim s t = pair_of s t cosine
