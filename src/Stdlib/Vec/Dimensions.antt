-- ===== src/Stdlib/Vec/Dimensions.antt =====
-- crates/luaml/src/stdlib/vec.rs: operations on two vectors, and their dimensions.
use luaml.Prelude.{ℕ, List, [], ◌∷◌, length, ◌≡◌, ◌≢◌, refl, ◌⊎◌, inl, inr, arith}
use luaml.Prelude.Outcome.{Outcome, ok, err}
use luaml.Types.{Float}
use luaml.Stdlib.Vec.{
  Table, Arithmetic, VecError, dim_mismatch, to_vec, zip_with, check_same_dim, add, sub, dot,
  distance, cosine_sim, inner_product,
}
use luaml.Stdlib.Vec.Entries.{to_vec_iff}

module _ {F : Type 0} where
  length-zip_with :
      (f : F → F → F) (a b : List F) → length a ≡ length b → length (zip_with f a b) ≡ length a
  length-zip_with f [] b e = refl
  length-zip_with f (x ∷ a) [] e = absurd (omega (arith, e))
  length-zip_with f (x ∷ a) (y ∷ b) e = omega (arith, length-zip_with f a b (omega (arith, e)))

  check_same_dim-cases :
      (a b : List F)
      → ((length a ≡ length b) × (check_same_dim a b ≡ ok tt))
        ⊎ ((length a ≢ length b) × (check_same_dim a b ≡ err (dim_mismatch (length a) (length b))))
  unfolding check_same_dim
  check_same_dim-cases a b = ground arith

  module _ ⦃fl : Float F⦄ ⦃ar : Arithmetic F⦄ where
    length-to_vec : (t : Table F) (v : List F) → to_vec t ≡ ok v → length v ≡ t.raw_len
    length-to_vec t v h = ((to_vec_iff t v).0 h).1.0

    -- What a pairwise operation does with an error of its operands' dimensions.
    abbrev pub Mismatch : Table F → Table F → Type 0
    Mismatch s t =
        let e = dim_mismatch s.raw_len t.raw_len in
        (add s t ≡ err e)
        × (sub s t ≡ err e)
        × (dot s t ≡ err e)
        × (distance s t ≡ err e)
        × (cosine_sim s t ≡ err e)

    abbrev pub OfDimension : ℕ → Outcome VecError (List F) → Type 0
    OfDimension n o = (v : List F) × (o ≡ ok v) × (length v ≡ n)

    -- Two tables that are read as vectors either have one length, and then add and sub give
    -- vectors of that length and dot gives a number, or have different lengths, and then add, sub,
    -- dot, distance and cosine_sim give an error that tells the two.
    pub pairwise-dims :
        (s t : Table F) (a b : List F)
        → to_vec s ≡ ok a
        → to_vec t ≡ ok b
        → ((s.raw_len ≡ t.raw_len)
            × OfDimension s.raw_len (add s t)
            × OfDimension s.raw_len (sub s t)
            × (dot s t ≡ ok (inner_product a b)))
          ⊎ ((s.raw_len ≢ t.raw_len) × Mismatch s t)
    unfolding add sub dot distance cosine_sim
    pairwise-dims s t a b p q =
        let m = length-to_vec s a p in
        let n = length-to_vec t b q in
        elim (check_same_dim-cases a b) [
          | inl (e, c) ↦ inl (
            omega (arith, m, n, e),
            (zip_with ar.add a b, rw p (rw q (rw c refl)), rw (length-zip_with ar.add a b e) m),
            (zip_with ar.sub a b, rw p (rw q (rw c refl)), rw (length-zip_with ar.sub a b e) m),
            rw p (rw q (rw c refl)),
          )
          | inr (e, c) ↦
              let told : check_same_dim a b ≡ err (dim_mismatch s.raw_len t.raw_len) =
                rw (← m, ← n) c in
              inr (
                λ h. e (omega (arith, m, n, h)),
                (
                  rw p (rw q (rw told refl)),
                  rw p (rw q (rw told refl)),
                  rw p (rw q (rw told refl)),
                  rw p (rw q (rw told refl)),
                  rw p (rw q (rw told refl)),
                ),
              )
        ]
