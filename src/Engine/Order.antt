-- ===== src/Engine/Order.antt =====
-- The signature of an event does not depend on the order of its fields.
use luaml.Prelude.{◌≡◌, ◌≢◌, refl, ap, ◌∙◌, Text, [], ◌∷◌, Ordering, text_cmp, arith, inl, inr, ◌⊎◌}
use luaml.Types.{Float, FieldValue, FieldMap, entry}
use luaml.Engine.Signature.{FieldValueSig, SigPairs, no_pairs, pair, insert_sorted, event_signature}

cmp_refl : (s : Text) → text_cmp s s ≡ Ordering.eq
unfolding text_cmp
cmp_refl [] = refl
cmp_refl (c ∷ s) = ground (arith, cmp_refl s)

cmp-eq : (s t : Text) → text_cmp s t ≡ Ordering.eq → s ≡ t
unfolding text_cmp
cmp-eq [] [] h = refl
cmp-eq [] (d ∷ t) h = cc
cmp-eq (c ∷ s) [] h = cc
cmp-eq (c ∷ s) (d ∷ t) h = ground (arith, cmp-eq s t)

cmp-flip : (s t : Text) → text_cmp s t ≡ Ordering.gt → text_cmp t s ≡ Ordering.lt
unfolding text_cmp
cmp-flip [] [] h = cc
cmp-flip [] (d ∷ t) h = cc
cmp-flip (c ∷ s) [] h = refl
cmp-flip (c ∷ s) (d ∷ t) h = ground (arith, cmp-flip s t)

cmp-flip' : (s t : Text) → text_cmp s t ≡ Ordering.lt → text_cmp t s ≡ Ordering.gt
unfolding text_cmp
cmp-flip' [] [] h = cc
cmp-flip' [] (d ∷ t) h = refl
cmp-flip' (c ∷ s) [] h = cc
cmp-flip' (c ∷ s) (d ∷ t) h = ground (arith, cmp-flip' s t)

cmp_trans :
    (s t u : Text)
    → text_cmp s t ≡ Ordering.gt
    → text_cmp t u ≡ Ordering.gt
    → text_cmp s u ≡ Ordering.gt
unfolding text_cmp
cmp_trans [] [] u h g = cc
cmp_trans [] (d ∷ t) u h g = cc
cmp_trans (c ∷ s) [] [] h g = cc
cmp_trans (c ∷ s) [] (e ∷ u) h g = cc
cmp_trans (c ∷ s) (d ∷ t) [] h g = refl
cmp_trans (c ∷ s) (d ∷ t) (e ∷ u) h g = ground (arith, cmp_trans s t u)

Ordering-cases : (o : Ordering) → (o ≡ Ordering.eq) ⊎ ((o ≡ Ordering.gt) ⊎ (o ≡ Ordering.lt))
Ordering-cases Ordering.eq = inl refl
Ordering-cases Ordering.gt = inr (inl refl)
Ordering-cases Ordering.lt = inr (inr refl)

-- Of two different keys, one comes after the other.
cmp-apart :
    (k j : Text)
    → k ≢ j
    → ((text_cmp k j ≡ Ordering.gt) × (text_cmp j k ≡ Ordering.lt))
      ⊎ ((text_cmp k j ≡ Ordering.lt) × (text_cmp j k ≡ Ordering.gt))
cmp-apart k j apart = elim (Ordering-cases (text_cmp k j)) [
  | inl e ↦ absurd (apart (cmp-eq k j e))
  | inr (inl g) ↦ inl (g, cmp-flip k j g)
  | inr (inr l) ↦ inr (l, cmp-flip' k j l)
]

insert-swap :
    (k j : Text) (v w : FieldValueSig) (ps : SigPairs)
    → k ≢ j
    → insert_sorted k v (insert_sorted j w ps) ≡ insert_sorted j w (insert_sorted k v ps)
unfolding insert_sorted
insert-swap k j v w no_pairs apart = elim (cmp-apart k j apart) [
  | inl (a, b) ↦ ground arith
  | inr (a, b) ↦ ground arith
]
insert-swap k j v w (pair i x ps) apart = elim (cmp-apart k j apart) [
  | inl (a, b) ↦ ground (
    arith,
    insert-swap k j v w ps apart,
    cmp_trans k j i,
    cmp_trans j i k,
    cmp_trans i j k,
    cmp-flip i j,
    cmp-flip' j i,
    cmp-eq j i,
  )
  | inr (a, b) ↦ ground (
    arith,
    insert-swap k j v w ps apart,
    cmp_trans k j i,
    cmp_trans j i k,
    cmp_trans j k i,
    cmp_trans i j k,
    cmp_trans i k j,
    cmp-flip i k,
    cmp-flip i j,
    cmp-flip' j i,
    cmp-flip' k i,
    cmp-eq j i,
    cmp-eq k i,
  )
]

-- The same entries in another order, at the top and in the maps among the values.
pub data Reordered {F : Type 0} : FieldMap F → FieldMap F → Type 0 where
  same : (m : FieldMap F) → Reordered m m
  swap :
      (k j : Text) (v w : FieldValue F) (m : FieldMap F)
      → k ≢ j
      → Reordered (entry k v (entry j w m)) (entry j w (entry k v m))
  under :
      (k : Text) (v : FieldValue F) (m n : FieldMap F)
      → Reordered m n
      → Reordered (entry k v m) (entry k v n)
  inside :
      (k : Text) (u u' m : FieldMap F)
      → Reordered u u'
      → Reordered (entry k (FieldValue.map u) m) (entry k (FieldValue.map u') m)
  trans : (l m n : FieldMap F) → Reordered l m → Reordered m n → Reordered l n

-- Events that differ only in the order of their entries, also in the maps among their values, have
-- the same signature.
pub event_signature-Reordered :
    {F : Type 0} ⦃fl : Float F⦄ (a b : FieldMap F)
    → Reordered a b
    → event_signature a ≡ event_signature b
unfolding event_signature
event_signature-Reordered a b (same m) = refl
event_signature-Reordered a b (swap k j v w m apart) = insert-swap k j _ _ _ apart
event_signature-Reordered a b (under k v m n r) =
    ap (insert_sorted k _) (event_signature-Reordered m n r)
event_signature-Reordered a b (inside k u u' m r) =
    ap (λ s. insert_sorted k (FieldValueSig.map s) (event_signature m))
      (event_signature-Reordered u u' r)
event_signature-Reordered a b (trans l m n r s) =
    event_signature-Reordered l m r ∙ event_signature-Reordered m n s
