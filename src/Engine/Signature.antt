-- ===== src/Engine/Signature.antt =====
-- `EventSig` and `FieldValueSig`: the signature of an event, by which a cascade finds cycles.
use luaml.Prelude.{ℕ, Text, Bool, true, false, ◌&&◌, text_eq, text_cmp, Ordering, ◌==◌}
use luaml.Prelude.Int.{ℤ, int_eq}
use luaml.Types.{Float, FieldValue, Values, FieldMap, nil, cons}
use luaml.Matching.{bool_eq}

mutual
  pub data FieldValueSig : Type 0 where
    enum : Text → FieldValueSig
    string : Text → FieldValueSig
    number : ℤ → FieldValueSig
    float : ℕ → FieldValueSig
    bool : Bool → FieldValueSig
    null : FieldValueSig
    list : SigValues → FieldValueSig
    map : SigPairs → FieldValueSig

  pub data SigValues : Type 0 where
    no_sigs : SigValues
    sig_cons : FieldValueSig → SigValues → SigValues

  -- `Vec<(String, FieldValueSig)>`, and `EventSig`.
  pub data SigPairs : Type 0 where
    no_pairs : SigPairs
    pair : Text → FieldValueSig → SigPairs → SigPairs

-- A pair into its place by key; one of an equal key stays behind those that stood before it.
unfoldable pub insert_sorted : Text → FieldValueSig → SigPairs → SigPairs
insert_sorted k v no_pairs = pair k v no_pairs
insert_sorted k v (pair j w ps) = elim (text_cmp k j) [
  | Ordering.gt ↦ pair j w (insert_sorted k v ps)
  | _ ↦ pair k v (pair j w ps)
]

-- `sort_by(|a, b| a.0.cmp(&b.0))`, which is stable.
unfoldable pub sort_pairs : SigPairs → SigPairs
unfolding insert_sorted text_cmp
sort_pairs no_pairs = no_pairs
sort_pairs (pair k v ps) = insert_sorted k v (sort_pairs ps)

unfoldable mutual
  unfolding sort_pairs

  pub from_value : {F : Type 0} → Float F → FieldValue F → FieldValueSig
  from_value fl (FieldValue.enum s) = FieldValueSig.enum s
  from_value fl (FieldValue.string s) = FieldValueSig.string s
  from_value fl (FieldValue.number n) = FieldValueSig.number n
  from_value fl (FieldValue.float f) = FieldValueSig.float (fl.to_bits f)
  from_value fl (FieldValue.bool b) = FieldValueSig.bool b
  from_value fl FieldValue.null = FieldValueSig.null
  from_value fl (FieldValue.list xs) = FieldValueSig.list (from_values fl xs)
  from_value fl (FieldValue.map m) = FieldValueSig.map (sort_pairs (from_entries fl m))

  pub from_values : {F : Type 0} → Float F → Values F → SigValues
  from_values fl nil = no_sigs
  from_values fl (cons x xs) = sig_cons (from_value fl x) (from_values fl xs)

  pub from_entries : {F : Type 0} → Float F → FieldMap F → SigPairs
  from_entries fl FieldMap.empty = no_pairs
  from_entries fl (FieldMap.entry k v m) = pair k (from_value fl v) (from_entries fl m)

unfoldable pub event_signature : {F : Type 0} ⦃fl : Float F⦄ → FieldMap F → SigPairs
unfolding from_value
event_signature ⦃fl⦄ event = sort_pairs (from_entries fl event)

-- The derived `PartialEq`.
unfoldable mutual
  pub sig_eq : FieldValueSig → FieldValueSig → Bool
  sig_eq (FieldValueSig.enum s) (FieldValueSig.enum t) = text_eq s t
  sig_eq (FieldValueSig.string s) (FieldValueSig.string t) = text_eq s t
  sig_eq (FieldValueSig.number m) (FieldValueSig.number n) = int_eq m n
  sig_eq (FieldValueSig.float m) (FieldValueSig.float n) = m == n
  sig_eq (FieldValueSig.bool b) (FieldValueSig.bool c) = bool_eq b c
  sig_eq FieldValueSig.null FieldValueSig.null = true
  sig_eq (FieldValueSig.list xs) (FieldValueSig.list ys) = sig_values_eq xs ys
  sig_eq (FieldValueSig.map ps) (FieldValueSig.map qs) = sig_pairs_eq ps qs
  sig_eq _ _ = false

  pub sig_values_eq : SigValues → SigValues → Bool
  sig_values_eq no_sigs no_sigs = true
  sig_values_eq (sig_cons x xs) (sig_cons y ys) = sig_eq x y && sig_values_eq xs ys
  sig_values_eq _ _ = false

  pub sig_pairs_eq : SigPairs → SigPairs → Bool
  sig_pairs_eq no_pairs no_pairs = true
  sig_pairs_eq (pair k v ps) (pair j w qs) = text_eq k j && (sig_eq v w && sig_pairs_eq ps qs)
  sig_pairs_eq _ _ = false
