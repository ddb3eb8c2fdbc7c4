-- ===== src/Types.antt =====
-- crates/luaml/src/types.rs: the runtime values, and the hash maps that hold them.
--
-- f64 is a parameter: a type `F` with the operations of `Float` that the program calls.
use luaml.Prelude.{Text, ℕ, Bool, Option, none, some, text_eq, if◌then◌else◌, Ordering}
use luaml.Prelude.Int.{ℤ}

-- The operations of f64: `as f64`, `str::parse`, `==`, `partial_cmp`, `0.0` and `to_bits`.
pub record Float (F : Type 0) : Type 0 where
  pub from_i64 : ℤ → F
  pub parse : Text → Option F
  pub feq : F → F → Bool
  pub partial_cmp : F → F → Option Ordering
  pub zero_float : F
  pub to_bits : F → ℕ

-- `Values` and `FieldMap` are `Vec<FieldValue>` and `HashMap<String, FieldValue>`. A map is a list
-- of entries in the order of its iteration, which the program must not rely on.
mutual
  pub data FieldValue (F : Type 0) : Type 0 where
    enum : Text → FieldValue F
    string : Text → FieldValue F
    number : ℤ → FieldValue F
    float : F → FieldValue F
    bool : Bool → FieldValue F
    list : Values F → FieldValue F
    map : FieldMap F → FieldValue F
    null : FieldValue F

  pub data Values (F : Type 0) : Type 0 where
    nil : Values F
    cons : FieldValue F → Values F → Values F

  pub data FieldMap (F : Type 0) : Type 0 where
    empty : FieldMap F
    entry : Text → FieldValue F → FieldMap F → FieldMap F

module _ {F : Type 0} where
  -- `HashMap::get`.
  unfoldable pub get : FieldMap F → Text → Option (FieldValue F)
  get empty k = none
  get (entry j v m) k = if text_eq j k then some v else get m k

  -- `HashMap::insert`: the value of a key that is there is replaced.
  unfoldable pub insert : FieldMap F → Text → FieldValue F → FieldMap F
  insert empty k v = entry k v empty
  insert (entry j w m) k v = if text_eq j k then entry j v m else entry j w (insert m k v)

  -- `HashMap::extend`: the entries of the second map are inserted into the first.
  unfoldable pub extend : FieldMap F → FieldMap F → FieldMap F
  extend m empty = m
  extend m (entry k v r) = extend (insert m k v) r
