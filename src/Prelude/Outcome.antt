-- ===== src/Prelude/Outcome.antt =====
-- What a run of fallible Rust code ends in. `err` is an `Err`, `panic` a panic (here always a slice
-- out of range), and `out_of_fuel` belongs to the model only.
use mathlib.Core.Path.{◌≡◌, refl}

pub data Outcome {ℓ κ} (E : Type κ) (A : Type ℓ) : Type (ℓ ⊔ κ) where
  ok : A → Outcome E A
  err : E → Outcome E A
  panic out_of_fuel : Outcome E A

infixl 5 ◌>>=◌ ◌>>◌
abbrev pub ◌>>=◌ {ℓ κ λ'} :
    {E : Type κ} {A : Type ℓ} {B : Type λ'} → Outcome E A → (A → Outcome E B) → Outcome E B
panic >>= next = panic
out_of_fuel >>= next = out_of_fuel
err failure >>= next = err failure
ok value >>= next = next value

abbrev pub ◌>>◌ {ℓ κ} : {E : Type κ} {B : Type ℓ} → Outcome E (Unit {0}) → Outcome E B → Outcome E B
first >> second = first >>= λ _. second

-- `map_err`.
abbrev pub map_err {ℓ κ λ'} :
    {E : Type κ} {E' : Type λ'} {A : Type ℓ} → (E → E') → Outcome E A → Outcome E' A
map_err f (ok a) = ok a
map_err f (err e) = err (f e)
map_err f panic = panic
map_err f out_of_fuel = out_of_fuel

-- The run ended in an error, or in a value of which `P` holds: no panic, and fuel enough.
abbrev pub Returns {ℓ κ} : {E : Type κ} {A : Type ℓ} → (A → Type 0) → Outcome E A → Type 0
Returns P (ok a) = P a
Returns P (err e) = Unit
Returns P panic = ⊥
Returns P out_of_fuel = ⊥

pub Returns-bind {ℓ κ λ'} :
    {E : Type κ} {A : Type ℓ} {B : Type λ'} (P : A → Type 0) (Q : B → Type 0) (m : Outcome E A)
    (f : A → Outcome E B)
    → Returns P m
    → ((a : A) → P a → Returns Q (f a))
    → Returns Q (m >>= f)
Returns-bind P Q (ok a) f h k = k a h
Returns-bind P Q (err e) f h k = tt
Returns-bind P Q panic f h k = h
Returns-bind P Q out_of_fuel f h k = h

pub Returns-imp {ℓ κ} :
    {E : Type κ} {A : Type ℓ} (P Q : A → Type 0) (m : Outcome E A)
    → ((a : A) → P a → Q a)
    → Returns P m
    → Returns Q m
Returns-imp P Q (ok a) k h = k a h
Returns-imp P Q (err e) k h = tt
Returns-imp P Q panic k h = h
Returns-imp P Q out_of_fuel k h = h

-- Any value will do.
abbrev pub Ends {ℓ κ} : {E : Type κ} {A : Type ℓ} → Outcome E A → Type 0
Ends m = Returns (λ _. Unit) m

-- The run ended in a value.
abbrev pub IsOk {ℓ κ} : {E : Type κ} {A : Type ℓ} → Outcome E A → Type 0
IsOk (ok _) = Unit
IsOk _ = ⊥

-- The fuel was enough.
abbrev pub EnoughFuel {ℓ κ} : {E : Type κ} {A : Type ℓ} → Outcome E A → Type 0
EnoughFuel out_of_fuel = ⊥
EnoughFuel _ = Unit

pub EnoughFuel-bind {ℓ κ λ'} :
    {E : Type κ} {A : Type ℓ} {B : Type λ'} (m : Outcome E A) (f : A → Outcome E B)
    → EnoughFuel m
    → ((a : A) → m ≡ ok a → EnoughFuel (f a))
    → EnoughFuel (m >>= f)
EnoughFuel-bind (ok a) f h k = k a refl
EnoughFuel-bind (err e) f h k = tt
EnoughFuel-bind panic f h k = tt
EnoughFuel-bind out_of_fuel f h k = h

pub >>=-eq-ok {ℓ κ λ'} :
    {E : Type κ} {A : Type ℓ} {B : Type λ'} {b : B} (m : Outcome E A) (f : A → Outcome E B)
    → m >>= f ≡ ok b
    → (a : A) × (m ≡ ok a) × (f a ≡ ok b)
>>=-eq-ok (ok a) f h = (a, refl, h)
>>=-eq-ok (err e) f h = absurd cc
>>=-eq-ok panic f h = absurd cc
>>=-eq-ok out_of_fuel f h = absurd cc
