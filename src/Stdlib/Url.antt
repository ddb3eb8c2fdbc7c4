-- ===== src/Stdlib/Url.antt =====
-- crates/luaml/src/stdlib/url.rs: percent-encoding, on the bytes of a text. `as_bytes` comes before
-- each function, and `from_utf8_lossy` after the decoder.
pub mod RoundTrip
use luaml.Prelude.{
  ℕ, ◌+◌, ◌-◌, ◌*◌, ◌/◌, ◌%◌, Bool, ◌||◌, ◌&&◌, Option, none, some, List, [], ◌∷◌, ◌==◌, ltb, leb,
  if◌then◌else◌, is_ascii_digit, is_ascii_alphabetic,
}

-- The numbers below 256.
abbrev pub Bytes : Type 0
Bytes = List ℕ

-- A digit of `{:02X}`.
abbrev pub hex_digit : ℕ → ℕ
hex_digit n = if ltb n 10 then b'0' + n else b'A' + (n - 10)

unfoldable pub encode_component : Bytes → Bytes
encode_component [] = []
encode_component (c ∷ s) =
    let rest = encode_component s in
    if is_ascii_alphabetic c || is_ascii_digit c
    then c ∷ rest
    else b'%' ∷ hex_digit (c / 16) ∷ hex_digit (c % 16) ∷ rest

-- `to_digit(16)`.
unfoldable pub to_digit : ℕ → Option ℕ
to_digit c =
    if is_ascii_digit c
    then some (c - b'0')
    else if leb b'a' c && leb c b'f'
    then some (c - b'a' + 10)
    else if leb b'A' c && leb c b'F'
    then some (c - b'A' + 10)
    else none

-- The byte of a triplet with these digits.
abbrev pub triplet : Option ℕ → Option ℕ → Option ℕ
triplet (some h) (some l) = some ((h * 16 + l) % 256)
triplet _ _ = none

abbrev pub after_triplet : Option ℕ → Bytes → Bytes → Bytes
after_triplet (some b) decoded literal = b ∷ decoded
after_triplet none decoded literal = literal

-- The byte at `i`, and what follows: a triplet needs two bytes behind the percent sign.
unfoldable pub decode_component : Bytes → Bytes
unfolding to_digit
decode_component [] = []
decode_component (c ∷ []) = c ∷ []
decode_component (c ∷ h ∷ []) = c ∷ decode_component (h ∷ [])
decode_component (c ∷ h ∷ l ∷ s) =
    let decoded = decode_component s in
    let literal = c ∷ decode_component (h ∷ l ∷ s) in
    if c == b'%' then after_triplet (triplet (to_digit h) (to_digit l)) decoded literal else literal
