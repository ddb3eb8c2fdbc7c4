-- ===== src/Stdlib/Url/RoundTrip.antt =====
-- Decoding what was encoded.
use luaml.Prelude.{
  ℕ, ◌*◌, ◌/◌, ◌%◌, ◌<◌, ◌≤◌, ◌≡◌, refl, ap, ◌∙◌, true, false, ◌||◌, some, [], ◌∷◌, ◌==◌,
  if◌then◌else◌, is_ascii_digit, is_ascii_alphabetic, Bool-cases, inl, inr, length, arith,
}
use luaml.Stdlib.Url.{
  Bytes, hex_digit, encode_component, to_digit, triplet, after_triplet, decode_component,
}

abbrev pub AllBytes : Bytes → Type 0
AllBytes [] = Unit
AllBytes (c ∷ s) = (c < 256) × AllBytes s

-- Letters, digits and percent signs.
abbrev pub AllSafe : Bytes → Type 0
AllSafe [] = Unit
AllSafe (c ∷ s) = ((is_ascii_alphabetic c || is_ascii_digit c || c == b'%') ≡ true) × AllSafe s

to_digit-hex_digit : (n : ℕ) → n < 16 → to_digit (hex_digit n) ≡ some n
unfolding to_digit
to_digit-hex_digit n h = ground arith

hex_digit-safe :
    (n : ℕ)
    → n < 16
    → (is_ascii_alphabetic (hex_digit n) || is_ascii_digit (hex_digit n) || hex_digit n == b'%')
      ≡ true
hex_digit-safe n h = ground arith

-- A byte that is no percent sign stands for itself.
decode-literal :
    (c : ℕ) (s : Bytes) → (c == b'%') ≡ false → decode_component (c ∷ s) ≡ c ∷ decode_component s
unfolding decode_component
decode-literal c [] h = refl
decode-literal c (d ∷ []) h = refl
decode-literal c (d ∷ e ∷ s) h = rw (h, if◌then◌else◌) refl

decode-triplet :
    (c : ℕ) (s : Bytes)
    → c < 256
    → decode_component (b'%' ∷ hex_digit (c / 16) ∷ hex_digit (c % 16) ∷ s) ≡ c ∷ decode_component s
unfolding decode_component
decode-triplet c s h =
    rw
      (
        to_digit-hex_digit (c / 16) (omega arith),
        to_digit-hex_digit (c % 16) (omega arith),
        triplet,
        after_triplet,
      )
      (ap (λ b. b ∷ decode_component s) (omega arith))

alphanumeric-literal :
    (c : ℕ) → (is_ascii_alphabetic c || is_ascii_digit c) ≡ true → (c == b'%') ≡ false
alphanumeric-literal c h = ground arith

encode-decode : (s : Bytes) → AllBytes s → decode_component (encode_component s) ≡ s
unfolding encode_component
encode-decode [] h = unfold decode_component in refl
encode-decode (c ∷ s) h = elim (Bool-cases (is_ascii_alphabetic c || is_ascii_digit c)) [
  | inl e ↦
      rw (e, if◌then◌else◌)
        (decode-literal c (encode_component s) (alphanumeric-literal c e)
          ∙ ap (λ t. c ∷ t) (encode-decode s h.1))
  | inr e ↦
      rw (e, if◌then◌else◌)
        (decode-triplet c (encode_component s) h.0 ∙ ap (λ t. c ∷ t) (encode-decode s h.1))
]

encode-AllSafe :
    (s : Bytes)
    → AllBytes s
    → AllSafe (encode_component s) × (length (encode_component s) ≤ 3 * length s)
unfolding encode_component
encode-AllSafe [] h = (tt, omega arith)
encode-AllSafe (c ∷ s) h =
    let (safe, short) = encode-AllSafe s h.1 in
    elim (Bool-cases (is_ascii_alphabetic c || is_ascii_digit c)) [
      | inl e ↦ rw (e, if◌then◌else◌) ((ground (arith, e), safe), omega (arith, short))
      | inr e ↦
          rw (e, if◌then◌else◌)
            (
              (
                refl,
                (
                  hex_digit-safe (c / 16) (omega (arith, h.0)),
                  (hex_digit-safe (c % 16) (omega arith), safe),
                ),
              ),
              omega (arith, short),
            )
    ]

-- Decoding an encoded component gives its bytes back; encoded, it consists of letters, digits and
-- percent signs, and is at most three times as long.
pub decode_component-encode_component :
    (s : Bytes)
    → AllBytes s
    → (decode_component (encode_component s) ≡ s)
      × AllSafe (encode_component s)
      × (length (encode_component s) ≤ 3 * length s)
decode_component-encode_component s h =
    let (safe, short) = encode-AllSafe s h in (encode-decode s h, safe, short)
