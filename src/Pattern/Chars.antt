-- ===== src/Pattern/Chars.antt =====
-- The Unicode tables of Rust's standard library that the program reads, and what it relies on:
-- `char::is_alphabetic` and `char::is_alphanumeric`, which on ASCII are the letters and digits.
use luaml.Prelude.{
  ℕ, ◌<◌, ◌≡◌, Bool, true, false, ◌||◌, ◌&&◌, Text, [], ◌∷◌, is_ascii_digit, is_ascii_alphabetic,
  is_whitespace, ◌==◌,
}

pub record Unicode : Type 0 where
  pub is_alphabetic : ℕ → Bool
  pub is_alphanumeric : ℕ → Bool
  pub alphabetic_ascii : (c : ℕ) → c < 128 → is_alphabetic c ≡ is_ascii_alphabetic c
  pub alphanumeric_ascii :
      (c : ℕ) → c < 128 → is_alphanumeric c ≡ (is_ascii_alphabetic c || is_ascii_digit c)
  pub whitespace_alphanumeric : (c : ℕ) → is_alphanumeric c ≡ true → is_whitespace c ≡ false
  pub alphabetic_alphanumeric : (c : ℕ) → is_alphabetic c ≡ true → is_alphanumeric c ≡ true

module _ ⦃u : Unicode⦄ where
  -- `chars.all(|c| c.is_alphanumeric() || c == '_')`.
  unfoldable pub all_identifier_chars : Text → Bool
  all_identifier_chars [] = true
  all_identifier_chars (c ∷ s) = (u.is_alphanumeric c || c == b'_') && all_identifier_chars s

  unfoldable pub is_identifier : Text → Bool
  unfolding all_identifier_chars
  is_identifier [] = false
  is_identifier (c ∷ s) = (u.is_alphabetic c || c == b'_') && all_identifier_chars s
