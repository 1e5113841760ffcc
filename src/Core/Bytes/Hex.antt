-- ===== src/Core/Bytes/Hex.antt =====
-- Hex text round trips both ways.
use cemp_mobile.Prelude.{
  ℕ, ◌+◌, ◌*◌, ◌/◌, ◌%◌, ◌<◌, ◌≡◌, refl, subst, ap, true, List, [], ◌∷◌, ok, arith, length, all,
  All,
}
use cemp_mobile.Core.Bytes.{
  IsByte, hex_digit, bytes_to_hex, is_hex_char, hex_value, hex_pairs, hex_to_bytes,
}

hex_digit_lem :
    (n : ℕ) → n < 16 → (is_hex_char (hex_digit n) ≡ true) × (hex_value (hex_digit n) ≡ n)
unfolding hex_digit is_hex_char hex_value
hex_digit_lem n h = ground arith

hex_value_lem : (c : ℕ) → is_hex_char c ≡ true → (hex_value c < 16) × (hex_digit (hex_value c) ≡ c)
unfolding hex_digit is_hex_char hex_value
hex_value_lem c h = ground arith

bytes_to_hex-IsHex :
    (bs : List ℕ)
    → All IsByte bs
    → (all is_hex_char (bytes_to_hex bs) ≡ true)
      × (length (bytes_to_hex bs) ≡ 2 * length bs)
      × (hex_pairs (bytes_to_hex bs) ≡ bs)
unfolding bytes_to_hex hex_pairs
bytes_to_hex-IsHex [] h = (refl, omega arith, refl)
bytes_to_hex-IsHex (b ∷ bs) h =
    let byte : b < 256 = h.0 in
    let hi = hex_digit_lem (b / 16) (omega arith) in
    let lo = hex_digit_lem (b % 16) (omega arith) in
    let (chars, len, pairs) = bytes_to_hex-IsHex bs h.1 in
    (
      rw (hi.0, lo.0) chars,
      omega (arith, len),
      rw (hi.1, lo.1, pairs) (ap (λ x. x ∷ bs) (omega arith)),
    )

-- Bytes written as hex are read back.
pub hex_to_bytes-bytes_to_hex :
    (bs : List ℕ) → All IsByte bs → hex_to_bytes (bytes_to_hex bs) ≡ ok bs
unfolding hex_to_bytes
hex_to_bytes-bytes_to_hex bs h =
    let (chars, len, pairs) = bytes_to_hex-IsHex bs h in ground (arith, chars, len, pairs)

hex_pairs-canonical :
    (cs : List ℕ)
    → all is_hex_char cs ≡ true
    → length cs % 2 ≡ 0
    → (bytes_to_hex (hex_pairs cs) ≡ cs) × All IsByte (hex_pairs cs)
unfolding bytes_to_hex hex_pairs
hex_pairs-canonical [] h e = (refl, tt)
hex_pairs-canonical (a ∷ []) h e = absurd (omega arith)
hex_pairs-canonical (a ∷ b ∷ cs) h e =
    let both : (is_hex_char a ≡ true) × (is_hex_char b ≡ true) × (all is_hex_char cs ≡ true) =
      ground arith in
    let hi = hex_value_lem a both.0 in
    let lo = hex_value_lem b both.1 in
    let (text, bytes) = hex_pairs-canonical cs both.2 (omega arith) in
    let high : (16 * hex_value a + hex_value b) / 16 ≡ hex_value a = omega (arith, lo.0) in
    let low : (16 * hex_value a + hex_value b) % 16 ≡ hex_value b = omega (arith, lo.0) in
    (rw (high, low, hi.1, lo.1, text) refl, (omega (arith, hi.0, lo.0), bytes))

hex_to_bytes_ok :
    (cs bs : List ℕ)
    → hex_to_bytes cs ≡ ok bs
    → (all is_hex_char cs ≡ true) × (length cs % 2 ≡ 0) × (hex_pairs cs ≡ bs)
unfolding hex_to_bytes
hex_to_bytes_ok cs bs h = ground arith

-- Text is read only if it is the hex that is written for the bytes read, which are bytes: an odd
-- length, an upper-case digit or any other character is refused.
pub bytes_to_hex-hex_to_bytes :
    (cs bs : List ℕ) → hex_to_bytes cs ≡ ok bs → (bytes_to_hex bs ≡ cs) × All IsByte bs
bytes_to_hex-hex_to_bytes cs bs h =
    let (chars, even, pairs) = hex_to_bytes_ok cs bs h in
    subst (λ x. (bytes_to_hex x ≡ cs) × All IsByte x) pairs (hex_pairs-canonical cs chars even)
