-- ===== src/Core/Bytes.antt =====
-- Byte helpers of packages/cemp-core/src/codec/codecs.ts. A Uint8Array is a list of numbers; hex text
-- is the list of its character codes.
pub mod Hex
pub mod Examples
use cemp_mobile.Prelude.{
  ℕ, zero, suc, ◌+◌, ◌-◌, ◌*◌, ◌/◌, ◌%◌, ◌<◌, ◌≡◌, ◌↔◌, refl, subst, ap, Bool, true, false, not,
  ◌&&◌, ◌||◌, List, [], ◌∷◌, ◌++◌, Result, ok, err, arith, if◌then◌else◌, ◌==◌, ltb, leb, length,
  all, Bool-cases, inl, inr, ==→eq, ==_refl,
}

abbrev pub IsByte : ℕ → Type 0
IsByte b = b < 256

-- The loop of `bytesEqual`, which runs over two arrays of one length.
unfoldable pub bytes_match : List ℕ → List ℕ → Bool
bytes_match [] ys = true
bytes_match (x ∷ xs) [] = false
bytes_match (x ∷ xs) (y ∷ ys) = (x == y) && bytes_match xs ys

unfoldable pub bytes_equal : List ℕ → List ℕ → Bool
unfolding bytes_match
bytes_equal a b = if length a == length b then bytes_match a b else false

-- `n.toString(16)` of one digit.
unfoldable pub hex_digit : ℕ → ℕ
hex_digit n = if ltb n 10 then b'0' + n else b'a' + (n - 10)

-- `b.toString(16).padStart(2, "0")` of a byte, joined.
unfoldable pub bytes_to_hex : List ℕ → List ℕ
unfolding hex_digit
bytes_to_hex [] = []
bytes_to_hex (b ∷ bs) = hex_digit (b / 16) ∷ hex_digit (b % 16) ∷ bytes_to_hex bs

-- /^[0-9a-f]*$/
unfoldable pub is_hex_char : ℕ → Bool
is_hex_char c = (leb b'0' c && leb c b'9') || (leb b'a' c && leb c b'f')

-- The value of a lower-case hex digit, as `parseInt` reads it.
unfoldable pub hex_value : ℕ → ℕ
hex_value c = if leb c b'9' then c - b'0' else c - b'a' + 10

unfoldable pub hex_pairs : List ℕ → List ℕ
unfolding hex_value
hex_pairs [] = []
hex_pairs (a ∷ []) = []
hex_pairs (a ∷ b ∷ cs) = (16 * hex_value a + hex_value b) ∷ hex_pairs cs

pub data HexError : Type 0 where
  invalid_hex : ℕ → HexError

unfoldable pub hex_to_bytes : List ℕ → Result HexError (List ℕ)
unfolding hex_pairs is_hex_char
hex_to_bytes hex =
    if not (length hex % 2 == 0) || not (all is_hex_char hex)
    then err (invalid_hex (length hex))
    else ok (hex_pairs hex)

bytes_match-eq : (a b : List ℕ) → length a ≡ length b → bytes_match a b ≡ true → a ≡ b
unfolding bytes_match
bytes_match-eq [] [] l h = refl
bytes_match-eq [] (y ∷ b) l h = absurd (omega arith)
bytes_match-eq (x ∷ a) [] l h = absurd (omega arith)
bytes_match-eq (x ∷ a) (y ∷ b) l h = ground (arith, bytes_match-eq a b)

bytes_match_refl : (a : List ℕ) → bytes_match a a ≡ true
unfolding bytes_match
bytes_match_refl [] = refl
bytes_match_refl (x ∷ a) = ground (arith, bytes_match_refl a)

-- `bytesEqual` decides the equality of byte strings.
pub bytes_equal_iff : (a b : List ℕ) → (bytes_equal a b ≡ true) ↔ (a ≡ b)
unfolding bytes_equal
bytes_equal_iff a b = (
  (λ h. ground (arith, bytes_match-eq a b)),
  λ e. subst (λ x. bytes_equal a x ≡ true) e (ground (arith, bytes_match_refl a)),
)
