-- ===== src/Vault/Payload/Examples.antt =====
-- A payload of 16 bytes of entropy and 64 of seed.
use cemp_mobile.Prelude.{ℕ, ◌≡◌, refl, true, List, [], ◌∷◌, ◌++◌, ok}
use cemp_mobile.Vault.Payload.{VaultSecretPayload, encode_secret_payload, decode_secret_payload}
use cemp_mobile.Vault.Payload.RoundTrip.{
  IsSecret, decode_encoded, decode_secret_payload-encode_secret_payload,
  encode_secret_payload-decode_secret_payload,
}

abbrev sixteen : List ℕ
sixteen = 1 ∷ 2 ∷ 3 ∷ 4 ∷ 5 ∷ 6 ∷ 7 ∷ 8 ∷ 9 ∷ 10 ∷ 11 ∷ 12 ∷ 13 ∷ 14 ∷ 15 ∷ 16 ∷ []

abbrev twelve_words : VaultSecretPayload
twelve_words = record {
  entropy = sixteen;
  seed = sixteen ++ sixteen ++ sixteen ++ sixteen;
  has_passphrase = true;
}

abbrev twelve_words_bytes : List ℕ
twelve_words_bytes = 16 ∷ sixteen ++ (sixteen ++ sixteen ++ sixteen ++ sixteen) ++ 1 ∷ []

decode_secret_payload-encode_secret_payload_example :
    (IsSecret twelve_words
      → (bytes : List ℕ) × (encode_secret_payload twelve_words ≡ ok bytes)
        × (decode_secret_payload bytes ≡ ok twelve_words))
    × ((bytes : List ℕ) → encode_secret_payload twelve_words ≡ ok bytes → IsSecret twelve_words)
decode_secret_payload-encode_secret_payload_example =
    decode_secret_payload-encode_secret_payload twelve_words

encode_secret_payload-decode_secret_payload_example :
    encode_secret_payload twelve_words ≡ ok twelve_words_bytes
unfolding encode_secret_payload
encode_secret_payload-decode_secret_payload_example =
    encode_secret_payload-decode_secret_payload twelve_words_bytes twelve_words
      (decode_encoded twelve_words twelve_words_bytes refl)
