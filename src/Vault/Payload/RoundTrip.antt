-- ===== src/Vault/Payload/RoundTrip.antt =====
-- The decoder is the strict inverse of the encoder.
use cemp_mobile.Prelude.{
  ℕ, zero, suc, ◌+◌, ◌≡◌, refl, sym, ap, ap₂, ◌∙◌, ◌⊎◌, inl, inr, Bool, true, false, not, ◌&&◌,
  List, [], ◌∷◌, ◌++◌, none, some, ok, ◌≢◌, Option-cases, length-take, arith, if◌then◌else◌, ◌==◌,
  length, take, drop, length-drop, take-append-drop, get_elem?, length-append, take-append,
  drop-append, append_assoc, Bool-cases,
}
use cemp_mobile.Vault.Payload.{
  VaultSecretPayload, seed_bytes, encode_secret_payload, last_byte, slice, with_flag, with_length,
  decode_secret_payload,
}

module _ {A : Type 0} where
  get_elem?-last : (xs : List A) (x : A) → get_elem? (xs ++ x ∷ []) (length xs) ≡ some x
  get_elem?-last [] x = refl
  get_elem?-last (y ∷ xs) x = get_elem?-last xs x

  -- A list of positive length ends in what its last index finds.
  last_split :
      (xs : List A) (n : ℕ) (x : A)
      → length xs ≡ suc n
      → get_elem? xs n ≡ some x
      → take n xs ++ x ∷ [] ≡ xs
  last_split [] n x h e = absurd (omega arith)
  last_split (y ∷ []) zero x h e = ground (arith, e)
  last_split (y ∷ z ∷ xs) zero x h e = absurd (omega arith)
  last_split (y ∷ xs) (suc n) x h e = ap (λ l. y ∷ l) (last_split xs n x (omega arith) e)

  take-length_append : (n : ℕ) (xs ys : List A) → length xs ≡ n → take n (xs ++ ys) ≡ xs
  take-length_append n xs ys e = rw⁻¹ e (take-append xs ys)

  drop-length_append : (n : ℕ) (xs ys : List A) → length xs ≡ n → drop n (xs ++ ys) ≡ ys
  drop-length_append n xs ys e = rw⁻¹ e (drop-append xs ys)

abbrev pub flag_of : Bool → ℕ
flag_of b = if b then 1 else 0

-- The three parts of an encoded payload, cut out again.
decode_parts :
    (n : ℕ) (entropy seed : List ℕ) (flag : Bool)
    → (n ≡ 16) ⊎ (n ≡ 32)
    → length entropy ≡ n
    → length seed ≡ seed_bytes
    → decode_secret_payload (n ∷ entropy ++ seed ++ flag_of flag ∷ [])
      ≡ ok (record { entropy = entropy; seed = seed; has_passphrase = flag })
unfolding decode_secret_payload
decode_parts n entropy seed flag size e s = sized ∙ ap (with_flag bytes n) last_found ∙ flagged flag
  where
    tail : List ℕ
    tail = flag_of flag ∷ []

    bytes : List ℕ
    bytes = n ∷ entropy ++ seed ++ tail

    total : length bytes ≡ n + 66
    total = omega (arith, length-append (entropy ++ seed) tail, length-append entropy seed)

    sized : with_length bytes (some n) ≡ with_flag bytes n (last_byte bytes)
    sized = unfold with_length in ground (arith, total, size)

    last_found : last_byte bytes ≡ some (flag_of flag)
    last_found =
        unfold last_byte in
        ap (get_elem? bytes) {y = length (n ∷ entropy ++ seed)}
          (omega (arith, total, length-append entropy seed))
        ∙ get_elem?-last (n ∷ entropy ++ seed) (flag_of flag)

    entropy_cut : slice 1 (1 + n) bytes ≡ entropy
    entropy_cut =
        ap₂ take {y = n} (omega arith) (append_assoc entropy seed tail)
        ∙ take-length_append n entropy _ e

    dropped : drop (1 + n) bytes ≡ seed ++ tail
    dropped =
        ap (λ m. drop m bytes) {y = suc n} (omega arith)
        ∙ ap (drop n) (append_assoc entropy seed tail)
        ∙ drop-length_append n entropy (seed ++ tail) e

    seed_cut : slice (1 + n) (1 + n + seed_bytes) bytes ≡ seed
    seed_cut = ap₂ take {y = 64} (omega arith) dropped ∙ take-length_append 64 seed tail s

    flagged :
        (b : Bool)
        → with_flag bytes n (some (flag_of b))
          ≡ ok (record { entropy = entropy; seed = seed; has_passphrase = b })
    flagged true =
        unfold with_flag in
        ap₂ (λ x y. ok (record { entropy = x; seed = y; has_passphrase = true })) entropy_cut
          seed_cut
    flagged false =
        unfold with_flag in
        ap₂ (λ x y. ok (record { entropy = x; seed = y; has_passphrase = false })) entropy_cut
          seed_cut

-- What the encoder accepted is decoded again.
pub decode_encoded :
    (payload : VaultSecretPayload) (bytes : List ℕ)
    → encode_secret_payload payload ≡ ok bytes
    → decode_secret_payload bytes ≡ ok payload
unfolding encode_secret_payload
decode_encoded payload bytes h =
    elim (Bool-cases (not (length payload.entropy == 16) && not (length payload.entropy == 32))) [
      | inl bad ↦ absurd (ground (arith, bad))
      | inr good ↦ elim (Bool-cases (not (length payload.seed == seed_bytes))) [
        | inl bad ↦ absurd (ground (arith, bad, good))
        | inr sized ↦
            ap decode_secret_payload (sym (written good sized))
            ∙ decode_parts (length payload.entropy) payload.entropy payload.seed
                payload.has_passphrase (ground (arith, good)) refl (ground (arith, sized))
      ]
    ]
  where
    written :
        (not (length payload.entropy == 16) && not (length payload.entropy == 32)) ≡ false
        → not (length payload.seed == seed_bytes) ≡ false
        → length payload.entropy ∷ payload.entropy
            ++ payload.seed
            ++ flag_of payload.has_passphrase ∷ []
          ≡ bytes
    written g t = ground (arith, g, t, h)

get_elem?-drop :
    {A : Type 0} (n k : ℕ) (xs : List A) → get_elem? (drop n xs) k ≡ get_elem? xs (n + k)
get_elem?-drop zero k xs = ap (get_elem? xs) (omega arith)
get_elem?-drop (suc n) k [] = refl
get_elem?-drop (suc n) k (x ∷ xs) =
    get_elem?-drop n k xs ∙ ap (get_elem? (x ∷ xs)) {x = suc (n + k)} (omega arith)

cut_parts :
    (n : ℕ) (xs : List ℕ) (flag : ℕ)
    → length xs ≡ n + 65
    → get_elem? xs (n + 64) ≡ some flag
    → take n xs ++ take 64 (drop n xs) ++ flag ∷ [] ≡ xs
cut_parts n xs flag h e =
    append_assoc (take n xs) (take 64 (drop n xs)) (flag ∷ [])
    ∙ ap (λ l. take n xs ++ l)
        (last_split (drop n xs) 64 flag (omega (arith, length-drop n xs))
          (get_elem?-drop n 64 xs ∙ e))
    ∙ take-append-drop n xs

pub encode_parts :
    (n : ℕ) (entropy seed : List ℕ) (flag : Bool)
    → (n ≡ 16) ⊎ (n ≡ 32)
    → length entropy ≡ n
    → length seed ≡ seed_bytes
    → encode_secret_payload (record { entropy = entropy; seed = seed; has_passphrase = flag })
      ≡ ok (n ∷ entropy ++ seed ++ flag_of flag ∷ [])
unfolding encode_secret_payload
encode_parts n entropy seed flag size e s = ground (arith, size, e, s)

-- Entropy of 12 or 24 words, and a seed of 64 bytes.
abbrev pub IsSecret : VaultSecretPayload → Type 0
IsSecret payload =
    ((length payload.entropy ≡ 16) ⊎ (length payload.entropy ≡ 32)) × (length payload.seed ≡ 64)

encoded-IsSecret :
    (payload : VaultSecretPayload) (bytes : List ℕ)
    → encode_secret_payload payload ≡ ok bytes
    → IsSecret payload
unfolding encode_secret_payload
encoded-IsSecret payload bytes h = (ground (arith, h), ground (arith, h))

-- The encoder accepts exactly the payloads with 16 or 32 bytes of entropy and a seed of 64 bytes, and
-- the decoder reads each of them back from the bytes that the encoder gives.
pub decode_secret_payload-encode_secret_payload :
    (payload : VaultSecretPayload)
    → (IsSecret payload
        → (bytes : List ℕ) × (encode_secret_payload payload ≡ ok bytes)
          × (decode_secret_payload bytes ≡ ok payload))
      × ((bytes : List ℕ) → encode_secret_payload payload ≡ ok bytes → IsSecret payload)
decode_secret_payload-encode_secret_payload payload = (
  (λ (size, seed_size).
      let written =
        encode_parts (length payload.entropy) payload.entropy payload.seed payload.has_passphrase
          size refl seed_size in
      (_, written, decode_encoded payload _ written)),
  encoded-IsSecret payload,
)

-- What the decoder's checks leave of its input.
decoded_shape :
    (n : ℕ) (xs : List ℕ) (payload : VaultSecretPayload)
    → decode_secret_payload (n ∷ xs) ≡ ok payload
    → ((n ≡ 16) ⊎ (n ≡ 32))
      × (length xs ≡ n + 65)
      × (flag : Bool) × (get_elem? xs (n + 64) ≡ some (flag_of flag))
unfolding decode_secret_payload
decoded_shape n xs payload h = elim (Option-cases (last_byte (n ∷ xs))) [
  | inl e ↦ absurd (flagless (ap (with_flag (n ∷ xs) n) (sym e) ∙ sizes.2))
  | inr (flag, e) ↦
      let (b, f) = flag_bit flag (ap (with_flag (n ∷ xs) n) (sym e) ∙ sizes.2) in
      (sizes.0, sizes.1, b, found ∙ e ∙ ap (λ x. some x) f)
]
  where
    sizes :
        ((n ≡ 16) ⊎ (n ≡ 32))
        × (length xs ≡ n + 65)
        × (with_flag (n ∷ xs) n (last_byte (n ∷ xs)) ≡ ok payload)
    sizes = unfold with_length in ground (arith, h)

    flagless : with_flag (n ∷ xs) n none ≢ ok payload
    flagless e = unfold with_flag in cc e

    flag_bit :
        (flag : ℕ) → with_flag (n ∷ xs) n (some flag) ≡ ok payload → (b : Bool) × (flag ≡ flag_of b)
    flag_bit zero e = (false, refl)
    flag_bit (suc zero) e = (true, refl)
    flag_bit (suc (suc m)) e = absurd (unfold with_flag in ground (arith, e))

    found : get_elem? xs (n + 64) ≡ last_byte (n ∷ xs)
    found = unfold last_byte in ap (get_elem? (n ∷ xs)) {x = suc (n + 64)} (omega (arith, sizes.1))

-- Only what the encoder writes is decoded: bytes that the decoder accepts are the encoding of the
-- payload that it gives, so that no payload has two encodings.
pub encode_secret_payload-decode_secret_payload :
    (bytes : List ℕ) (payload : VaultSecretPayload)
    → decode_secret_payload bytes ≡ ok payload
    → encode_secret_payload payload ≡ ok bytes
encode_secret_payload-decode_secret_payload [] payload h =
    absurd (unfold decode_secret_payload in unfold with_length in cc h)
encode_secret_payload-decode_secret_payload (n ∷ xs) payload h =
    let (size, len, flag, last) = decoded_shape n xs payload h in
    let whole = cut_parts n xs (flag_of flag) len last in
    let entropy_size : length (take n xs) ≡ n = omega (arith, length-take n xs, len) in
    let seed_size : length (take 64 (drop n xs)) ≡ seed_bytes =
      omega (arith, length-take 64 (drop n xs), length-drop n xs, len) in
    let decoded =
      ap (λ l. decode_secret_payload (n ∷ l)) (sym whole)
      ∙ decode_parts n (take n xs) (take 64 (drop n xs)) flag size entropy_size seed_size in
    let same : payload
        ≡ record { entropy = take n xs; seed = take 64 (drop n xs); has_passphrase = flag } =
      ground (arith, h, decoded) in
    ap encode_secret_payload same
    ∙ encode_parts n (take n xs) (take 64 (drop n xs)) flag size entropy_size seed_size
    ∙ ap (λ l. ok (n ∷ l)) whole
