-- ===== src/Core/Codec/Strict.antt =====
-- The strict pair over any codec: what it decodes is in canonical form.
use cemp_mobile.Prelude.{◌≡◌, ◌↔◌, inl, inr, ok, arith, Result-cases}
use cemp_mobile.Core.Bytes.{bytes_equal_iff}
use cemp_mobile.Core.Codec.{MolCodec, Bytes, strict_encode, strict_decode}

module _ {A : Type 0} (codec : MolCodec A) where
  -- Decoding accepts exactly the canonical encodings: the bytes that the codec both decodes to a
  -- value and writes for that value.
  pub strict_decode_iff :
      (bytes : Bytes) (value : A)
      → (strict_decode codec bytes ≡ ok value)
        ↔ ((codec.decode bytes ≡ ok value) × (codec.encode value ≡ ok bytes))
  unfolding strict_decode
  strict_decode_iff bytes value = (
    (λ h. elim (Result-cases (codec.decode bytes)) [
      | inr (e, p) ↦ absurd (ground (arith, h, p))
      | inl (v, p) ↦ elim (Result-cases (codec.encode v)) [
        | inr (e, q) ↦ absurd (ground (arith, h, p, q))
        | inl (c, q) ↦ ground (arith, h, p, q, bytes_equal_iff c bytes)
      ]
    ]),
    (λ h. ground (arith, h, bytes_equal_iff bytes bytes)),
  )

  -- No value has two encodings that are accepted.
  pub strict_decode_injective :
      (a b : Bytes) (value : A)
      → strict_decode codec a ≡ ok value
      → strict_decode codec b ≡ ok value
      → a ≡ b
  strict_decode_injective a b value h k =
      cc (((strict_decode_iff a value).0 h).1, ((strict_decode_iff b value).0 k).1)

  -- What `encode` writes is decoded to the value again, where the library's decoder inverts its
  -- encoder.
  pub strict_decode-strict_encode :
      ((v : A) (c : Bytes) → codec.encode v ≡ ok c → codec.decode c ≡ ok v)
      → (value : A) (bytes : Bytes) → strict_encode codec value ≡ ok bytes
      → strict_decode codec bytes ≡ ok value
  unfolding strict_encode
  strict_decode-strict_encode inverts value bytes h =
      let e : codec.encode value ≡ ok bytes = ground (arith, h) in
      (strict_decode_iff bytes value).1 (inverts value bytes e, e)
