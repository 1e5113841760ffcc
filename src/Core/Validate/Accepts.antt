-- ===== src/Core/Validate/Accepts.antt =====
-- What each validator accepts, as a predicate that does not mention the order of its checks.
use cemp_mobile.Prelude.{
  ℕ, ◌≤◌, ◌≡◌, ◌≢◌, refl, ◌↔◌, inl, inr, true, List, [], ◌∷◌, none, some, ok, arith, length, All,
  Option-cases, Result-cases,
}
use cemp_mobile.Core.Bytes.{bytes_equal_iff}
use cemp_mobile.Core.Codec.{
  Bytes, CempProfileV1, CempEnvelopeHeaderV1, CempEnvelopeV1, ReceiptEntryV1, CempPayloadV1,
  MolCodec, strict_decode,
}
use cemp_mobile.Core.Validate.{
  includes, byte_length, validate_profile_fields, validate_profile, validate_envelope_fields,
  validate_envelope, bad_receipt, payload_sizes, validate_payload_fields, validate_payload,
  validate_semantic_consistency,
}

-- A v1 envelope for testnet with a known content type, the sizes of ML-KEM-768 and AES-GCM, and room
-- for the tag.
pub record IsV1Envelope (e : CempEnvelopeV1) : Type 0 where
  pub version : e.header.protocol_version ≡ 1
  pub testnet : e.header.network ≡ 1
  pub content : (1 ≤ e.header.content_type) × (e.header.content_type ≤ 3)
  pub kem : length e.kem_ciphertext ≡ 1088
  pub nonce : length e.nonce ≡ 12
  pub tag : 16 ≤ length e.encrypted_payload

envelope_fields_accepted : (e : CempEnvelopeV1) → validate_envelope_fields e ≡ none → IsV1Envelope e
unfolding validate_envelope_fields
envelope_fields_accepted e h = ground arith

envelope_fields_accept : (e : CempEnvelopeV1) → IsV1Envelope e → validate_envelope_fields e ≡ none
unfolding validate_envelope_fields
envelope_fields_accept e v = ground arith

-- The envelope pipeline accepts exactly the byte strings of at most 82,000 bytes that decode
-- strictly to a v1 envelope.
pub validate_envelope_iff :
    (codec : MolCodec CempEnvelopeV1) (bytes : Bytes)
    → (validate_envelope codec bytes ≡ none) ↔ (
        (length bytes ≤ 82000)
        × (e : CempEnvelopeV1) × (strict_decode codec bytes ≡ ok e)
        × IsV1Envelope e)
unfolding validate_envelope
validate_envelope_iff codec bytes = (
  (λ h. elim (Result-cases (strict_decode codec bytes)) [
    | inl (e, p) ↦ (ground (arith, h, p), e, p, envelope_fields_accepted e (ground (arith, h, p)))
    | inr (x, p) ↦ absurd (ground (arith, h, p))
  ]),
  (λ (size, e, p, v). ground (arith, size, p, envelope_fields_accept e v)),
)

-- A v1 profile: version, algorithms, the versions that it lists, and its bounded fields.
pub record IsV1Profile (p : CempProfileV1) : Type 0 where
  pub version : p.protocol_version ≡ 1
  pub sig : (p.sig_algorithm.family ≡ 1) × (p.sig_algorithm.parameter ≡ 61)
  pub kem : (p.kem_algorithm.family ≡ 2) × (p.kem_algorithm.parameter ≡ 3)
  pub versions : length p.supported_protocol_versions ≤ 8
  pub supported : includes p.supported_protocol_versions 1 ≡ true
  pub handle : byte_length p.handle ≤ 64
  pub revoked : p.revoked ≤ 1
  pub attachments : p.supported_attachments ≤ 3

profile_fields_accepted : (p : CempProfileV1) → validate_profile_fields p ≡ none → IsV1Profile p
unfolding validate_profile_fields
profile_fields_accepted p h = ground arith

profile_fields_accept : (p : CempProfileV1) → IsV1Profile p → validate_profile_fields p ≡ none
unfolding validate_profile_fields
profile_fields_accept p v = ground arith

-- The profile pipeline accepts exactly the byte strings of at most 4,096 bytes that decode strictly
-- to a v1 profile.
pub validate_profile_iff :
    (codec : MolCodec CempProfileV1) (bytes : Bytes)
    → (validate_profile codec bytes ≡ none) ↔ (
        (length bytes ≤ 4096)
        × (p : CempProfileV1) × (strict_decode codec bytes ≡ ok p)
        × IsV1Profile p)
unfolding validate_profile
validate_profile_iff codec bytes = (
  (λ h. elim (Result-cases (strict_decode codec bytes)) [
    | inl (p, e) ↦ (ground (arith, h, e), p, e, profile_fields_accepted p (ground (arith, h, e)))
    | inr (x, e) ↦ absurd (ground (arith, h, e))
  ]),
  (λ (size, p, e, v). ground (arith, size, e, profile_fields_accept p v)),
)

bad_receipt_iff : (rs : List ReceiptEntryV1) → (bad_receipt rs ≡ none) ↔ All (λ r. r.status ≤ 6) rs
unfolding bad_receipt
bad_receipt_iff [] = ((λ h. tt), λ h. refl)
bad_receipt_iff (r ∷ rs) =
    let (there, back) = bad_receipt_iff rs in
    (
      (λ h. (ground arith, there (ground arith))),
      (λ (ok_status, rest). let e = back rest in ground (arith, e, ok_status)),
    )

-- A payload within the limits that the code checks: discriminants, mask, receipts, and text where the
-- body is text. The 64 bytes of a manifest's mime type and the larger total for attachments that the
-- protocol's section 11 names are not among them.
pub record IsV1Payload (p : CempPayloadV1) (total_bytes : ℕ) : Type 0 where
  pub body : (1 ≤ p.body_type) × (p.body_type ≤ 3)
  pub request : p.receipt_request ≤ 3
  pub statuses : All (λ r. r.status ≤ 6) p.receipts
  pub text_size : byte_length p.text ≤ 16384
  pub total : total_bytes ≤ 65536
  pub padding : length p.padding ≤ 255
  pub receipts : length p.receipts ≤ 64
  pub manifests : length p.attachment_manifests ≤ 4
  pub text : p.body_type ≡ 1 → p.text ≢ none

payload_sizes_accepted :
    (p : CempPayloadV1) (n : ℕ)
    → payload_sizes p (some n) ≡ none
    → (byte_length p.text ≤ 16384)
      × (n ≤ 65536)
      × (length p.padding ≤ 255)
      × (length p.receipts ≤ 64)
      × (length p.attachment_manifests ≤ 4)
unfolding payload_sizes
payload_sizes_accepted p n h = ground arith

payload_sizes_text :
    (p : CempPayloadV1) (n : ℕ) → payload_sizes p (some n) ≡ none → p.body_type ≡ 1 → p.text ≢ none
unfolding payload_sizes
payload_sizes_text p n h b e = ground arith

payload_sizes_accept :
    (p : CempPayloadV1) (n : ℕ) → IsV1Payload p n → payload_sizes p (some n) ≡ none
unfolding payload_sizes
payload_sizes_accept p n v = elim (Option-cases p.text) [
  | inl e ↦ let other : p.body_type ≢ 1 = λ b. v.text b e in ground (arith, other)
  | inr (t, e) ↦ ground (arith, e)
]

payload_fields_accepted :
    (p : CempPayloadV1) (n : ℕ) → validate_payload_fields p (some n) ≡ none → IsV1Payload p n
unfolding validate_payload_fields
payload_fields_accepted p n h =
    let statuses : bad_receipt p.receipts ≡ none = ground arith in
    let sizes : payload_sizes p (some n) ≡ none = ground arith in
    let (text, total, padding, receipts, manifests) = payload_sizes_accepted p n sizes in
    record {
      body = ground arith;
      request = ground arith;
      statuses = (bad_receipt_iff p.receipts).0 statuses;
      text_size = text;
      total = total;
      padding = padding;
      receipts = receipts;
      manifests = manifests;
      text = payload_sizes_text p n sizes;
    }

payload_fields_accept :
    (p : CempPayloadV1) (n : ℕ) → IsV1Payload p n → validate_payload_fields p (some n) ≡ none
unfolding validate_payload_fields
payload_fields_accept p n v =
    let (low, high) = v.body in
    let request = v.request in
    ground (
      arith,
      (bad_receipt_iff p.receipts).1 v.statuses,
      payload_sizes_accept p n v,
      low,
      high,
      request,
    )

-- The payload pipeline accepts exactly the byte strings that decode strictly to a payload whose body
-- type, receipt request and receipt statuses are known, with the text that its body type asks for, at
-- most 16,384 bytes of text, 65,536 in total, 255 of padding, 64 receipts and 4 manifests. What the
-- manifests hold is not limited.
pub validate_payload_iff :
    (codec : MolCodec CempPayloadV1) (bytes : Bytes)
    → (validate_payload codec bytes ≡ none)
      ↔ ((p : CempPayloadV1) × (strict_decode codec bytes ≡ ok p) × IsV1Payload p (length bytes))
unfolding validate_payload
validate_payload_iff codec bytes = (
  (λ h. elim (Result-cases (strict_decode codec bytes)) [
    | inl (p, e) ↦ (p, e, payload_fields_accepted p _ (rw e at h))
    | inr (x, e) ↦ absurd (ground (arith, h, e))
  ]),
  (λ (p, e, v). rw e (payload_fields_accept p _ v)),
)

-- The cross-check passes exactly when the header and the payload name one message and one type, and
-- the payload is addressed to our 32-byte profile id.
pub validate_semantic_consistency_iff :
    (header : CempEnvelopeHeaderV1) (payload : CempPayloadV1) (own : Bytes)
    → (validate_semantic_consistency header payload own ≡ none) ↔ (
        (payload.message_id ≡ header.message_id)
        × (payload.body_type ≡ header.content_type)
        × (length own ≡ 32)
        × (payload.recipient_profile_id ≡ own))
unfolding validate_semantic_consistency
validate_semantic_consistency_iff header payload own = (
  (λ h. ground (
    arith,
    h,
    bytes_equal_iff payload.message_id header.message_id,
    bytes_equal_iff payload.recipient_profile_id own,
  )),
  (λ h. ground (
    arith,
    h,
    bytes_equal_iff payload.message_id header.message_id,
    bytes_equal_iff payload.recipient_profile_id own,
  )),
)
