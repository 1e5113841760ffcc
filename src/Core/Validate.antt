-- ===== src/Core/Validate.antt =====
-- packages/cemp-core/src/codec/validate.ts: the checks on profiles, envelopes and payloads.
-- `none` for no reason to refuse, as { ok: true }; a reason carries the values its message shows.
pub mod Accepts
pub mod Examples
use cemp_mobile.Prelude.{
  ℕ, ◌+◌, ◌≡◌, Bool, true, false, not, ◌&&◌, ◌||◌, List, [], ◌∷◌, Option, none, some, Result, ok,
  err, if◌then◌else◌, ◌==◌, ltb, leb, length, any,
}
use cemp_mobile.Core.Bytes.{bytes_equal}
use cemp_mobile.Core.Codec.{
  Bytes, AlgorithmIdV1, CempProfileV1, CempEnvelopeHeaderV1, CempEnvelopeV1, ReceiptEntryV1,
  CempPayloadV1, MolCodec, CempCodecError, strict_decode,
}

-- CEMP_PROTOCOL_VERSION, CONTENT_TYPE and V1_LIMITS.
abbrev pub cemp_protocol_version : ℕ
cemp_protocol_version = 1

abbrev pub content_type_text : ℕ
content_type_text = 1

abbrev pub content_types : List ℕ
content_types = 1 ∷ 2 ∷ 3 ∷ []

abbrev pub max_text_bytes : ℕ
max_text_bytes = 16384

abbrev pub max_payload_bytes : ℕ
max_payload_bytes = 65536

abbrev pub max_envelope_bytes : ℕ
max_envelope_bytes = 82000

abbrev pub max_handle_bytes : ℕ
max_handle_bytes = 64

abbrev pub max_profile_bytes : ℕ
max_profile_bytes = 4096

abbrev pub max_padding_bytes : ℕ
max_padding_bytes = 255

abbrev pub max_attachment_manifests : ℕ
max_attachment_manifests = 4

abbrev pub max_receipts : ℕ
max_receipts = 64

abbrev pub max_protocol_versions : ℕ
max_protocol_versions = 8

abbrev pub gcm_tag_bytes : ℕ
gcm_tag_bytes = 16

abbrev pub network_ckb_testnet : ℕ
network_ckb_testnet = 1

abbrev pub network_reserved_mainnet : ℕ
network_reserved_mainnet = 0

abbrev pub ml_dsa_65 : AlgorithmIdV1
ml_dsa_65 = record { family = 1; parameter = 61 }

abbrev pub ml_kem_768 : AlgorithmIdV1
ml_kem_768 = record { family = 2; parameter = 3 }

abbrev pub algorithm_equals : AlgorithmIdV1 → AlgorithmIdV1 → Bool
algorithm_equals id known = id.family == known.family && id.parameter == known.parameter

abbrev pub includes : List ℕ → ℕ → Bool
includes xs x = any (λ y. y == x) xs

abbrev pub is_known_content_type : ℕ → Bool
is_known_content_type content_type = includes content_types content_type

pub data Reason : Type 0 where
  unknown_protocol_version unknown_network unknown_content_type : ℕ → Reason
  unknown_sig_algorithm unknown_kem_algorithm : AlgorithmIdV1 → Reason
  too_many_versions : ℕ → Reason
  version_not_supported mainnet_reserved : Reason
  handle_too_long revoked_unknown attachments_mask : ℕ → Reason
  kem_ciphertext_length nonce_length payload_shorter_than_tag : ℕ → Reason
  unknown_body_type receipt_request_mask receipt_status text_too_long : ℕ → Reason
  payload_too_long padding_too_long too_many_receipts too_many_manifests : ℕ → Reason
  text_missing message_id_mismatch recipient_mismatch : Reason
  body_type_mismatch : ℕ → ℕ → Reason
  own_profile_id_length : ℕ → Reason
  profile_data_too_long envelope_data_too_long : ℕ → Reason
  rejected : CempCodecError → Reason

abbrev pub byte_length : Option Bytes → ℕ
byte_length none = 0
byte_length (some bs) = length bs

pub validate_profile_fields : CempProfileV1 → Option Reason
validate_profile_fields profile =
    if not (profile.protocol_version == cemp_protocol_version)
    then some (unknown_protocol_version profile.protocol_version)
    else if not (algorithm_equals profile.sig_algorithm ml_dsa_65)
    then some (unknown_sig_algorithm profile.sig_algorithm)
    else if not (algorithm_equals profile.kem_algorithm ml_kem_768)
    then some (unknown_kem_algorithm profile.kem_algorithm)
    else if ltb max_protocol_versions (length profile.supported_protocol_versions)
    then some (too_many_versions (length profile.supported_protocol_versions))
    else if not (includes profile.supported_protocol_versions cemp_protocol_version)
    then some version_not_supported
    else if ltb max_handle_bytes (byte_length profile.handle)
    then some (handle_too_long (byte_length profile.handle))
    else if not (profile.revoked == 0) && not (profile.revoked == 1)
    then some (revoked_unknown profile.revoked)
    else if ltb 3 profile.supported_attachments
    then some (attachments_mask profile.supported_attachments)
    else none

-- A decoded value to its field checks, a refusal of the decoder to its reason (`tryDecode`).
abbrev check_decoded {ℓ} :
    {A : Type ℓ} → Result CempCodecError A → (A → Option Reason) → Option Reason
check_decoded (ok value) check = check value
check_decoded (err e) check = some (rejected e)

pub validate_profile : MolCodec CempProfileV1 → Bytes → Option Reason
validate_profile codec bytes =
    if ltb max_profile_bytes (length bytes)
    then some (profile_data_too_long (length bytes))
    else check_decoded (strict_decode codec bytes) validate_profile_fields

pub validate_envelope_fields : CempEnvelopeV1 → Option Reason
validate_envelope_fields envelope =
    if not (envelope.header.protocol_version == cemp_protocol_version)
    then some (unknown_protocol_version envelope.header.protocol_version)
    else if not (envelope.header.network == network_ckb_testnet)
    then (if envelope.header.network == network_reserved_mainnet
        then some mainnet_reserved
        else some (unknown_network envelope.header.network))
    else if not (is_known_content_type envelope.header.content_type)
    then some (unknown_content_type envelope.header.content_type)
    else if not (length envelope.kem_ciphertext == 1088)
    then some (kem_ciphertext_length (length envelope.kem_ciphertext))
    else if not (length envelope.nonce == 12)
    then some (nonce_length (length envelope.nonce))
    else if ltb (length envelope.encrypted_payload) gcm_tag_bytes
    then some (payload_shorter_than_tag (length envelope.encrypted_payload))
    else none

pub validate_envelope : MolCodec CempEnvelopeV1 → Bytes → Option Reason
validate_envelope codec bytes =
    if ltb max_envelope_bytes (length bytes)
    then some (envelope_data_too_long (length bytes))
    else check_decoded (strict_decode codec bytes) validate_envelope_fields

-- The first receipt with an unknown status.
pub bad_receipt : List ReceiptEntryV1 → Option Reason
bad_receipt [] = none
bad_receipt (r ∷ rs) =
    let rest = bad_receipt rs in if ltb 6 r.status then some (receipt_status r.status) else rest

abbrev exceeds : Option ℕ → ℕ → Bool
exceeds none limit = false
exceeds (some n) limit = ltb limit n

abbrev pub is_none {ℓ} : {A : Type ℓ} → Option A → Bool
is_none none = true
is_none (some a) = false

abbrev value_or_zero : Option ℕ → ℕ
value_or_zero none = 0
value_or_zero (some n) = n

-- The checks of `validatePayloadFields` behind the loop over the receipts.
payload_sizes : CempPayloadV1 → Option ℕ → Option Reason
payload_sizes payload total_bytes =
    if ltb max_text_bytes (byte_length payload.text)
    then some (text_too_long (byte_length payload.text))
    else if exceeds total_bytes max_payload_bytes
    then some (payload_too_long (value_or_zero total_bytes))
    else if ltb max_padding_bytes (length payload.padding)
    then some (padding_too_long (length payload.padding))
    else if ltb max_receipts (length payload.receipts)
    then some (too_many_receipts (length payload.receipts))
    else if ltb max_attachment_manifests (length payload.attachment_manifests)
    then some (too_many_manifests (length payload.attachment_manifests))
    else if payload.body_type == content_type_text && is_none payload.text
    then some text_missing
    else none

pub validate_payload_fields : CempPayloadV1 → Option ℕ → Option Reason
unfolding payload_sizes
validate_payload_fields payload total_bytes =
    if not (includes content_types payload.body_type)
    then some (unknown_body_type payload.body_type)
    else if ltb 3 payload.receipt_request
    then some (receipt_request_mask payload.receipt_request)
    else elim (bad_receipt payload.receipts) [
      | some reason ↦ some reason
      | none ↦ payload_sizes payload total_bytes
    ]

pub validate_payload : MolCodec CempPayloadV1 → Bytes → Option Reason
validate_payload codec bytes =
    check_decoded (strict_decode codec bytes)
      (λ payload. validate_payload_fields payload (some (length bytes)))

pub validate_semantic_consistency : CempEnvelopeHeaderV1 → CempPayloadV1 → Bytes → Option Reason
validate_semantic_consistency header payload own_profile_id =
    if not (bytes_equal payload.message_id header.message_id)
    then some message_id_mismatch
    else if not (payload.body_type == header.content_type)
    then some (body_type_mismatch payload.body_type header.content_type)
    else if not (length own_profile_id == 32)
    then some (own_profile_id_length (length own_profile_id))
    else if not (bytes_equal payload.recipient_profile_id own_profile_id)
    then some recipient_mismatch
    else none
