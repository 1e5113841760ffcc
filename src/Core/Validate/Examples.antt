-- ===== src/Core/Validate/Examples.antt =====
-- A header and a payload of one message, and a codec that decodes everything to one value.
use cemp_mobile.Prelude.{◌≤◌, ◌≡◌, ◌↔◌, [], ◌∷◌, none, some, ok, length}
use cemp_mobile.Core.Codec.{
  Bytes, CempProfileV1, CempEnvelopeHeaderV1, CempEnvelopeV1, CempPayloadV1, MolCodec,
  strict_decode,
}
use cemp_mobile.Core.Validate.{
  validate_profile, validate_envelope, validate_payload, ml_dsa_65, ml_kem_768,
}
use cemp_mobile.Core.Validate.Accepts.{
  IsV1Profile, IsV1Envelope, IsV1Payload, validate_profile_iff, validate_envelope_iff,
  validate_payload_iff,
}

abbrev bytes : Bytes
bytes = 1 ∷ 2 ∷ []

abbrev always : (A : Type 0) → A → MolCodec A
always A value = record { encode = λ v. ok bytes; decode = λ b. ok value }

abbrev profile : CempProfileV1
profile = record {
  protocol_version = 1;
  sig_algorithm = ml_dsa_65;
  kem_algorithm = ml_kem_768;
  ml_dsa_public_key = [];
  ml_kem_public_key = [];
  lock_script_hash = [];
  supported_protocol_versions = 1 ∷ [];
  supported_attachments = 3;
  handle = none;
  icon_hash = none;
  key_created_at = 0;
  rotation_sequence = 0;
  previous_profile_id = none;
  revoked = 0;
}

abbrev header : CempEnvelopeHeaderV1
header = record {
  protocol_version = 1;
  network = 1;
  content_type = 1;
  message_id = bytes;
  conversation_id = [];
  sender_profile_id = [];
  created_at_client = 0;
  reply_to_message_id = none;
  expiry_hint = 0;
}

abbrev envelope : CempEnvelopeV1
envelope = record { header = header; kem_ciphertext = []; nonce = []; encrypted_payload = [] }

abbrev payload : CempPayloadV1
payload = record {
  message_id = bytes;
  body_type = 1;
  recipient_profile_id = bytes;
  text = some bytes;
  attachment_manifests = [];
  reply_to_message_id = none;
  reply_to_outpoint = none;
  receipts = [];
  receipt_request = 0;
  client_timestamp = 0;
  sender_device_id = [];
  padding = [];
}

validate_profile_iff_example : (validate_profile (always CempProfileV1 profile) bytes ≡ none) ↔ (
    (length bytes ≤ 4096)
    × (p : CempProfileV1) × (strict_decode (always CempProfileV1 profile) bytes ≡ ok p)
    × IsV1Profile p)
validate_profile_iff_example = validate_profile_iff (always CempProfileV1 profile) bytes

validate_envelope_iff_example :
    (validate_envelope (always CempEnvelopeV1 envelope) bytes ≡ none) ↔ (
      (length bytes ≤ 82000)
      × (e : CempEnvelopeV1) × (strict_decode (always CempEnvelopeV1 envelope) bytes ≡ ok e)
      × IsV1Envelope e)
validate_envelope_iff_example = validate_envelope_iff (always CempEnvelopeV1 envelope) bytes

validate_payload_iff_example : (validate_payload (always CempPayloadV1 payload) bytes ≡ none) ↔ (
    (p : CempPayloadV1) × (strict_decode (always CempPayloadV1 payload) bytes ≡ ok p)
    × IsV1Payload p (length bytes))
validate_payload_iff_example = validate_payload_iff (always CempPayloadV1 payload) bytes
