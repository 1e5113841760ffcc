-- ===== src/Core/Codec.antt =====
-- packages/cemp-core/src/codec/codecs.ts: the decoded structures and the strict encode/decode pair.
-- The Molecule codecs themselves are a library's: `MolCodec` is what the source calls of one.
pub mod Strict
pub mod Examples
use cemp_mobile.Prelude.{
  ℕ, ◌≡◌, Bool, true, false, List, Option, none, some, Result, ok, err, String, if◌then◌else◌,
  ◌>>=◌,
}
use cemp_mobile.Core.Bytes.{bytes_equal}

abbrev pub Bytes : Type 0
Bytes = List ℕ

pub record AlgorithmIdV1 : Type 0 where
  pub family : ℕ
  pub parameter : ℕ

pub record CempProfileV1 : Type 0 where
  pub protocol_version : ℕ
  pub sig_algorithm : AlgorithmIdV1
  pub kem_algorithm : AlgorithmIdV1
  pub ml_dsa_public_key : Bytes
  pub ml_kem_public_key : Bytes
  pub lock_script_hash : Bytes
  pub supported_protocol_versions : List ℕ
  pub supported_attachments : ℕ
  pub handle : Option Bytes
  pub icon_hash : Option Bytes
  pub key_created_at : ℕ
  pub rotation_sequence : ℕ
  pub previous_profile_id : Option Bytes
  pub revoked : ℕ

pub record CempEnvelopeHeaderV1 : Type 0 where
  pub protocol_version : ℕ
  pub network : ℕ
  pub content_type : ℕ
  pub message_id : Bytes
  pub conversation_id : Bytes
  pub sender_profile_id : Bytes
  pub created_at_client : ℕ
  pub reply_to_message_id : Option Bytes
  pub expiry_hint : ℕ

pub record CempEnvelopeV1 : Type 0 where
  pub header : CempEnvelopeHeaderV1
  pub kem_ciphertext : Bytes
  pub nonce : Bytes
  pub encrypted_payload : Bytes

pub record OutPointV1 : Type 0 where
  pub tx_hash : Bytes
  pub index : ℕ

pub record ReceiptEntryV1 : Type 0 where
  pub message_id : Bytes
  pub status : ℕ

pub record AttachmentManifestV1 : Type 0 where
  pub attachment_id : Bytes
  pub ckbfs_root : OutPointV1
  pub chunk_outpoints : List OutPointV1
  pub encrypted_size : ℕ
  pub plaintext_size : ℕ
  pub mime_type : Bytes
  pub width : ℕ
  pub height : ℕ
  pub thumbnail : Option Bytes
  pub content_hash : Bytes
  pub cipher_hash : Bytes
  pub encryption_nonce : Bytes
  pub encryption_algorithm : AlgorithmIdV1
  pub reclaim_group_id : Bytes

pub record CempPayloadV1 : Type 0 where
  pub message_id : Bytes
  pub body_type : ℕ
  pub recipient_profile_id : Bytes
  pub text : Option Bytes
  pub attachment_manifests : List AttachmentManifestV1
  pub reply_to_message_id : Option Bytes
  pub reply_to_outpoint : Option OutPointV1
  pub receipts : List ReceiptEntryV1
  pub receipt_request : ℕ
  pub client_timestamp : ℕ
  pub sender_device_id : Bytes
  pub padding : Bytes

-- The library's codec of one structure: each call returns, or throws with a detail.
pub record MolCodec (A : Type 0) : Type 0 where
  pub encode : A → Result String Bytes
  pub decode : Bytes → Result String A

-- CempCodecError, with the step that failed and its detail.
pub data CempCodecError : Type 0 where
  encode_failed decode_failed re_encode_failed : String → CempCodecError
  non_canonical : CempCodecError

-- `try { ... } catch (e) { throw new CempCodecError(...) }`
abbrev pub rethrow {ℓ} :
    {A : Type ℓ} → (String → CempCodecError) → Result String A → Result CempCodecError A
rethrow f (ok a) = ok a
rethrow f (err e) = err (f e)

-- The two halves of `strictPair`.
module _ {A : Type 0} (codec : MolCodec A) where
  pub strict_encode : A → Result CempCodecError Bytes
  strict_encode value = rethrow encode_failed (codec.encode value)

  pub strict_decode : Bytes → Result CempCodecError A
  strict_decode bytes = do
    decoded ← rethrow decode_failed (codec.decode bytes)
    canonical ← rethrow re_encode_failed (codec.encode decoded)
    if bytes_equal canonical bytes then ok decoded else err non_canonical
