-- ===== src/Images/Manifest/Accepts.antt =====
-- The manifests that the check lets through.
use cemp_mobile.Prelude.{◌+◌, ◌*◌, ◌≤◌, ◌<◌, ◌≡◌, ◌≢◌, false, Option, none, some, String, length}
use cemp_mobile.Core.Codec.{Bytes, AttachmentManifestV1}
use cemp_mobile.Images.Manifest.{
  ImageLimits, SniffedFormat, unknown, sniff_image_format, format_of_mime, thumbnail_too_big,
}

-- The thumbnail, if there is one, has at most 32 KiB and the magic bytes of the declared format.
abbrev pub IsThumbnail : SniffedFormat → Option Bytes → Type 0
IsThumbnail declared none = Unit {0}
IsThumbnail declared (some bytes) =
    (length bytes ≤ 32768) × (sniff_image_format bytes ≡ declared) × (declared ≢ unknown)

-- Sizes within the limits that agree with each other, with exactly as many chunks of 32 KiB as the
-- ciphertext fills, a supported format, and AES-256-GCM.
pub record IsFetchable (decode_text : Bytes → String) (limits : ImageLimits)
    (m : AttachmentManifestV1) : Type 0 where
  pub plaintext : (0 < m.plaintext_size) × (m.plaintext_size ≤ limits.max_attachment_bytes)
  pub encrypted : m.encrypted_size ≡ m.plaintext_size + 16
  pub chunks_hold : m.encrypted_size ≤ 32768 * length m.chunk_outpoints
  pub chunks_needed : 32768 * length m.chunk_outpoints < m.encrypted_size + 32768
  pub dimensions : (0 < m.width) × (0 < m.height)
  pub edge : (m.width ≤ limits.max_longest_edge_px) × (m.height ≤ limits.max_longest_edge_px)
  pub mime : (0 < length m.mime_type) × (length m.mime_type ≤ 64)
  pub algorithm : (m.encryption_algorithm.family ≡ 3) × (m.encryption_algorithm.parameter ≡ 1)
  pub format :
      (declared : SniffedFormat) × (format_of_mime (decode_text m.mime_type) ≡ some declared)
      × IsThumbnail declared m.thumbnail

-- The checks before the mime type.
abbrev HasSizes : ImageLimits → AttachmentManifestV1 → Type 0
HasSizes limits m =
    (0 < m.plaintext_size)
    × (m.plaintext_size ≤ limits.max_attachment_bytes)
    × (m.encrypted_size ≡ m.plaintext_size + 16)
    × (m.encrypted_size ≤ 32768 * length m.chunk_outpoints)
    × (32768 * length m.chunk_outpoints < m.encrypted_size + 32768)
    × (0 < m.width)
    × (0 < m.height)
    × (m.width ≤ limits.max_longest_edge_px)
    × (m.height ≤ limits.max_longest_edge_px)
    × (thumbnail_too_big m.thumbnail ≡ false)
    × (0 < length m.mime_type)
    × (length m.mime_type ≤ 64)
