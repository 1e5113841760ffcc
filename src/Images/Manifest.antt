-- ===== src/Images/Manifest.antt =====
-- packages/cemp-images/src/manifest.ts, codec.ts and limits.ts: the check of a decoded attachment
-- manifest before anything is fetched. `none` for { ok: true }, else the reason.
pub mod Accepts
pub mod Examples
use cemp_mobile.Prelude.{
  ℕ, ◌+◌, ◌-◌, ◌/◌, Bool, true, false, not, ◌&&◌, ◌||◌, List, [], ◌∷◌, Option, none, some, String,
  str_eq, if◌then◌else◌, ◌==◌, ltb, leb, max, length, get_elem?,
}
use cemp_mobile.Core.Codec.{Bytes, AttachmentManifestV1}

pub record ImageLimits : Type 0 where
  pub max_longest_edge_px : ℕ
  pub max_attachment_bytes : ℕ

abbrev pub default_image_limits : ImageLimits
default_image_limits = record { max_longest_edge_px = 1280; max_attachment_bytes = 1048576 }

abbrev pub attachment_chunk_bytes : ℕ
attachment_chunk_bytes = 32768

pub data SniffedFormat : Type 0 where
  jpeg png webp unknown : SniffedFormat

abbrev pub same_format : SniffedFormat → SniffedFormat → Bool
same_format jpeg jpeg = true
same_format png png = true
same_format webp webp = true
same_format unknown unknown = true
same_format _ _ = false

byte_equals : ℕ → Option ℕ → Bool
byte_equals b none = false
byte_equals b (some x) = x == b

-- `bytes[start] === b0 && bytes[start + 1] === b1 && ...`
bytes_at : Bytes → ℕ → List ℕ → Bool
unfolding byte_equals
bytes_at bytes start [] = true
bytes_at bytes start (b ∷ bs) =
    byte_equals b (get_elem? bytes start) && bytes_at bytes (start + 1) bs

pub sniff_image_format : Bytes → SniffedFormat
unfolding bytes_at
sniff_image_format bytes =
    if leb 3 (length bytes) && bytes_at bytes 0 (255 ∷ 216 ∷ 255 ∷ [])
    then jpeg
    else if leb 8 (length bytes) && bytes_at bytes 0 (137 ∷ 80 ∷ 78 ∷ 71 ∷ 13 ∷ 10 ∷ 26 ∷ 10 ∷ [])
    then png
    else if leb 12 (length bytes)
        && bytes_at bytes 0 (82 ∷ 73 ∷ 70 ∷ 70 ∷ [])
        && bytes_at bytes 8 (87 ∷ 69 ∷ 66 ∷ 80 ∷ [])
    then webp
    else unknown

-- The reasons, by their check.
pub data Refusal : Type 0 where
  no_chunks plaintext_size encrypted_not_positive encrypted_size : Refusal
  chunk_count zero_dimensions edge_limit thumbnail_size : Refusal
  mime_size unsupported_mime unsupported_algorithm thumbnail_format : Refusal

-- The format that a supported mime type names: `mime.slice("image/".length)`.
abbrev pub format_of_mime : String → Option SniffedFormat
format_of_mime mime =
    if str_eq mime "image/webp"
    then some webp
    else if str_eq mime "image/jpeg"
    then some jpeg
    else if str_eq mime "image/png"
    then some png
    else none

abbrev pub thumbnail_too_big : Option Bytes → Bool
thumbnail_too_big none = false
thumbnail_too_big (some bytes) = ltb 32768 (length bytes)

pub check_thumbnail : SniffedFormat → Option Bytes → Option Refusal
check_thumbnail declared none = none
check_thumbnail declared (some bytes) =
    let sniffed = sniff_image_format bytes in
    if same_format sniffed unknown || not (same_format sniffed declared)
    then some thumbnail_format
    else none

-- The checks from the mime type on.
pub check_format : AttachmentManifestV1 → Option SniffedFormat → Option Refusal
check_format manifest none = some unsupported_mime
check_format manifest (some declared) =
    if not (manifest.encryption_algorithm.family == 3)
      || not (manifest.encryption_algorithm.parameter == 1)
    then some unsupported_algorithm
    else check_thumbnail declared manifest.thumbnail

-- `decode_text` is `new TextDecoder().decode`.
pub check_manifest : (Bytes → String) → ImageLimits → AttachmentManifestV1 → Option Refusal
check_manifest decode_text limits manifest =
    if length manifest.chunk_outpoints == 0
    then some no_chunks
    else if (manifest.plaintext_size == 0)
        || ltb limits.max_attachment_bytes manifest.plaintext_size
    then some plaintext_size
    else if manifest.encrypted_size == 0
    then some encrypted_not_positive
    else if not (manifest.encrypted_size == manifest.plaintext_size + 16)
    then some encrypted_size
    else if not (
        length manifest.chunk_outpoints
        == (manifest.encrypted_size + (attachment_chunk_bytes - 1)) / attachment_chunk_bytes)
    then some chunk_count
    else if (manifest.width == 0) || (manifest.height == 0)
    then some zero_dimensions
    else if ltb limits.max_longest_edge_px (max manifest.width manifest.height)
    then some edge_limit
    else if thumbnail_too_big manifest.thumbnail
    then some thumbnail_size
    else if (length manifest.mime_type == 0) || ltb 64 (length manifest.mime_type)
    then some mime_size
    else check_format manifest (format_of_mime (decode_text manifest.mime_type))
