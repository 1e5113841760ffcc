-- ===== src/Images/Manifest/Examples.antt =====
-- A manifest of one chunk.
use cemp_mobile.Prelude.{[], ◌∷◌, none, String}
use cemp_mobile.Core.Codec.{Bytes, AttachmentManifestV1, OutPointV1}

abbrev chunk : OutPointV1
chunk = record { tx_hash = []; index = 0 }

abbrev small_manifest : AttachmentManifestV1
small_manifest = record {
  attachment_id = [];
  ckbfs_root = chunk;
  chunk_outpoints = chunk ∷ [];
  encrypted_size = 1016;
  plaintext_size = 1000;
  mime_type = 1 ∷ [];
  width = 10;
  height = 20;
  thumbnail = none;
  content_hash = [];
  cipher_hash = [];
  encryption_nonce = [];
  encryption_algorithm = record { family = 3; parameter = 1 };
  reclaim_group_id = [];
}

abbrev always_webp : Bytes → String
always_webp bytes = "image/webp"
