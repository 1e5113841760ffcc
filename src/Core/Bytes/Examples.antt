-- ===== src/Core/Bytes/Examples.antt =====
-- Three bytes and their hex.
use cemp_mobile.Prelude.{◌≡◌, [], ◌∷◌, ok, arith}
use cemp_mobile.Core.Bytes.{bytes_to_hex, hex_to_bytes}
use cemp_mobile.Core.Bytes.Hex.{hex_to_bytes-bytes_to_hex}

hex_to_bytes-bytes_to_hex_example :
    hex_to_bytes (bytes_to_hex (0 ∷ 171 ∷ 255 ∷ [])) ≡ ok (0 ∷ 171 ∷ 255 ∷ [])
hex_to_bytes-bytes_to_hex_example =
    hex_to_bytes-bytes_to_hex (0 ∷ 171 ∷ 255 ∷ []) (omega arith, (omega arith, (omega arith, tt)))
