-- ===== src/Core/Codec/Examples.antt =====
-- A codec of one byte, as the library's would be.
use cemp_mobile.Prelude.{ℕ, [], ◌∷◌, Result, ok, err, String}
use cemp_mobile.Core.Codec.{Bytes, MolCodec}

-- It ignores trailing bytes, which the strict decoder does not.
abbrev lenient : MolCodec ℕ
lenient = record { encode = λ n. ok (n ∷ []); decode = first }
  where
    first : Bytes → Result String ℕ
    first [] = err "empty"
    first (n ∷ bytes) = ok n

abbrev seven_bytes : Bytes
seven_bytes = 7 ∷ []
