-- ===== src/Vault/Payload.antt =====
-- packages/cemp-secure-vault/src/format.ts: the fixed layout of the decrypted secret payload,
-- entropyLen(1) ‖ entropy ‖ seed(64) ‖ flag(1). A Uint8Array is a list of numbers.
pub mod RoundTrip
pub mod Examples
use cemp_mobile.Prelude.{
  ℕ, ◌+◌, ◌-◌, Bool, true, false, not, ◌&&◌, List, [], ◌∷◌, ◌++◌, Option, none, some, Result, ok,
  err, if◌then◌else◌, ◌==◌, length, take, drop, get_elem?, ◌>>=◌,
}

abbrev pub seed_bytes : ℕ
seed_bytes = 64

pub record VaultSecretPayload : Type 0 where
  pub entropy : List ℕ
  pub seed : List ℕ
  pub has_passphrase : Bool

-- VaultError "corrupt-vault", by the check that failed.
pub data PayloadError : Type 0 where
  bad_entropy_length bad_seed_length bad_total_length bad_flag : PayloadError

-- `new Uint8Array(1 + entropy.length + SEED_BYTES + 1)` with its four parts set.
unfoldable pub encode_secret_payload : VaultSecretPayload → Result PayloadError (List ℕ)
encode_secret_payload payload =
    if not (length payload.entropy == 16) && not (length payload.entropy == 32)
    then err bad_entropy_length
    else if not (length payload.seed == seed_bytes)
    then err bad_seed_length
    else ok (
        length payload.entropy ∷ payload.entropy
        ++ payload.seed
        ++ (if payload.has_passphrase then 1 else 0) ∷ [])

-- `bytes[bytes.length - 1]`; the checks before it leave at least one byte.
last_byte : List ℕ → Option ℕ
last_byte bytes = get_elem? bytes (length bytes - 1)

-- `bytes.slice(from, to)`.
abbrev pub slice : ℕ → ℕ → List ℕ → List ℕ
slice from to bytes = take (to - from) (drop from bytes)

with_flag : List ℕ → ℕ → Option ℕ → Result PayloadError VaultSecretPayload
with_flag bytes entropy_len none = err bad_flag
with_flag bytes entropy_len (some flag) =
    if not (flag == 0) && not (flag == 1)
    then err bad_flag
    else ok (record {
      entropy = slice 1 (1 + entropy_len) bytes;
      seed = slice (1 + entropy_len) (1 + entropy_len + seed_bytes) bytes;
      has_passphrase = flag == 1;
    })

with_length : List ℕ → Option ℕ → Result PayloadError VaultSecretPayload
unfolding with_flag last_byte
with_length bytes none = err bad_entropy_length
with_length bytes (some entropy_len) =
    if not (entropy_len == 16) && not (entropy_len == 32)
    then err bad_entropy_length
    else if not (length bytes == 1 + entropy_len + seed_bytes + 1)
    then err bad_total_length
    else with_flag bytes entropy_len (last_byte bytes)

unfoldable pub decode_secret_payload : List ℕ → Result PayloadError VaultSecretPayload
unfolding with_length
decode_secret_payload bytes = with_length bytes (get_elem? bytes 0)
