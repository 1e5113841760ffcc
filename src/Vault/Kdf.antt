-- ===== src/Vault/Kdf.antt =====
-- packages/cemp-secure-vault/src/kdf.ts: the parameters of the password's key derivation and the caps
-- that a parsed file must meet. Argon2id and scrypt are third-party code.
use cemp_mobile.Prelude.{
  ℕ, ◌*◌, ◌≤◌, ◌≡◌, Bool, not, ◌||◌, List, Option, none, some, Result, ok, arith, ltb, length, ◌>>◌,
  guard,
}
use cemp_mobile.Vault.Errors.{VaultError, kdf_params_out_of_range}

-- `m` in KiB; `log_n` the logarithm of scrypt's N. A cost is an integer here: the only callers read
-- it by `expectUint` or write it in the source.
pub data KdfParams : Type 0 where
  argon2id scrypt : ℕ → ℕ → ℕ → List ℕ → KdfParams

abbrev pub max_m : ℕ
max_m = 1048576

abbrev pub min_m : ℕ
min_m = 8

abbrev pub max_t : ℕ
max_t = 16

abbrev pub max_p : ℕ
max_p = 8

abbrev pub max_log_n : ℕ
max_log_n = 20

abbrev pub max_r : ℕ
max_r = 8

abbrev pub min_salt : ℕ
min_salt = 8

abbrev pub max_salt : ℕ
max_salt = 64

abbrev pub kdf_salt_bytes : ℕ
kdf_salt_bytes = 16

abbrev pub salt_of : KdfParams → List ℕ
salt_of (argon2id m t p salt) = salt
salt_of (scrypt log_n r p salt) = salt

-- `{ ...kdf, salt }`
abbrev pub with_salt : List ℕ → KdfParams → KdfParams
with_salt new (argon2id m t p salt) = argon2id m t p new
with_salt new (scrypt log_n r p salt) = scrypt log_n r p new

unfoldable pub costs_in_range : KdfParams → Bool
costs_in_range (argon2id m t p salt) = not (
    ltb m min_m || ltb max_m m || ltb t 1 || ltb max_t t || ltb p 1 || ltb max_p p || ltb m (8 * p))
costs_in_range (scrypt log_n r p salt) =
    not (ltb log_n 1 || ltb max_log_n log_n || ltb r 1 || ltb max_r r || ltb p 1 || ltb max_p p)

unfoldable pub validate_kdf_params : KdfParams → Result VaultError (Unit {0})
validate_kdf_params params = do
  guard (not (ltb (length (salt_of params)) min_salt || ltb max_salt (length (salt_of params))))
      kdf_params_out_of_range
  guard (costs_in_range params) kdf_params_out_of_range

pub data KdfOptions : Type 0 where
  argon2id_options scrypt_options : Option ℕ → Option ℕ → Option ℕ → KdfOptions

-- `option ?? value`
abbrev pub or_else {ℓ} : {A : Type ℓ} → Option A → A → A
or_else none value = value
or_else (some option) value = option

abbrev pub default_kdf_params : List ℕ → KdfParams
default_kdf_params salt = argon2id 65536 3 1 salt

unfoldable pub resolve_kdf_params : Option KdfOptions → List ℕ → KdfParams
resolve_kdf_params none salt = default_kdf_params salt
resolve_kdf_params (some (argon2id_options m t p)) salt =
    argon2id (or_else m 65536) (or_else t 3) (or_else p 1) salt
resolve_kdf_params (some (scrypt_options log_n r p)) salt =
    scrypt (or_else log_n 17) (or_else r 8) (or_else p 1) salt

-- A new salt of a vault's length keeps accepted parameters accepted.
pub validate_kdf_params-with_salt :
    (params : KdfParams) (salt : List ℕ)
    → length salt ≡ kdf_salt_bytes
    → validate_kdf_params params ≡ ok tt
    → validate_kdf_params (with_salt salt params) ≡ ok tt
unfolding validate_kdf_params costs_in_range
validate_kdf_params-with_salt (argon2id m t p old) salt e h = ground (arith, e, h)
validate_kdf_params-with_salt (scrypt n r p old) salt e h = ground (arith, e, h)

-- The caps of an accepted set of parameters.
abbrev pub IsCapped : KdfParams → Type 0
IsCapped (argon2id m t p salt) = (m ≤ max_m) × (t ≤ max_t) × (p ≤ max_p) × (8 * p ≤ m)
IsCapped (scrypt log_n r p salt) = (log_n ≤ max_log_n) × (r ≤ max_r) × (p ≤ max_p)

pub validate_kdf_params-IsCapped :
    (params : KdfParams) → validate_kdf_params params ≡ ok tt → IsCapped params
unfolding validate_kdf_params costs_in_range
validate_kdf_params-IsCapped (argon2id m t p salt) h = ground (arith, h)
validate_kdf_params-IsCapped (scrypt n r p salt) h = ground (arith, h)
