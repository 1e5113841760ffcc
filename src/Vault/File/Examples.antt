-- ===== src/Vault/File/Examples.antt =====
-- The file of a vault of twelve words, with zero bytes.
use cemp_mobile.Prelude.{
  ℕ, zero, suc, ◌≤◌, ◌≡◌, refl, false, [], ◌∷◌, Option, none, some, ok, arith, length, All,
}
use cemp_mobile.Core.Bytes.{IsByte, hex_to_bytes, bytes_to_hex, bytes_equal}
use cemp_mobile.Vault.Kdf.{argon2id, validate_kdf_params, costs_in_range, IsCapped}
use cemp_mobile.Vault.Json.{Json}
use cemp_mobile.Vault.File.{
  Bytes, VaultFileV1, twelve, file_to_wire, serialize_vault_file, vault_file_max_bytes,
  secret_payload_bytes,
}
use cemp_mobile.Vault.File.Parse.{parse_vault_file}
use cemp_mobile.Vault.File.RoundTrip.{IsVaultFile, parse_vault_file-serialize_vault_file}
use cemp_mobile.Vault.File.Accepts.{parse_vault_file-IsVaultFile}

abbrev pub zeros : ℕ → Bytes
zeros zero = []
zeros (suc n) = 0 ∷ zeros n

pub zeros-IsByte : (n : ℕ) → All IsByte (zeros n)
zeros-IsByte zero = tt
zeros-IsByte (suc n) = (omega arith, zeros-IsByte n)

abbrev sample : VaultFileV1
sample = record {
  header = record {
    kdf = argon2id 65536 3 1 (zeros 16);
    password_slot = record { nonce = zeros 12; wrapped_vek = zeros 48 };
    biometric_slot = none;
  };
  payload = record { nonce = zeros 12; ct = zeros 98 };
  meta = record {
    created_at = 1700000000000;
    word_count = twelve;
    has_passphrase = false;
    auto_lock_seconds = 300;
  };
}

sample-IsVaultFile : IsVaultFile sample
unfolding validate_kdf_params costs_in_range secret_payload_bytes
sample-IsVaultFile = record {
  salt_bytes = zeros-IsByte 16;
  kdf_accepted = refl;
  slot_nonce = zeros-IsByte 12;
  slot_nonce_length = refl;
  slot_vek = zeros-IsByte 48;
  slot_vek_length = refl;
  biometric = tt;
  payload_nonce = zeros-IsByte 12;
  payload_nonce_length = refl;
  payload_ct = zeros-IsByte 98;
  payload_ct_length = refl;
  created = omega arith;
  timer_positive = omega arith;
  timer_bounded = omega arith;
}

-- The printer and the parser of this one file.
abbrev print_sample : Json → Bytes
print_sample value = zeros 3

abbrev parse_sample : Bytes → Option Json
parse_sample bytes = some (file_to_wire sample)

sample_read : parse_vault_file parse_sample (serialize_vault_file print_sample sample) ≡ ok sample
unfolding parse_vault_file serialize_vault_file hex_to_bytes bytes_to_hex bytes_equal costs_in_range
sample_read = refl

parse_vault_file-serialize_vault_file_example :
    parse_vault_file parse_sample (serialize_vault_file print_sample sample) ≡ ok sample
unfolding serialize_vault_file
parse_vault_file-serialize_vault_file_example =
    parse_vault_file-serialize_vault_file print_sample parse_sample sample sample-IsVaultFile
      (omega arith) refl

parse_vault_file-IsVaultFile_example :
    (length (serialize_vault_file print_sample sample) ≤ vault_file_max_bytes)
    × IsVaultFile sample
    × IsCapped sample.header.kdf
parse_vault_file-IsVaultFile_example =
    parse_vault_file-IsVaultFile parse_sample (serialize_vault_file print_sample sample) sample
      sample_read
