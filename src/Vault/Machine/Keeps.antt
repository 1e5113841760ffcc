-- ===== src/Vault/Machine/Keeps.antt =====
-- What holds of the vault and its storage along the calls of one operation.
use cemp_mobile.Prelude.{Option, none, some, Result, ok, err, String}
use cemp_mobile.Prelude.Actions.{or_raise, lift, and_then, ◌>>=◌}
use cemp_mobile.Vault.Errors.{VaultError, not_initialized}
use cemp_mobile.Vault.File.{Bytes, VaultFileV1}
use cemp_mobile.Vault.File.Parse.{parse_vault_file}
use cemp_mobile.Vault.Machine.{
  World, Crypto, VaultAction, read_vault_file, decrypt_payload_bytes, decrypt_payload, unwrap_vek,
}

-- A call that keeps what held before it, whether it returns or throws.
abbrev pub Keeps : {A : Type 0} → (World → Type 0) → VaultAction A → Type 0
Keeps P m = (w : World) → P w → P (m w).1

module _ (P : World → Type 0) where
  pub and_then-keeps :
      {A B : Type 0} (f : A → VaultAction B) (r : Result VaultError A × World)
      → P r.1
      → ((a : A) → Keeps P (f a))
      → P (and_then f r).1
  and_then-keeps f (ok a, w) h k = k a w h
  and_then-keeps f (err e, w) h k = h

  pub chain :
      {A B : Type 0} (m : VaultAction A) (f : A → VaultAction B)
      → Keeps P m
      → ((a : A) → Keeps P (f a))
      → Keeps P (m >>= f)
  chain m f h k w p = and_then-keeps f (m w) (h w p) k

  pub or_raise-keeps : {A : Type 0} (o : Option A) (e : VaultError) → Keeps P (or_raise o e)
  or_raise-keeps none e w p = p
  or_raise-keeps (some a) e w p = p

  pub read_vault_file-keeps : (crypto : Crypto) → Keeps P (read_vault_file crypto)
  unfolding read_vault_file
  read_vault_file-keeps crypto w p =
      chain (or_raise w.vault_file not_initialized)
        (λ bytes. lift (parse_vault_file crypto.parse bytes)) (or_raise-keeps _ _) (λ bytes x q. q)
        w p

  pub unwrap_vek-keeps :
      (crypto : Crypto) (password : String) (file : VaultFileV1)
      → Keeps P (unwrap_vek crypto password file)
  unfolding unwrap_vek
  unwrap_vek-keeps crypto password file = or_raise-keeps _ _

  pub decrypt_payload_bytes-keeps :
      (crypto : Crypto) (file : VaultFileV1) (vek : Bytes) (code : VaultError)
      → Keeps P (decrypt_payload_bytes crypto file vek code)
  unfolding decrypt_payload_bytes
  decrypt_payload_bytes-keeps crypto file vek code = or_raise-keeps _ _

  pub decrypt_payload-keeps :
      (crypto : Crypto) (file : VaultFileV1) (vek : Bytes) (code : VaultError)
      → Keeps P (decrypt_payload crypto file vek code)
  unfolding decrypt_payload
  decrypt_payload-keeps crypto file vek code =
      chain (decrypt_payload_bytes crypto file vek code) _
        (decrypt_payload_bytes-keeps crypto file vek code) (λ p w h. h)
