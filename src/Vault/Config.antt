-- ===== src/Vault/Config.antt =====
-- internal/vault: vault.json, `VaultConfig`. vault.go unlocks it, rotation.go and seal.go rewrite it,
-- anchor.go and configmac.go compare it with the newest one that the device has seen. `Wrapping`
-- stands for the key derivation with the AEAD of the wraps, and for the HMAC over the canonical
-- bytes of a configuration; `unseal` takes the nonce, the text and the AAD scheme with the version,
-- and gives no keys for a text that cannot be decoded. Random values are arguments. Epochs are
-- int64, versions natural numbers; `other` is the fields that nothing here reads or changes.
pub mod Rotation
pub mod Anchor
pub mod Freshness
pub mod Passwords
pub mod Changes
pub mod Redemption
mod Tests
use open_seavault_rclone.Shared.Int.{ℤ}
use open_seavault_rclone.Shared.Result.{Result, ok, err}
use open_seavault_rclone.Shared.{
  ℕ, String, Bool, true, false, not, ◌&&◌, Option, none, some, List, [], ◌∷◌, ltb, leb, ◌==◌,
  str_eq, if◌then◌else◌,
}
use open_seavault_rclone.Vault.Kdf.{KdfConfig}

pub record Keys : Type 0 where
  pub master_key : String
  pub index_key : String

pub record WrapEntry : Type 0 where
  pub id : String
  pub wrap_type : String
  pub kdf : KdfConfig
  pub nonce : String
  pub ct : String
  pub aad : String

abbrev pub wrap_type_password : String
wrap_type_password = "password"

abbrev pub wrap_type_recovery : String
wrap_type_recovery = "recovery"

pub record VaultConfig : Type 0 where
  pub version : ℕ
  pub min_reader : ℕ
  pub format_epoch : ℤ
  pub kdf : KdfConfig
  pub dir_id_epoch : ℕ
  pub wrapped_keys : String
  pub wrap_nonce : String
  pub wrap_entries : List WrapEntry
  pub config_tag : String
  pub other : String

pub data ConfigError : Type 0 where
  empty_password no_entry_to_redeem id_required entry_not_found kdf_refused wrap_failed
        write_failed :
      ConfigError
  already_sealed not_sealed rekeyed wrong_secret config_tampered config_rolled_back
        config_diverged :
      ConfigError

pub record Wrapping : Type 0 where
  pub probe : ℤ → ℤ → ℤ → Bool
  pub seal : String → KdfConfig → Keys → String → Option (String × String)
  pub unseal : String → KdfConfig → String → String → String → ℕ → Option Keys
  pub mac : String → VaultConfig → String

-- `errWrongSecret` for every wrap that does not open.
abbrev pub opened_keys : Option Keys → Result ConfigError Keys
opened_keys none = err wrong_secret
opened_keys (some k) = ok k

module _ (w : Wrapping) where
  -- `unwrapEntry`
  abbrev pub unwrap_entry : String → ℕ → WrapEntry → Option Keys
  unwrap_entry secret version e = w.unseal secret e.kdf e.nonce e.ct e.aad version

  -- `unwrapKeys` on the top-level wrap.
  abbrev pub unwrap_legacy : String → VaultConfig → Option Keys
  unwrap_legacy secret c = w.unseal secret c.kdf c.wrap_nonce c.wrapped_keys "" c.version

  -- The loop of `unlockWith` and of `recoveryEntryFor`, with the id of the entry.
  unfoldable pub first_opened : String → String → ℕ → List WrapEntry → Option (Keys × String)
  first_opened secret want version [] = none
  first_opened secret want version (e ∷ es) =
      let rest = first_opened secret want version es in
      if str_eq e.wrap_type want
      then elim (unwrap_entry secret version e) [ some k ↦ some (k, e.id) | none ↦ rest ]
      else rest

  abbrev pub or_legacy :
      String → String → VaultConfig → Option (Keys × String) → Result ConfigError Keys
  or_legacy secret want c (some (k, id)) = ok k
  or_legacy secret want c none =
      if str_eq want wrap_type_password && not (str_eq c.wrapped_keys "")
      then opened_keys (unwrap_legacy secret c)
      else err wrong_secret

  abbrev pub unlock_entries :
      String → String → VaultConfig → List WrapEntry → Result ConfigError Keys
  unlock_entries secret want c [] =
      if not (str_eq want wrap_type_password)
      then err wrong_secret
      else opened_keys (unwrap_legacy secret c)
  unlock_entries secret want c (e ∷ es) =
      or_legacy secret want c (first_opened secret want c.version (e ∷ es))

  unfoldable pub unlock_with : VaultConfig → String → String → Result ConfigError Keys
  unfolding first_opened
  unlock_with c secret want = unlock_entries secret want c c.wrap_entries

  unfoldable pub recovery_entry_for : VaultConfig → String → Result ConfigError (Keys × String)
  unfolding first_opened
  recovery_entry_for c secret =
      elim (first_opened secret wrap_type_recovery c.version c.wrap_entries) [
        | some found ↦ ok found
        | none ↦ err wrong_secret
      ]

  -- `computeConfigTag`, and the text that is compared: the configuration without its tag.
  unfoldable pub compute_config_tag : Keys → VaultConfig → String
  compute_config_tag keys c = w.mac keys.master_key (record c { config_tag = "" })

  unfoldable pub verify_config_tag : Keys → VaultConfig → Bool
  unfolding compute_config_tag
  verify_config_tag keys c =
      if str_eq c.config_tag "" then false else str_eq (compute_config_tag keys c) c.config_tag
