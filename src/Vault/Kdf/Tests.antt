-- ===== src/Vault/Kdf/Tests.antt =====
-- internal/vault/crypto.go: the theorems at the weak cost that the tests of the program wrap with.
use open_seavault_rclone.Shared.Int.{ℤ, pos}
use open_seavault_rclone.Shared.Result.{Ensures}
use open_seavault_rclone.Shared.{refl, Bool, true}
use open_seavault_rclone.Vault.Kdf.{
  KdfConfig, scrypt, argon2id, bare, check_kdf_range, normalize_kdf_config, raise_to_floor,
  derive_call,
}
use open_seavault_rclone.Vault.Kdf.Floor.{Lifted, raise_to_floor-Lifted}
use open_seavault_rclone.Vault.Kdf.Range.{Affordable, derive_call-Affordable}

abbrev accepts : ℤ → ℤ → ℤ → Bool
accepts n r p = true

abbrev fast : KdfConfig
fast = record (bare scrypt) {
  salt = "c2FsdA==";
  scrypt_n = pos 16;
  scrypt_r = pos 1;
  scrypt_p = pos 1;
}

abbrev threads : KdfConfig
threads = record (bare argon2id) {
  salt = "c2FsdA==";
  time = pos 3;
  memory_kib = pos 65536;
  parallelism = pos 4;
}

raise_to_floor-Lifted_example :
    Ensures
      (λ (k : KdfConfig). Ensures (Lifted accepts fast) (normalize_kdf_config accepts k true))
      (raise_to_floor accepts fast)
raise_to_floor-Lifted_example =
    raise_to_floor-Lifted accepts fast fast (unfold normalize_kdf_config check_kdf_range in refl)

derive_call-Affordable_example :
    Ensures (Affordable threads) (derive_call accepts (λ s. true) threads)
derive_call-Affordable_example =
    derive_call-Affordable accepts (λ s. true) threads threads
      (unfold normalize_kdf_config check_kdf_range in refl)
