-- ===== src/Vault/Config/Rotation.antt =====
-- internal/vault/rotation.go and seal.go: the rewrites of vault.json, as functions on it.
use open_seavault_rclone.Shared.Result.{Result, ok, err, ◌>>=◌}
use open_seavault_rclone.Shared.{
  String, Bool, true, false, not, ◌&&◌, Option, none, some, List, [], ◌∷◌, ◌++◌, ltb, leb, str_eq,
  if◌then◌else◌,
}
use open_seavault_rclone.Vault.Kdf.{KdfConfig, KdfError, raise_to_floor}
use open_seavault_rclone.Vault.Config.{
  Keys, WrapEntry, VaultConfig, ConfigError, Wrapping, wrap_type_password, wrap_type_recovery,
  empty_password, entry_not_found, kdf_refused, wrap_failed, already_sealed, not_sealed, rekeyed,
}

-- The random values of one rewrap.
pub record Draws : Type 0 where
  pub id : String
  pub salt : String
  pub nonce : String
  pub legacy_salt : String
  pub legacy_nonce : String

abbrev pub salted : String → Result KdfError KdfConfig → Result ConfigError KdfConfig
salted salt (err e) = err kdf_refused
salted salt (ok k) = ok (record k { salt = salt })

abbrev pub wrapped : Option (String × String) → Result ConfigError (String × String)
wrapped none = err wrap_failed
wrapped (some pair) = ok pair

unfoldable pub password_entry_id : List WrapEntry → String
password_entry_id [] = ""
password_entry_id (e ∷ es) =
    let rest = password_entry_id es in if str_eq e.wrap_type wrap_type_password then e.id else rest

unfoldable pub without_passwords : List WrapEntry → List WrapEntry
without_passwords [] = []
without_passwords (e ∷ es) =
    let rest = without_passwords es in
    if str_eq e.wrap_type wrap_type_password then rest else e ∷ rest

-- `removeWrapEntry`: what is kept, and whether one was removed.
unfoldable pub remove_wrap_entry : String → String → List WrapEntry → List WrapEntry × Bool
remove_wrap_entry id want [] = ([], false)
remove_wrap_entry id want (e ∷ es) =
    let (kept, removed) = remove_wrap_entry id want es in
    if str_eq e.id id && str_eq e.wrap_type want then (kept, true) else (e ∷ kept, removed)

unfoldable pub first_bare_password_entry : List WrapEntry → Option WrapEntry
first_bare_password_entry [] = none
first_bare_password_entry (e ∷ es) =
    let rest = first_bare_password_entry es in
    if str_eq e.wrap_type wrap_type_password && str_eq e.aad "" then some e else rest

unfoldable pub revoke : String → VaultConfig → Result ConfigError VaultConfig
unfolding remove_wrap_entry
revoke id c =
    let (kept, removed) = remove_wrap_entry id wrap_type_recovery c.wrap_entries in
    if removed then ok (record c { wrap_entries = kept }) else err entry_not_found

module _ (w : Wrapping) where
  unfoldable pub fresh_wrap_kdf : KdfConfig → String → Result ConfigError KdfConfig
  fresh_wrap_kdf base salt = salted salt (raise_to_floor w.probe base)

  abbrev pub wrap_keys : String → KdfConfig → Keys → String → Result ConfigError (String × String)
  wrap_keys secret kdf keys nonce = wrapped (w.seal secret kdf keys nonce)

  abbrev pub chosen_id : List WrapEntry → String → String
  chosen_id es drawn = if str_eq (password_entry_id es) "" then drawn else password_entry_id es

  unfoldable pub rewrap : Draws → String → Keys → VaultConfig → Result ConfigError VaultConfig
  unfolding fresh_wrap_kdf without_passwords password_entry_id
  rewrap d password keys c = do
    kdf ← fresh_wrap_kdf c.kdf d.salt
    entry ← wrap_keys password kdf keys d.nonce
    legacy_kdf ← fresh_wrap_kdf c.kdf d.legacy_salt
    legacy ← wrap_keys password legacy_kdf keys d.legacy_nonce
    let new : WrapEntry = record {
      id = chosen_id c.wrap_entries d.id;
      wrap_type = wrap_type_password;
      kdf = kdf;
      nonce = entry.0;
      ct = entry.1;
      aad = "";
    }
    ok (record c {
      wrap_entries = without_passwords c.wrap_entries ++ (new ∷ []);
      kdf = legacy_kdf;
      wrapped_keys = legacy.1;
      wrap_nonce = legacy.0;
    })

  unfoldable pub apply_password_rewrap :
      Draws → String → Keys → VaultConfig → Result ConfigError VaultConfig
  unfolding rewrap
  apply_password_rewrap d password keys c =
      if str_eq password "" then err empty_password else rewrap d password keys c

  unfoldable pub make_recovery_entry :
      Draws → String → Keys → KdfConfig → Result ConfigError WrapEntry
  unfolding fresh_wrap_kdf
  make_recovery_entry d secret keys base = do
    kdf ← fresh_wrap_kdf base d.salt
    entry ← wrap_keys secret kdf keys d.nonce
    ok (record {
      id = d.id;
      wrap_type = wrap_type_recovery;
      kdf = kdf;
      nonce = entry.0;
      ct = entry.1;
      aad = "";
    })

  -- The commit of `PrepareRecovery`.
  unfoldable pub add_recovery : Draws → String → Keys → VaultConfig → Result ConfigError VaultConfig
  unfolding make_recovery_entry
  add_recovery d secret keys c = do
    entry ← make_recovery_entry d secret keys c.kdf
    ok (record c { wrap_entries = c.wrap_entries ++ (entry ∷ []) })

  unfoldable pub redeem :
      Draws → String → String → Keys → VaultConfig → Result ConfigError VaultConfig
  unfolding revoke apply_password_rewrap
  redeem d id password keys c = do
    removed ← revoke id c
    apply_password_rewrap d password keys removed

-- `SealFormat`: the legacy wrap becomes a password entry, unless there is one, and is cleared.
abbrev pub migrated : String → VaultConfig → List WrapEntry
migrated drawn c = elim (first_bare_password_entry c.wrap_entries) [
  | some e ↦ c.wrap_entries
  | none ↦
      c.wrap_entries
      ++ (record {
        id = drawn;
        wrap_type = wrap_type_password;
        kdf = c.kdf;
        nonce = c.wrap_nonce;
        ct = c.wrapped_keys;
        aad = "";
      }
          ∷ [])
]

unfoldable pub seal_format : String → VaultConfig → Result ConfigError VaultConfig
unfolding first_bare_password_entry
seal_format drawn c =
    if leb 3 c.version && leb 3 c.min_reader
    then err already_sealed
    else if not (str_eq c.wrapped_keys "")
    then ok (record c {
      wrap_entries = migrated drawn c;
      wrapped_keys = "";
      wrap_nonce = "";
      version = 3;
      min_reader = 3;
    })
    else ok (record c { version = 3; min_reader = 3 })

abbrev pub restored : Option WrapEntry → VaultConfig → VaultConfig
restored none c = c
restored (some e) c = record c { kdf = e.kdf; wrap_nonce = e.nonce; wrapped_keys = e.ct }

unfoldable pub unseal_format : VaultConfig → Result ConfigError VaultConfig
unfolding first_bare_password_entry
unseal_format c =
    if ltb 0 c.dir_id_epoch
    then err rekeyed
    else if ltb c.version 3
    then err not_sealed
    else ok
        (record (if str_eq c.wrapped_keys ""
          then restored (first_bare_password_entry c.wrap_entries) c
          else c) { version = 2; min_reader = 2 })
