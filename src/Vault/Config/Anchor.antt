-- ===== src/Vault/Config/Anchor.antt =====
-- internal/vault: the transaction of a rewrite (rotation.go, configmac.go) and the gate at opening
-- (configmac.go), with the record of the newest configuration that the device has seen (anchor.go).
-- An anchor file that is there can be written; `unavailable` is a data directory that is not.
use open_seavault_rclone.Shared.Int.{ℤ, pos, ltb_ℤ, eqb_ℤ}
use open_seavault_rclone.Shared.Result.{Result, ok, err}
use open_seavault_rclone.Shared.{
  String, Bool, true, false, not, ◌&&◌, ◌||◌, Option, none, some, str_eq, if◌then◌else◌,
}
use open_seavault_rclone.Vault.Clock.{increment}
use open_seavault_rclone.Vault.Config.{
  Keys, VaultConfig, ConfigError, Wrapping, compute_config_tag, verify_config_tag, empty_password,
  no_entry_to_redeem, id_required, write_failed, config_tampered, config_rolled_back,
  config_diverged,
}
use open_seavault_rclone.Vault.Config.Rotation.{
  Draws, apply_password_rewrap, add_recovery, revoke, redeem, seal_format, unseal_format,
}

pub record FreshnessAnchor : Type 0 where
  pub format_epoch : ℤ
  pub has_tag : Bool
  pub config_tag : String

-- The anchor file: no data directory, a file that cannot be read, none or one that does not parse,
-- or a record.
pub data AnchorFile : Type 0 where
  unavailable unreadable absent : AnchorFile
  stored : FreshnessAnchor → AnchorFile

-- A `Vault` with the files that it writes.
pub record Device : Type 0 where
  pub config : VaultConfig
  pub on_disk : VaultConfig
  pub keys : Keys
  pub anchor : AnchorFile

abbrev pub no_anchor : FreshnessAnchor
no_anchor = record { format_epoch = pos 0; has_tag = false; config_tag = "" }

abbrev pub if_tagged : String → String → String
if_tagged tag old = if str_eq tag "" then old else tag

-- The `next` of `recordAnchor`.
unfoldable pub advance : FreshnessAnchor → ℤ → Bool → String → FreshnessAnchor
advance a epoch has_tag tag =
    let tagged = a.has_tag || has_tag in
    if ltb_ℤ a.format_epoch epoch
    then record { format_epoch = epoch; has_tag = tagged; config_tag = if_tagged tag a.config_tag }
    else if eqb_ℤ epoch a.format_epoch && str_eq a.config_tag ""
    then record a { has_tag = tagged; config_tag = tag }
    else record a { has_tag = tagged }

unfoldable pub record_anchor : AnchorFile → ℤ → Bool → String → AnchorFile
unfolding advance
record_anchor unavailable epoch has_tag tag = unavailable
record_anchor unreadable epoch has_tag tag = stored (advance no_anchor epoch has_tag tag)
record_anchor absent epoch has_tag tag = stored (advance no_anchor epoch has_tag tag)
record_anchor (stored a) epoch has_tag tag = stored (advance a epoch has_tag tag)

-- What the anchor says of a configuration whose tag has verified.
unfoldable pub judged : Bool → VaultConfig → AnchorFile → Result ConfigError AnchorFile
judged accept c (stored a) =
    if ltb_ℤ c.format_epoch a.format_epoch
    then (if accept then ok absent else err config_rolled_back)
    else if eqb_ℤ c.format_epoch a.format_epoch
        && not (str_eq a.config_tag "")
        && not (str_eq c.config_tag a.config_tag)
    then err config_diverged
    else ok (stored a)
judged accept c absent = ok absent
judged accept c unreadable = ok unreadable
judged accept c unavailable = ok unavailable

-- An anchor that cannot be read is left as it is.
abbrev pub anchored : VaultConfig → AnchorFile → AnchorFile
anchored c unavailable = unavailable
anchored c unreadable = unreadable
anchored c absent = record_anchor absent c.format_epoch true c.config_tag
anchored c (stored a) = record_anchor (stored a) c.format_epoch true c.config_tag

unfoldable pub check_freshness : Bool → VaultConfig → AnchorFile → Result ConfigError AnchorFile
unfolding judged record_anchor
check_freshness accept c file = elim (judged accept c file) [
  | err e ↦ err e
  | ok file' ↦ ok (anchored c file')
]

abbrev pub untagged : AnchorFile → Result ConfigError AnchorFile
untagged unavailable = ok unavailable
untagged unreadable = ok unreadable
untagged absent = ok absent
untagged (stored a) = if a.has_tag then err config_tampered else ok (stored a)

module _ (w : Wrapping) where
  -- `checkConfigIntegrity` of the configuration that was read.
  unfoldable pub check_config_integrity :
      Bool → Keys → VaultConfig → AnchorFile → Result ConfigError AnchorFile
  unfolding check_freshness
  check_config_integrity accept keys c file =
      if str_eq c.config_tag ""
      then untagged file
      else if not (verify_config_tag w keys c)
      then err config_tampered
      else check_freshness accept c file

  abbrev pub tagged : Keys → VaultConfig → VaultConfig
  tagged keys c = record c { config_tag = compute_config_tag w keys c }

  abbrev pub published : Bool → VaultConfig → Device → Device × Option ConfigError
  published false next d = (d, some write_failed)
  published true next d = (
    record d {
      config = next;
      on_disk = next;
      anchor = record_anchor d.anchor next.format_epoch true next.config_tag;
    },
    none,
  )

  -- `rewriteConfig` with what the mutation makes of the configuration; `written` is whether the
  -- atomic write of vault.json succeeds.
  unfoldable pub rewrite_config :
      Bool → Device → Result ConfigError VaultConfig → Device × Option ConfigError
  unfolding record_anchor increment
  rewrite_config written d (err e) = (d, some e)
  rewrite_config written d (ok next) =
      published written
        (tagged d.keys (record next { format_epoch = increment d.config.format_epoch })) d

  unfoldable pub change_password : Bool → Draws → String → Device → Device × Option ConfigError
  unfolding rewrite_config
  change_password written r password d =
      if str_eq password ""
      then (d, some empty_password)
      else rewrite_config written d (apply_password_rewrap w r password d.keys d.config)

  unfoldable pub commit_recovery : Bool → Draws → String → Device → Device × Option ConfigError
  unfolding rewrite_config
  commit_recovery written r secret d =
      rewrite_config written d (add_recovery w r secret d.keys d.config)

  unfoldable pub redeem_recovery :
      Bool → Draws → String → String → Device → Device × Option ConfigError
  unfolding rewrite_config
  redeem_recovery written r id password d =
      if str_eq password ""
      then (d, some empty_password)
      else if str_eq id ""
      then (d, some no_entry_to_redeem)
      else rewrite_config written d (redeem w r id password d.keys d.config)

  unfoldable pub revoke_recovery : Bool → String → Device → Device × Option ConfigError
  unfolding rewrite_config
  revoke_recovery written id d =
      if str_eq id "" then (d, some id_required) else rewrite_config written d (revoke id d.config)

  unfoldable pub seal_vault : Bool → String → Device → Device × Option ConfigError
  unfolding rewrite_config
  seal_vault written drawn d = rewrite_config written d (seal_format drawn d.config)

  unfoldable pub unseal_vault : Bool → Device → Device × Option ConfigError
  unfolding rewrite_config
  unseal_vault written d = rewrite_config written d (unseal_format d.config)

  -- `EnsureConfigMAC`, with whether it wrote a tag.
  unfoldable pub ensure_config_mac : Bool → Device → Device × Option ConfigError × Bool
  unfolding rewrite_config
  ensure_config_mac written d =
      let (d', e) = rewrite_config written d (ok d.config) in
      if str_eq d.config.config_tag "" then (d', e, written) else (d, none, false)
