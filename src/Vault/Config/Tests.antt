-- ===== src/Vault/Config/Tests.antt =====
-- internal/vault: the theorems on vault.json at one vault, with a wrap that shows its secret.
use mathlib.Core.Path.{ap₂}
use mathlib.Core.Option.{some-injective}
use text.Mathlib.TextEquality.{eq_iff}
use text.Mathlib.TextPositions.{eq_refl}
use open_seavault_rclone.Shared.Int.{pos, ◌<ℤ◌}
use open_seavault_rclone.Shared.Result.{ok, err}
use open_seavault_rclone.Shared.{
  String, ◌≡◌, ◌≢◌, ◌⊎◌, inl, inr, refl, ap, sym, ◌∙◌, Bool, true, false, ◌&&◌, not, Option, none,
  some, [], ◌∷◌, str_eq, if◌then◌else◌, arith, Bool-cases,
}
use open_seavault_rclone.Vault.Kdf.{
  KdfConfig, argon2id, bare, check_kdf_range, normalize_kdf_config, is_strong, raised,
  raise_to_floor,
}
use open_seavault_rclone.Vault.Config.{
  Keys, WrapEntry, VaultConfig, Wrapping, wrap_type_password, wrap_type_recovery, unlock_with,
  recovery_entry_for, first_opened, compute_config_tag, verify_config_tag, config_tampered,
  config_rolled_back,
}
use open_seavault_rclone.Vault.Config.Rotation.{
  Draws, fresh_wrap_kdf, without_passwords, password_entry_id, remove_wrap_entry, rewrap,
  apply_password_rewrap, revoke, redeem,
}
use open_seavault_rclone.Vault.Config.Anchor.{
  stored, Device, advance, record_anchor, check_config_integrity, rewrite_config, change_password,
  redeem_recovery,
}
use open_seavault_rclone.Vault.Config.Freshness.{
  IsTagging, anchor_at, rewrite_config-newest, rewrite_config_lem,
}
use open_seavault_rclone.Vault.Config.Passwords.{IsSealing}
use open_seavault_rclone.Vault.Config.Redemption.{redeem_recovery-retires}
use open_seavault_rclone.Vault.Config.Changes.{change_password-opens, change_password-retires}

abbrev bundle : Keys
bundle = record { master_key = "m"; index_key = "i" }

abbrev is_bundle : Keys → Bool
is_bundle k = str_eq k.master_key "m" && str_eq k.index_key "i"

abbrev open_wrap : Wrapping
open_wrap = record {
  probe = λ n r p. true;
  seal = λ s kdf k draw. if is_bundle k then some (s, "ct") else none;
  unseal = λ t kdf nonce ct aad version. if str_eq t nonce then some bundle else none;
  mac = λ key c. "tag";
}

is_bundle_lem : (k : Keys) → is_bundle k ≡ true → k ≡ bundle
is_bundle_lem k h =
    ap₂ (λ (a b : String). record { master_key = a; index_key = b })
      ((eq_iff k.master_key "m").0 (ground arith)) ((eq_iff k.index_key "i").0 (ground arith))

-- What a wrap was made of.
sealed_parts :
    (s nonce ct : String) (k : Keys)
    → ◌≡◌ {A = Option (String × String)}
        (if is_bundle k then some (s, "ct") else none)
        (some (nonce, ct))
    → (k ≡ bundle) × (s ≡ nonce) × ◌≡◌ {A = String} "ct" ct
sealed_parts s nonce ct k h = elim (Bool-cases (is_bundle k)) [
  | inr n ↦ absurd (let z = rw n at h in ground arith)
  | inl y ↦
      let pair = some-injective _ _ (rw y at h) in
      (
        is_bundle_lem k y,
        ap (λ (p : String × String). p.0) pair,
        ap (λ (p : String × String). p.1) pair,
      )
]

open_wrap-IsSealing : IsSealing open_wrap
open_wrap-IsSealing = record {
  opens = λ s kdf k draw nonce ct version h.
      let p = sealed_parts s nonce ct k h in rw (p.0, p.1, eq_refl nonce) refl;
  only = λ s t kdf k l draw nonce ct version h g.
      let p = sealed_parts s nonce ct k h in same s t nonce l p.1 g;
  filled = λ s kdf k draw nonce ct h. let p = sealed_parts s nonce ct k h in rw (sym p.2) refl;
}
  where
    same :
        (s t nonce : String) (l : Keys)
        → s ≡ nonce
        → (if str_eq t nonce then some bundle else none) ≡ some l
        → t ≡ s
    same s t nonce l e g = elim (Bool-cases (str_eq t nonce)) [
      | inl y ↦ (eq_iff t nonce).0 y ∙ sym e
      | inr n ↦ absurd (let z = rw n at g in ground arith)
    ]

abbrev cost : KdfConfig
cost = record (bare argon2id) {
  salt = "s";
  time = pos 3;
  memory_kib = pos 65536;
  parallelism = pos 4;
}

abbrev password_entry : WrapEntry
password_entry = record {
  id = "e1";
  wrap_type = wrap_type_password;
  kdf = cost;
  nonce = "old";
  ct = "ct";
  aad = "";
}

abbrev recovery_entry : String → WrapEntry
recovery_entry name = record {
  id = name;
  wrap_type = wrap_type_recovery;
  kdf = cost;
  nonce = name;
  ct = "ct";
  aad = "";
}

abbrev config : VaultConfig
config = record {
  version = 2;
  min_reader = 2;
  format_epoch = pos 7;
  kdf = cost;
  dir_id_epoch = 0;
  wrapped_keys = "ct";
  wrap_nonce = "old";
  config_tag = "tag";
  other = "";
  wrap_entries = password_entry ∷ recovery_entry "r1" ∷ recovery_entry "r2" ∷ [];
}

abbrev device : Device
device = record {
  config = config;
  on_disk = config;
  keys = bundle;
  anchor = stored (record { format_epoch = pos 7; has_tag = true; config_tag = "tag" });
}

abbrev draws : Draws
draws = record { id = "e2"; salt = "s1"; nonce = "n1"; legacy_salt = "s2"; legacy_nonce = "n2" }

abbrev changed : Device
changed = (change_password open_wrap true draws "new" device).0

change_password-opens_example :
    (unlock_with open_wrap changed.on_disk "new" wrap_type_password ≡ ok bundle)
    × (recovery_entry_for open_wrap changed.on_disk "r1" ≡ recovery_entry_for open_wrap config "r1")
unfolding change_password apply_password_rewrap rewrap fresh_wrap_kdf raise_to_floor
    normalize_kdf_config check_kdf_range is_strong raised without_passwords password_entry_id
    rewrite_config record_anchor advance compute_config_tag unlock_with first_opened
    recovery_entry_for
change_password-opens_example =
    change_password-opens open_wrap open_wrap-IsSealing true draws "new" device changed "r1" refl

change_password-retires_example : ◌≡◌ {A = String} "new" "new"
unfolding change_password apply_password_rewrap rewrap fresh_wrap_kdf raise_to_floor
    normalize_kdf_config check_kdf_range is_strong raised without_passwords password_entry_id
    rewrite_config record_anchor advance compute_config_tag unlock_with first_opened
change_password-retires_example =
    change_password-retires open_wrap open_wrap-IsSealing true draws "new" device changed "new"
      bundle refl refl

abbrev redeemed : Device
redeemed = (redeem_recovery open_wrap true draws "r1" "new" device).0

redeem_recovery-retires_example :
    (unlock_with open_wrap redeemed.on_disk "new" wrap_type_password ≡ ok bundle)
    × ((◌≡◌ {A = String} "old" "new")
        ⊎ ((k : Keys) → unlock_with open_wrap redeemed.on_disk "old" wrap_type_password ≢ ok k))
    × ((l : Keys) → recovery_entry_for open_wrap redeemed.on_disk "r1" ≢ ok (l, "r1"))
    × (recovery_entry_for open_wrap redeemed.on_disk "r1"
        ≡ recovery_entry_for open_wrap
            (record config {
              wrap_entries = (remove_wrap_entry "r1" wrap_type_recovery config.wrap_entries).0;
            })
            "r1")
unfolding redeem_recovery redeem revoke remove_wrap_entry apply_password_rewrap rewrap
    fresh_wrap_kdf raise_to_floor normalize_kdf_config check_kdf_range is_strong raised
    without_passwords password_entry_id rewrite_config record_anchor advance compute_config_tag
    unlock_with first_opened recovery_entry_for
redeem_recovery-retires_example =
    redeem_recovery-retires open_wrap open_wrap-IsSealing true draws "r1" "new" device redeemed
      "old" "r1" refl

abbrev rewritten : Device
rewritten = (rewrite_config open_wrap true device (ok config)).0

open_wrap-IsTagging : IsTagging open_wrap bundle
unfolding compute_config_tag
open_wrap-IsTagging c = refl

-- The configuration before the rewrite is refused.
rewrite_config-newest_example :
    check_config_integrity open_wrap false bundle config rewritten.anchor ≡ (
      if not (verify_config_tag open_wrap bundle config)
      then err config_tampered
      else err config_rolled_back)
unfolding rewrite_config verify_config_tag compute_config_tag
rewrite_config-newest_example =
    rewrite_config-newest open_wrap device config config (omega arith) (omega arith)
      open_wrap-IsTagging

rewrite_config_lem_example :
    ((((rewrite_config open_wrap true device (ok config)).1 ≢ none) × (rewritten ≡ device))
      ⊎ (((rewrite_config open_wrap true device (ok config)).1 ≡ none)
          × (rewritten.on_disk ≡ rewritten.config)
          × (pos 7 <ℤ rewritten.config.format_epoch)
          × (verify_config_tag open_wrap bundle rewritten.config ≡ true)
          × (rewritten.anchor
              ≡ anchor_at rewritten.config.format_epoch rewritten.config.config_tag)))
rewrite_config_lem_example =
    rewrite_config_lem open_wrap true device (ok config) (omega arith) (omega arith)
      open_wrap-IsTagging
