-- ===== src/Vault/Config/Freshness.antt =====
-- internal/vault: what a rewrite of vault.json leaves in the anchor, and the next opening against it.
use mathlib.Core.Path.{subst}
use text.Mathlib.TextPositions.{eq_refl}
use open_seavault_rclone.Shared.Int.{ℤ, pos, negsuc, ◌≤ℤ◌, ◌<ℤ◌, ltb_ℤ, eqb_ℤ}
use open_seavault_rclone.Shared.Result.{Result, ok, err}
use open_seavault_rclone.Shared.{
  String, ◌≡◌, ◌≢◌, ◌⊎◌, inl, inr, refl, sym, Bool, true, false, not, ◌&&◌, ◌||◌, none, str_eq,
  if◌then◌else◌, arith, Bool-cases,
}
use open_seavault_rclone.Vault.Clock.{max_int64, increment}
use open_seavault_rclone.Vault.Config.{
  Keys, VaultConfig, ConfigError, Wrapping, verify_config_tag, compute_config_tag, config_tampered,
  config_rolled_back, config_diverged,
}
use open_seavault_rclone.Vault.Config.Anchor.{
  AnchorFile, unavailable, unreadable, absent, stored, Device, advance, record_anchor, judged,
  anchored, check_freshness, check_config_integrity, rewrite_config,
}

-- The anchor file can be kept, and does not name a newer configuration than `epoch`.
abbrev pub IsBehind : ℤ → AnchorFile → Type 0
IsBehind epoch unavailable = ⊥
IsBehind epoch unreadable = Unit
IsBehind epoch absent = Unit
IsBehind epoch (stored a) = a.format_epoch ≤ℤ epoch

-- An epoch that a rewrite can count on from: not negative, and not the last int64.
abbrev pub IsCountable : ℤ → Type 0
IsCountable epoch = (pos 0 ≤ℤ epoch) × (epoch <ℤ pos max_int64)

increment_above :
    (epoch : ℤ) → IsCountable epoch → (epoch <ℤ increment epoch) × (pos 0 <ℤ increment epoch)
unfolding increment
increment_above (pos n) c = ground arith
increment_above (negsuc n) c = absurd (omega arith)

-- The tag that the device records is never empty.
abbrev pub IsTagging : Wrapping → Keys → Type 0
IsTagging w keys = (c : VaultConfig) → str_eq (compute_config_tag w keys c) "" ≡ false

-- The anchor at a configuration with a tag.
abbrev pub anchor_at : ℤ → String → AnchorFile
anchor_at epoch tag = stored (record { format_epoch = epoch; has_tag = true; config_tag = tag })

-- A newer tagged configuration is what the anchor records.
record_anchor-newer :
    (file : AnchorFile) (old epoch : ℤ) (tag : String)
    → IsBehind old file
    → old <ℤ epoch
    → pos 0 <ℤ epoch
    → str_eq tag "" ≡ false
    → record_anchor file epoch true tag ≡ anchor_at epoch tag
unfolding record_anchor advance
record_anchor-newer unavailable old epoch tag b l z t = absurd b
record_anchor-newer unreadable old epoch tag b l z t =
    let newer : ltb_ℤ (pos 0) epoch ≡ true = ground arith in rw (newer, t) refl
record_anchor-newer absent old epoch tag b l z t =
    let newer : ltb_ℤ (pos 0) epoch ≡ true = ground arith in rw (newer, t) refl
record_anchor-newer (stored a) old epoch tag b l z t =
    let newer : ltb_ℤ a.format_epoch epoch ≡ true = ground arith in
    let has : (a.has_tag || true) ≡ true = ground arith in rw (newer, t, has) refl

module _ (w : Wrapping) where
  -- What the next opening makes of a configuration, by the newest epoch and its tag.
  abbrev pub verdict : Keys → VaultConfig → ℤ → String → AnchorFile → Result ConfigError AnchorFile
  verdict keys c epoch tag file =
      if str_eq c.config_tag "" || not (verify_config_tag w keys c)
      then err config_tampered
      else if ltb_ℤ c.format_epoch epoch
      then err config_rolled_back
      else if eqb_ℤ c.format_epoch epoch && not (str_eq c.config_tag tag)
      then err config_diverged
      else ok (anchored c file)

  anchored_verdict :
      (keys : Keys) (c : VaultConfig) (epoch : ℤ) (tag : String)
      → str_eq tag "" ≡ false
      → check_config_integrity w false keys c (anchor_at epoch tag)
        ≡ verdict keys c epoch tag (anchor_at epoch tag)
  unfolding check_config_integrity check_freshness judged
  anchored_verdict keys c epoch tag named = elim (Bool-cases (str_eq c.config_tag "")) [
    | inl y ↦ rw y refl
    | inr n ↦ elim (Bool-cases (verify_config_tag w keys c)) [
      | inr bad ↦ rw (n, bad) refl
      | inl valid ↦ rw (n, valid) (ground arith)
    ]
  ]

  -- The anchor after a rewrite that succeeds.
  rewrite_config-anchor :
      (d : Device) (next : VaultConfig)
      → IsBehind d.config.format_epoch d.anchor
      → IsCountable d.config.format_epoch
      → IsTagging w d.keys
      → let d' = (rewrite_config w true d (ok next)).0 in
        d'.anchor ≡ anchor_at (increment d.config.format_epoch) d'.config.config_tag
  unfolding rewrite_config
  rewrite_config-anchor d next behind countable tagging =
      let up = increment_above d.config.format_epoch countable in
      record_anchor-newer d.anchor d.config.format_epoch (increment d.config.format_epoch)
        (rewrite_config w true d (ok next)).0.config.config_tag behind up.0 up.1
        (tagging (record next { format_epoch = increment d.config.format_epoch }))

  -- After a rewrite that succeeds, on a device whose anchor can be kept and is not ahead of its
  -- configuration, whose epoch is neither negative nor the last int64, and where no computed tag is
  -- empty, the next opening judges each configuration thus: as tampered with if its tag is
  -- empty or does not verify, else as rolled back if its epoch is below the new one, as diverged if
  -- it has the new epoch and another tag, and otherwise it is accepted.
  pub rewrite_config-newest :
      (d : Device) (next c : VaultConfig)
      → IsBehind d.config.format_epoch d.anchor
      → IsCountable d.config.format_epoch
      → IsTagging w d.keys
      → let d' = (rewrite_config w true d (ok next)).0 in
        check_config_integrity w false d.keys c d'.anchor ≡ (
          if str_eq c.config_tag "" || not (verify_config_tag w d.keys c)
          then err config_tampered
          else if ltb_ℤ c.format_epoch d'.config.format_epoch
          then err config_rolled_back
          else if eqb_ℤ c.format_epoch d'.config.format_epoch
              && not (str_eq c.config_tag d'.config.config_tag)
          then err config_diverged
          else ok (anchored c d'.anchor))
  unfolding rewrite_config
  rewrite_config-newest d next c behind countable tagging =
      let tag = (rewrite_config w true d (ok next)).0.config.config_tag in
      let epoch = increment d.config.format_epoch in
      subst
        (λ (file : AnchorFile).
          check_config_integrity w false d.keys c file ≡ verdict d.keys c epoch tag file)
        (sym (rewrite_config-anchor d next behind countable tagging))
        (anchored_verdict d.keys c epoch tag (tagging (record next { format_epoch = epoch })))

  -- On a device whose anchor can be kept and is not ahead of its configuration, whose epoch is
  -- neither negative nor the last int64, and where no computed tag is empty: a rewrite that succeeds
  -- writes a configuration with a greater epoch whose tag verifies, and leaves the anchor at exactly
  -- that epoch and tag; a rewrite that fails leaves the device, its files included, as it was.
  pub rewrite_config_lem :
      (written : Bool) (d : Device) (made : Result ConfigError VaultConfig)
      → IsBehind d.config.format_epoch d.anchor
      → IsCountable d.config.format_epoch
      → IsTagging w d.keys
      → let (d', e) = rewrite_config w written d made in
        ((e ≢ none) × (d' ≡ d))
        ⊎ ((e ≡ none)
            × (d'.on_disk ≡ d'.config)
            × (d.config.format_epoch <ℤ d'.config.format_epoch)
            × (verify_config_tag w d.keys d'.config ≡ true)
            × (d'.anchor ≡ anchor_at d'.config.format_epoch d'.config.config_tag))
  unfolding rewrite_config compute_config_tag verify_config_tag
  rewrite_config_lem written d (err x) behind countable tagging =
      inl (λ e. let z = e in absurd (ground arith), refl)
  rewrite_config_lem false d (ok next) behind countable tagging =
      inl (λ e. let z = e in absurd (ground arith), refl)
  rewrite_config_lem true d (ok next) behind countable tagging = inr (
    refl,
    refl,
    (increment_above d.config.format_epoch countable).0,
    rw (tagging (record next { format_epoch = increment d.config.format_epoch })) (eq_refl _),
    rewrite_config-anchor d next behind countable tagging,
  )
