-- ===== src/Vault/Config/Changes.antt =====
-- internal/vault/rotation.go: what a change of password leaves on the disk.
use mathlib.Core.Path.{subst}
use open_seavault_rclone.Shared.Result.{Result, ok, err, Ensures}
use open_seavault_rclone.Shared.{
  String, ◌≡◌, inl, inr, refl, ap, sym, ◌∙◌, Bool, true, false, Option, none, str_eq, arith,
  Bool-cases,
}
use open_seavault_rclone.Vault.Clock.{increment}
use open_seavault_rclone.Vault.Config.{
  Keys, VaultConfig, ConfigError, Wrapping, wrap_type_password, unlock_with, recovery_entry_for,
}
use open_seavault_rclone.Vault.Config.Rotation.{Draws, apply_password_rewrap}
use open_seavault_rclone.Vault.Config.Anchor.{Device, tagged, rewrite_config, change_password}
use open_seavault_rclone.Vault.Config.Passwords.{
  IsSealing, Rewrapped, rewrap-Rewrapped, new_password_opens, no_other_opens, recovery_as_before,
}

module _ (w : Wrapping) where
  -- A rewrite that succeeds wrote what the mutation made, with the next epoch and its tag.
  pub rewritten :
      (written : Bool) (d d' : Device) (made : Result ConfigError VaultConfig)
      → rewrite_config w written d made ≡ (d', none)
      → (c : VaultConfig) × (made ≡ ok c)
        × (d'.on_disk
            ≡ tagged w d.keys (record c { format_epoch = increment d.config.format_epoch }))
  unfolding rewrite_config
  rewritten written d d' (err e) h =
      absurd (let z = ap (λ (p : Device × Option ConfigError). p.1) h in ground arith)
  rewritten false d d' (ok c) h =
      absurd (let z = ap (λ (p : Device × Option ConfigError). p.1) h in ground arith)
  rewritten true d d' (ok c) h =
      (c, refl, ap (λ (p : Device × Option ConfigError). p.0.on_disk) (sym h))

  pub rewrap_of_ok :
      (r : Draws) (password : String) (keys : Keys) (c c' : VaultConfig)
      → apply_password_rewrap w r password keys c ≡ ok c'
      → Rewrapped w password keys c c'
  unfolding apply_password_rewrap
  rewrap_of_ok r password keys c c' h = elim (Bool-cases (str_eq password "")) [
    | inl y ↦ absurd (let z = rw y at h in ground arith)
    | inr n ↦
        subst (Ensures (Rewrapped w password keys c)) (rw n at h)
          (rewrap-Rewrapped w r password keys c)
  ]

  change_password-Rewrapped :
      (written : Bool) (r : Draws) (password : String) (d d' : Device)
      → change_password w written r password d ≡ (d', none)
      → (c : VaultConfig) × Rewrapped w password d.keys d.config c
        × (d'.on_disk
            ≡ tagged w d.keys (record c { format_epoch = increment d.config.format_epoch }))
  unfolding change_password
  change_password-Rewrapped written r password d d' h = elim (Bool-cases (str_eq password "")) [
    | inl y ↦
        absurd (let z = ap (λ (p : Device × Option ConfigError). p.1) (rw y at h) in ground arith)
    | inr n ↦
        let t =
          rewritten written d d' (apply_password_rewrap w r password d.keys d.config) (rw n at h) in
        (t.0, rewrap_of_ok r password d.keys d.config t.0 t.1, t.2)
  ]

  -- After a change of password that succeeded the new password opens the vault to the same keys, and
  -- every recovery phrase opens what it opened before, under the same entry, or still opens nothing.
  pub change_password-opens :
      (sealing : IsSealing w) (written : Bool) (r : Draws) (password : String) (d d' : Device)
      (t : String)
      → change_password w written r password d ≡ (d', none)
      → (unlock_with w d'.on_disk password wrap_type_password ≡ ok d.keys)
        × (recovery_entry_for w d'.on_disk t ≡ recovery_entry_for w d.config t)
  unfolding unlock_with recovery_entry_for
  change_password-opens sealing written r password d d' t h =
      let (c, made, disk) = change_password-Rewrapped written r password d d' h in
      (
        ap (λ (x : VaultConfig). unlock_with w x password wrap_type_password) disk
            ∙ new_password_opens w sealing password d.keys d.config c made,
        ap (λ (x : VaultConfig). recovery_entry_for w x t) disk
            ∙ recovery_as_before w sealing password d.keys d.config c made t,
      )

  -- After a change of password that succeeded no other password opens the vault, neither by an entry
  -- nor by the wrap that older clients read.
  pub change_password-retires :
      (sealing : IsSealing w) (written : Bool) (r : Draws) (password : String) (d d' : Device)
      (t : String) (keys : Keys)
      → change_password w written r password d ≡ (d', none)
      → unlock_with w d'.on_disk t wrap_type_password ≡ ok keys
      → t ≡ password
  unfolding unlock_with
  change_password-retires sealing written r password d d' t keys h g =
      let (c, made, disk) = change_password-Rewrapped written r password d d' h in
      no_other_opens w sealing password d.keys d.config c made t keys
        (ap (λ (x : VaultConfig). unlock_with w x t wrap_type_password) (sym disk) ∙ g)
