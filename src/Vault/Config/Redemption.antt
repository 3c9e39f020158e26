-- ===== src/Vault/Config/Redemption.antt =====
-- internal/vault/rotation.go: what the redemption of a recovery phrase leaves on the disk.
use mathlib.Core.Option.{some-injective}
use mathlib.Core.Path.{subst}
use text.Mathlib.TextEquality.{eq_iff}
use open_seavault_rclone.Shared.Result.{Result, ok, err, ◌>>=◌}
use open_seavault_rclone.Shared.{
  ℕ, String, ◌≡◌, ◌≢◌, ◌⊎◌, inl, inr, refl, ap, sym, ◌∙◌, Bool, ◌&&◌, Option, none, some, List, [],
  ◌∷◌, str_eq, arith, Bool-cases,
}
use open_seavault_rclone.Vault.Clock.{increment}
use open_seavault_rclone.Vault.Config.{
  Keys, WrapEntry, VaultConfig, ConfigError, Wrapping, wrap_type_password, wrap_type_recovery,
  unwrap_entry, first_opened, unlock_with, recovery_entry_for, wrong_secret,
}
use open_seavault_rclone.Vault.Config.Rotation.{
  Draws, remove_wrap_entry, apply_password_rewrap, revoke, redeem,
}
use open_seavault_rclone.Vault.Config.Anchor.{Device, tagged, redeem_recovery}
use open_seavault_rclone.Vault.Config.Passwords.{
  IsSealing, Rewrapped, new_password_opens, no_other_opens, recovery_as_before,
}
use open_seavault_rclone.Vault.Config.Changes.{rewritten, rewrap_of_ok}

module _ (w : Wrapping) where
  first_opened-removed :
      (t : String) (version : ℕ) (id other : String) (k : Keys) (es : List WrapEntry)
      → first_opened w t wrap_type_recovery version (remove_wrap_entry id wrap_type_recovery es).0
        ≡ some (k, other)
      → other ≢ id
  unfolding first_opened remove_wrap_entry
  first_opened-removed t version id other k [] h = absurd (ground arith)
  first_opened-removed t version id other k (e ∷ es) h =
      elim (Bool-cases (str_eq e.id id && str_eq e.wrap_type wrap_type_recovery)) [
        | inl gone ↦ first_opened-removed t version id other k es (rw gone at h)
        | inr stays ↦ elim (Bool-cases (str_eq e.wrap_type wrap_type_recovery)) [
          | inr n ↦ first_opened-removed t version id other k es (rw n at (rw stays at h))
          | inl y ↦
              tried (unwrap_entry w t version e)
                (λ same. let z = (eq_iff e.id id).1 same in let b = stays in ground arith)
                (first_opened-removed t version id other k es) (rw y at (rw stays at h))
        ]
      ]
    where
      tried :
          (o : Option Keys)
          → e.id ≢ id
          → (first_opened w t wrap_type_recovery version
                  (remove_wrap_entry id wrap_type_recovery es).0
                ≡ some (k, other)
              → other ≢ id)
          → (elim o as (λ (_ : Option Keys). Option (Keys × String)) [
            | some l ↦ some (l, e.id)
            | none ↦
                first_opened w t wrap_type_recovery version
                  (remove_wrap_entry id wrap_type_recovery es).0
          ])
            ≡ some (k, other)
          → other ≢ id
      tried none a ih g = ih g
      tried (some l) a ih g =
          λ same. a (ap (λ (p : Keys × String). p.1) (some-injective _ _ g) ∙ same)

  removed_config :
      (id : String) (c c1 : VaultConfig)
      → revoke id c ≡ ok c1
      → c1 ≡ record c { wrap_entries = (remove_wrap_entry id wrap_type_recovery c.wrap_entries).0 }
  unfolding revoke
  removed_config id c c1 h =
      elim (Bool-cases (remove_wrap_entry id wrap_type_recovery c.wrap_entries).1) [
        | inl y ↦ sym (ok-injective (rw y at h))
        | inr n ↦ absurd (let z = rw n at h in ground arith)
      ]
    where
      ok-injective :
          {a b : VaultConfig} → ◌≡◌ {A = Result ConfigError VaultConfig} (ok a) (ok b) → a ≡ b
      ok-injective {a} {b} e = ap (value a) e
        where
          value : VaultConfig → Result ConfigError VaultConfig → VaultConfig
          value d (ok x) = x
          value d (err x) = d

  redeem-Rewrapped :
      (r : Draws) (id password : String) (keys : Keys) (c c' : VaultConfig)
      → redeem w r id password keys c ≡ ok c'
      → Rewrapped w password keys
          (record c { wrap_entries = (remove_wrap_entry id wrap_type_recovery c.wrap_entries).0 })
          c'
  unfolding redeem
  redeem-Rewrapped r id password keys c c' h = revoked (revoke id c) refl h
    where
      revoked :
          (m : Result ConfigError VaultConfig)
          → revoke id c ≡ m
          → (m >>= apply_password_rewrap w r password keys) ≡ ok c'
          → Rewrapped w password keys
              (record c {
                wrap_entries = (remove_wrap_entry id wrap_type_recovery c.wrap_entries).0;
              })
              c'
      revoked (err e) g k = absurd (ground arith)
      revoked (ok c1) g k =
          subst (λ (x : VaultConfig). Rewrapped w password keys x c') (removed_config id c c1 g)
            (rewrap_of_ok w r password keys c1 c' k)

  redeem_recovery-Rewrapped :
      (written : Bool) (r : Draws) (id password : String) (d d' : Device)
      → redeem_recovery w written r id password d ≡ (d', none)
      → (c : VaultConfig) × Rewrapped w password d.keys
          (record d.config {
            wrap_entries = (remove_wrap_entry id wrap_type_recovery d.config.wrap_entries).0;
          })
          c
        × (d'.on_disk
            ≡ tagged w d.keys (record c { format_epoch = increment d.config.format_epoch }))
  unfolding redeem_recovery
  redeem_recovery-Rewrapped written r id password d d' h = elim (Bool-cases (str_eq password "")) [
    | inl y ↦
        absurd (let z = ap (λ (p : Device × Option ConfigError). p.1) (rw y at h) in ground arith)
    | inr n ↦ elim (Bool-cases (str_eq id "")) [
      | inl y ↦
          absurd
            (let z = ap (λ (p : Device × Option ConfigError). p.1) (rw (n, y) at h) in ground arith)
      | inr m ↦
          let t =
            rewritten w written d d' (redeem w r id password d.keys d.config) (rw (n, m) at h) in
          (t.0, redeem-Rewrapped r id password d.keys d.config t.0 t.1, t.2)
    ]
  ]

  other_entry :
      (id other phrase : String) (l : Keys) (c : VaultConfig)
      → recovery_entry_for w
          (record c { wrap_entries = (remove_wrap_entry id wrap_type_recovery c.wrap_entries).0 })
          phrase
        ≡ ok (l, other)
      → other ≢ id
  unfolding recovery_entry_for
  other_entry id other phrase l c h =
      first_opened-removed phrase c.version id other l c.wrap_entries (
        found
          (first_opened w phrase wrap_type_recovery c.version
            (remove_wrap_entry id wrap_type_recovery c.wrap_entries).0)
          h)
    where
      found :
          (o : Option (Keys × String))
          → (elim o as (λ (_ : Option (Keys × String)). Result ConfigError (Keys × String)) [
            | some p ↦ ok p
            | none ↦ err wrong_secret
          ])
            ≡ ok (l, other)
          → o ≡ some (l, other)
      found none g = absurd (ground arith)
      found (some p) g = ap to_option g
        where
          to_option : Result ConfigError (Keys × String) → Option (Keys × String)
          to_option (ok p) = some p
          to_option (err e) = none

  opens_only_new :
      (sealing : IsSealing w) (password : String) (keys : Keys) (less c : VaultConfig)
      → Rewrapped w password keys less c
      → (t : String) → (t ≡ password) ⊎ ((k : Keys) → unlock_with w c t wrap_type_password ≢ ok k)
  opens_only_new sealing password keys less c made t = elim (Bool-cases (str_eq t password)) [
    | inl y ↦ inl ((eq_iff t password).0 y)
    | inr n ↦ inr (λ k g.
        let z = (eq_iff t password).1 (no_other_opens w sealing password keys less c made t k g) in
        absurd (ground arith))
  ]

  -- After a redemption that succeeded the new password opens the vault to the same keys, each other
  -- text as a password opens it to no keys, and no recovery phrase opens the redeemed entry,
  -- whether or not other recovery entries are left. A phrase is looked up as it would be in the
  -- configuration before, less the redeemed entry.
  pub redeem_recovery-retires :
      (sealing : IsSealing w) (written : Bool) (r : Draws) (id password : String) (d d' : Device)
      (t phrase : String)
      → redeem_recovery w written r id password d ≡ (d', none)
      → (unlock_with w d'.on_disk password wrap_type_password ≡ ok d.keys)
        × ((t ≡ password) ⊎ ((k : Keys) → unlock_with w d'.on_disk t wrap_type_password ≢ ok k))
        × ((l : Keys) → recovery_entry_for w d'.on_disk phrase ≢ ok (l, id))
        × (recovery_entry_for w d'.on_disk phrase
            ≡ recovery_entry_for w
                (record d.config {
                  wrap_entries = (remove_wrap_entry id wrap_type_recovery d.config.wrap_entries).0;
                })
                phrase)
  unfolding redeem_recovery unlock_with recovery_entry_for
  redeem_recovery-retires sealing written r id password d d' t phrase h =
      let (c, made, disk) = redeem_recovery-Rewrapped written r id password d d' h in
      let less = record d.config {
        wrap_entries = (remove_wrap_entry id wrap_type_recovery d.config.wrap_entries).0;
      } in
      let looked_up =
        ap (λ (x : VaultConfig). recovery_entry_for w x phrase) disk
        ∙ recovery_as_before w sealing password d.keys less c made phrase in
      (
        ap (λ (x : VaultConfig). unlock_with w x password wrap_type_password) disk
            ∙ new_password_opens w sealing password d.keys less c made,
        subst
            (λ (x : VaultConfig).
              (t ≡ password) ⊎ ((k : Keys) → unlock_with w x t wrap_type_password ≢ ok k))
            (sym disk) (opens_only_new sealing password d.keys less _ made t),
        (λ l f. other_entry id id phrase l d.config (sym looked_up ∙ f) refl),
        looked_up,
      )
