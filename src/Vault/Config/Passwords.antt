-- ===== src/Vault/Config/Passwords.antt =====
-- internal/vault/rotation.go and vault.go: which secrets open a vault after a change of password or
-- the redemption of a recovery phrase.
use text.Mathlib.TextEquality.{eq_iff}
use open_seavault_rclone.Shared.Result.{Result, ok, err, Ensures, Ensures->>=}
use open_seavault_rclone.Shared.{
  ℕ, String, ◌≡◌, inl, inr, refl, ap, sym, ◌∙◌, false, Option, none, some, List, [], ◌∷◌, ◌++◌,
  str_eq, if◌then◌else◌, arith, Bool-cases,
}
use open_seavault_rclone.Vault.Kdf.{KdfConfig}
use open_seavault_rclone.Vault.Config.{
  Keys, WrapEntry, VaultConfig, ConfigError, Wrapping, wrap_type_password, wrap_type_recovery,
  unwrap_entry, unwrap_legacy, first_opened, or_legacy, unlock_entries, unlock_with,
  recovery_entry_for, wrong_secret,
}
use open_seavault_rclone.Vault.Config.Rotation.{
  Draws, wrapped, wrap_keys, fresh_wrap_kdf, chosen_id, without_passwords, rewrap,
}

-- A wrap opens under the secret that made it and under no other, and is not empty.
pub record IsSealing (w : Wrapping) : Type 0 where
  pub opens :
      (s : String) (kdf : KdfConfig) (k : Keys) (draw nonce ct : String) (version : ℕ)
      → w.seal s kdf k draw ≡ some (nonce, ct)
      → w.unseal s kdf nonce ct "" version ≡ some k
  pub only :
      (s t : String) (kdf : KdfConfig) (k l : Keys) (draw nonce ct : String) (version : ℕ)
      → w.seal s kdf k draw ≡ some (nonce, ct)
      → w.unseal t kdf nonce ct "" version ≡ some l
      → t ≡ s
  pub filled :
      (s : String) (kdf : KdfConfig) (k : Keys) (draw nonce ct : String)
      → w.seal s kdf k draw ≡ some (nonce, ct)
      → str_eq ct "" ≡ false

module _ (w : Wrapping) where
  -- What a rewrap makes of a configuration.
  pub record Rewrapped (secret : String) (keys : Keys) (c c' : VaultConfig) : Type 0 where
    pub entry : WrapEntry
    pub entry_draw : String
    pub legacy_draw : String
    pub entries : c'.wrap_entries ≡ without_passwords c.wrap_entries ++ (entry ∷ [])
    pub is_password : entry.wrap_type ≡ wrap_type_password
    pub bare : entry.aad ≡ ""
    pub entry_sealed : w.seal secret entry.kdf keys entry_draw ≡ some (entry.nonce, entry.ct)
    pub legacy_sealed :
        w.seal secret c'.kdf keys legacy_draw ≡ some (c'.wrap_nonce, c'.wrapped_keys)
    pub version : c'.version ≡ c.version

  wrapped-Ensures :
      (o : Option (String × String))
      → Ensures (λ (pair : String × String). o ≡ some pair) (wrapped o)
  wrapped-Ensures none = tt
  wrapped-Ensures (some pair) = refl

  any-Ensures : (m : Result ConfigError KdfConfig) → Ensures (λ (_ : KdfConfig). Unit {0}) m
  any-Ensures (ok k) = tt
  any-Ensures (err e) = tt

  pub rewrap-Rewrapped :
      (d : Draws) (secret : String) (keys : Keys) (c : VaultConfig)
      → Ensures (Rewrapped secret keys c) (rewrap w d secret keys c)
  unfolding rewrap
  rewrap-Rewrapped d secret keys c =
      Ensures->>= (λ (_ : KdfConfig). Unit {0}) (Rewrapped secret keys c)
        (fresh_wrap_kdf w c.kdf d.salt) _ (any-Ensures (fresh_wrap_kdf w c.kdf d.salt))
        (λ kdf _.
          Ensures->>= (λ (pair : String × String). w.seal secret kdf keys d.nonce ≡ some pair)
            (Rewrapped secret keys c) (wrap_keys w secret kdf keys d.nonce) _
            (wrapped-Ensures (w.seal secret kdf keys d.nonce))
            (λ entry made.
              Ensures->>= (λ (_ : KdfConfig). Unit {0}) (Rewrapped secret keys c)
                (fresh_wrap_kdf w c.kdf d.legacy_salt) _
                (any-Ensures (fresh_wrap_kdf w c.kdf d.legacy_salt))
                (λ legacy_kdf _.
                  Ensures->>=
                    (λ (pair : String × String).
                      w.seal secret legacy_kdf keys d.legacy_nonce ≡ some pair)
                    (Rewrapped secret keys c) (wrap_keys w secret legacy_kdf keys d.legacy_nonce) _
                    (wrapped-Ensures (w.seal secret legacy_kdf keys d.legacy_nonce))
                    (λ legacy sealed. record {
                      entry = record {
                        id = chosen_id w c.wrap_entries d.id;
                        wrap_type = wrap_type_password;
                        kdf = kdf;
                        nonce = entry.0;
                        ct = entry.1;
                        aad = "";
                      };
                      entry_draw = d.nonce;
                      legacy_draw = d.legacy_nonce;
                      entries = refl;
                      is_password = refl;
                      bare = refl;
                      entry_sealed = made;
                      legacy_sealed = sealed;
                      version = refl;
                    }))))

  -- A rewrap leaves what the other kinds of secrets open as it was.
  first_opened-append :
      (t want : String) (version : ℕ) (e : WrapEntry) (es : List WrapEntry)
      → str_eq wrap_type_password want ≡ false
      → e.wrap_type ≡ wrap_type_password
      → first_opened w t want version (without_passwords es ++ (e ∷ []))
        ≡ first_opened w t want version es
  unfolding first_opened without_passwords
  first_opened-append t want version e [] h g = rw (g, h) refl
  first_opened-append t want version e (f ∷ es) h g =
      elim (Bool-cases (str_eq f.wrap_type wrap_type_password)) [
        | inl y ↦
            rw (y, (eq_iff f.wrap_type wrap_type_password).0 y, h)
              (first_opened-append t want version e es h g)
        | inr n ↦
            let ih = first_opened-append t want version e es h g in
            rw n (λ i.
              if str_eq f.wrap_type want
              then elim (unwrap_entry w t version f) [ some k ↦ some (k, f.id) | none ↦ ih i ]
              else ih i)
      ]

  -- Of the passwords, only the new entry is left to try.
  first_opened-password :
      (t : String) (version : ℕ) (e : WrapEntry) (es : List WrapEntry)
      → e.wrap_type ≡ wrap_type_password
      → first_opened w t wrap_type_password version (without_passwords es ++ (e ∷ []))
        ≡ (elim (unwrap_entry w t version e) [ some k ↦ some (k, e.id) | none ↦ none ])
  unfolding first_opened without_passwords
  first_opened-password t version e [] g = rw g refl
  first_opened-password t version e (f ∷ es) g =
      elim (Bool-cases (str_eq f.wrap_type wrap_type_password)) [
        | inl y ↦ rw y (first_opened-password t version e es g)
        | inr n ↦ rw (n, n) (first_opened-password t version e es g)
      ]

  unlock_entries-append :
      (t want : String) (c : VaultConfig) (e : WrapEntry) (es : List WrapEntry)
      → unlock_entries w t want c (es ++ (e ∷ []))
        ≡ or_legacy w t want c (first_opened w t want c.version (es ++ (e ∷ [])))
  unlock_entries-append t want c e [] = refl
  unlock_entries-append t want c e (f ∷ es) = refl

  module _ (sealing : IsSealing w) (secret : String) (keys : Keys) (c c' : VaultConfig)
      (r : Rewrapped secret keys c c') where
    abbrev by_entry : String → Option Keys
    by_entry t = w.unseal t r.entry.kdf r.entry.nonce r.entry.ct "" c'.version

    unlock_with-Rewrapped :
        (t : String)
        → unlock_with w c' t wrap_type_password
          ≡ or_legacy w t wrap_type_password c'
              (elim (by_entry t) [ some k ↦ some (k, r.entry.id) | none ↦ none ])
    unfolding unlock_with
    unlock_with-Rewrapped t =
        ap (unlock_entries w t wrap_type_password c') r.entries
        ∙ unlock_entries-append t wrap_type_password c' r.entry (without_passwords c.wrap_entries)
        ∙ ap (or_legacy w t wrap_type_password c')
            (first_opened-password t c'.version r.entry c.wrap_entries r.is_password)
        ∙ ap
            (λ (a : String).
              or_legacy w t wrap_type_password c'
                (elim (w.unseal t r.entry.kdf r.entry.nonce r.entry.ct a c'.version) [
                  | some k ↦ some (k, r.entry.id)
                  | none ↦ none
                ]))
            r.bare

    pub new_password_opens : unlock_with w c' secret wrap_type_password ≡ ok keys
    new_password_opens =
        unlock_with-Rewrapped secret
        ∙ rw
            (sealing.opens secret r.entry.kdf keys r.entry_draw r.entry.nonce r.entry.ct c'.version
              r.entry_sealed)
            refl

    pub no_other_opens :
        (t : String) (l : Keys) → unlock_with w c' t wrap_type_password ≡ ok l → t ≡ secret
    no_other_opens t l h =
        tried (by_entry t) refl (unwrap_legacy w t c') refl (sym (unlock_with-Rewrapped t) ∙ h)
      where
        tried :
            (a : Option Keys)
            → by_entry t ≡ a
            → (b : Option Keys) → unwrap_legacy w t c' ≡ b
            → or_legacy w t wrap_type_password c'
                (elim a [ some k ↦ some (k, r.entry.id) | none ↦ none ])
              ≡ ok l
            → t ≡ secret
        tried (some k) e b f g =
            sealing.only secret t r.entry.kdf keys k r.entry_draw r.entry.nonce r.entry.ct
              c'.version r.entry_sealed e
        tried none e (some k) f g =
            sealing.only secret t c'.kdf keys k r.legacy_draw c'.wrap_nonce c'.wrapped_keys
              c'.version r.legacy_sealed f
        tried none e none f g = absurd (
            let z =
              rw
                (
                  sealing.filled secret c'.kdf keys r.legacy_draw c'.wrap_nonce c'.wrapped_keys
                      r.legacy_sealed,
                  f,
                )
                at g in
            ground arith)

    pub recovery_as_before : (t : String) → recovery_entry_for w c' t ≡ recovery_entry_for w c t
    unfolding recovery_entry_for
    recovery_as_before t =
        ap
          (λ (o : Option (Keys × String)).
            elim o as (λ (_ : Option (Keys × String)). Result ConfigError (Keys × String)) [
              | some found ↦ ok found
              | none ↦ err wrong_secret
            ])
          (same r.entries r.version)
      where
        same :
            {es : List WrapEntry} {v : ℕ}
            → es ≡ without_passwords c.wrap_entries ++ (r.entry ∷ [])
            → v ≡ c.version
            → first_opened w t wrap_type_recovery v es
              ≡ first_opened w t wrap_type_recovery c.version c.wrap_entries
        same p q =
            (λ i. first_opened w t wrap_type_recovery (q i) (p i))
            ∙ first_opened-append t wrap_type_recovery c.version r.entry c.wrap_entries refl
                r.is_password
