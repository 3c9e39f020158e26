-- ===== src/Vault/Kdf/Normal.antt =====
-- internal/vault/crypto.go: the shapes of a normalized cost, and the tests on its integers.
use open_seavault_rclone.Shared.Int.{ℤ, pos, ltb_ℤ, leb_ℤ, eqb_ℤ, ◌≤ℤ◌}
use open_seavault_rclone.Shared.Result.{ok, Ensures, Ensures->>=, Ensures-guarded}
use open_seavault_rclone.Shared.{
  ℕ, suc, String, ◌≡◌, inl, inr, refl, Bool, true, false, not, ◌&&◌, Option, none, some, str_eq,
  arith, Bool-cases,
}
use open_seavault_rclone.Vault.Kdf.{
  Algorithm, unnamed, argon2id, scrypt, pbkdf2, unsupported, KdfConfig, KdfError, missing_salt,
  scrypt_refused, bare, if_positive, if_not_zero, check_kdf_range, normalize_by, checked_scrypt,
  with_salt, normalize_kdf_config, max_int,
}

-- The shapes of a normalized cost.
pub data IsNormal : KdfConfig → Type 0 where
  normal_argon2 :
      (salt : String) (t m p : ℤ)
      → pos 1 ≤ℤ p
      → p ≤ℤ pos 255
      → IsNormal (record (bare argon2id) { salt = salt; time = t; memory_kib = m; parallelism = p })
  normal_scrypt :
      (salt : String) (n r p : ℤ)
      → IsNormal (record (bare scrypt) { salt = salt; scrypt_n = n; scrypt_r = r; scrypt_p = p })
  normal_pbkdf2 :
      (salt : String) (i : ℤ) → IsNormal (record (bare pbkdf2) { salt = salt; iterations = i })

checked_scrypt-IsNormal :
    (accepted : Bool) (o : Option KdfError) (c : KdfConfig)
    → IsNormal c
    → Ensures IsNormal (checked_scrypt accepted o c)
checked_scrypt-IsNormal accepted (some e) c h = tt
checked_scrypt-IsNormal accepted none c h =
    Ensures-guarded IsNormal (not accepted) scrypt_refused (ok c) h

pub ltb_ℤ-lt : (a b : ℤ) → ltb_ℤ a b ≡ true → a ≤ℤ b
ltb_ℤ-lt a b h = ground arith

pub if_positive-same : (v d : ℤ) → pos 1 ≤ℤ v → if_positive v d ≡ v
if_positive-same v d h = let above : leb_ℤ v (pos 0) ≡ false = ground arith in rw above refl

if_positive-ge : (v : ℤ) (d : ℕ) → pos 1 ≤ℤ if_positive v (pos (suc d))
if_positive-ge v d = elim (Bool-cases (leb_ℤ v (pos 0))) [
  | inl y ↦ rw y (omega arith)
  | inr n ↦ rw n (ground arith)
]

pub if_not_zero-same : (v d : ℤ) → pos 1 ≤ℤ v → if_not_zero v d ≡ v
if_not_zero-same v d h = let above : eqb_ℤ v (pos 0) ≡ false = ground arith in rw above refl

pub max_int-left : (a b : ℤ) → a ≤ℤ max_int a b
max_int-left a b = elim (Bool-cases (ltb_ℤ b a)) [
  | inl y ↦ rw y (omega arith)
  | inr n ↦ rw n (ground arith)
]

pub max_int-right : (a b : ℤ) → b ≤ℤ max_int a b
max_int-right a b = elim (Bool-cases (ltb_ℤ b a)) [
  | inl y ↦ rw y (ltb_ℤ-lt b a y)
  | inr n ↦ rw n (omega arith)
]

module _ (probe : ℤ → ℤ → ℤ → Bool) where
  normalize_by-IsNormal :
      (a : Algorithm) (c : KdfConfig) → Ensures IsNormal (normalize_by probe a c)
  normalize_by-IsNormal unnamed c = normal_argon2 _ _ _ _ (omega arith) (omega arith)
  normalize_by-IsNormal argon2id c =
      elim (Bool-cases (ltb_ℤ (pos 255) (if_positive c.parallelism (pos 4)))) [
        | inl y ↦ rw y tt
        | inr n ↦ rw n (normal_argon2 _ _ _ _ (if_positive-ge c.parallelism 3) (ground arith))
      ]
  normalize_by-IsNormal scrypt c =
      let n = if_not_zero c.scrypt_n (pos 32768) in
      let r = if_not_zero c.scrypt_r (pos 8) in
      let p = if_not_zero c.scrypt_p (pos 1) in
      let filled = record (bare scrypt) {
        salt = c.salt;
        scrypt_n = n;
        scrypt_r = r;
        scrypt_p = p;
      } in
      checked_scrypt-IsNormal (probe n r p) (check_kdf_range filled) filled
        (normal_scrypt c.salt n r p)
  normalize_by-IsNormal pbkdf2 c = normal_pbkdf2 _ _
  normalize_by-IsNormal unsupported c = tt

  pub normalize_kdf_config-IsNormal :
      (c : KdfConfig) (creating : Bool) → Ensures IsNormal (normalize_kdf_config probe c creating)
  unfolding normalize_kdf_config
  normalize_kdf_config-IsNormal c creating =
      Ensures->>= IsNormal IsNormal (normalize_by probe c.algorithm c) (with_salt creating)
        (normalize_by-IsNormal c.algorithm c)
        (λ n h. Ensures-guarded IsNormal (not creating && str_eq n.salt "") missing_salt (ok n) h)
