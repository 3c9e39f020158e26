-- ===== src/Vault/Kdf/Range.antt =====
-- internal/vault/crypto.go: the costs that `deriveWrapKey` runs are small enough for their types.
use mathlib.Core.Path.{subst}
use native.Mathlib.Nat.{mod-eq_of_lt, le-div_iff_mul-le}
use open_seavault_rclone.Shared.Int.{ℤ, pos, negsuc, pos_part, ◌≤ℤ◌}
use open_seavault_rclone.Shared.Result.{Result, ok, err, Ensures}
use open_seavault_rclone.Shared.{
  ℕ, ◌%◌, ◌*◌, ◌/◌, ◌^◌, ◌<◌, ◌≤◌, ◌≡◌, refl, ap, sym, String, Bool, inl, inr, false, Option, none,
  some, arith, Bool-cases, if◌then◌else◌,
}
use open_seavault_rclone.Vault.Kdf.{
  KdfConfig, KdfError, KdfCall, argon2_call, scrypt_call, pbkdf2_call, check_kdf_range,
  normalize_kdf_config, narrow, call_of, undecodable_salt, derive_call,
}
use open_seavault_rclone.Vault.Kdf.Normal.{
  IsNormal, normal_argon2, normal_scrypt, normal_pbkdf2, normalize_kdf_config-IsNormal,
}

-- The costs of a call are in the range of the client, and narrowing changed none of them.
abbrev pub Affordable : KdfConfig → KdfCall → Type 0
Affordable n (argon2_call t m p) =
    (n.time ≡ pos t)
    × (1 ≤ t)
    × (t ≤ 100)
    × (n.memory_kib ≡ pos m)
    × (1 ≤ m)
    × (m ≤ 4194304)
    × (n.parallelism ≡ pos p)
    × (1 ≤ p)
    × (p ≤ 255)
Affordable n (scrypt_call a r p) =
    (pos 2 ≤ℤ a)
    × (pos 1 ≤ℤ r)
    × (pos 1 ≤ℤ p)
    × (128 * pos_part r * pos_part a ≤ 4294967296)
    × (128 * pos_part r * pos_part p ≤ 4294967296)
Affordable n (pbkdf2_call i) = (pos 1 ≤ℤ i) × (i ≤ℤ pos 100000000)

narrow-same :
    (w k : ℕ) (v : ℤ)
    → pos 1 ≤ℤ v
    → v ≤ℤ pos k
    → k < 2 ^ w
    → (v ≡ pos (narrow w v)) × (1 ≤ narrow w v) × (narrow w v ≤ k)
narrow-same w k (pos n) a b c =
    let same : n % 2 ^ w ≡ n = mod-eq_of_lt (omega arith) in
    (ap pos (sym same), omega arith, omega arith)
narrow-same w k (negsuc n) a b c = absurd (omega arith)

-- The overflow-safe form of the bound on the memory of scrypt.
product_bound :
    (x r : ℤ)
    → pos 1 ≤ℤ r
    → x ≤ℤ pos (33554432 / pos_part r)
    → 128 * pos_part r * pos_part x ≤ 4294967296
product_bound (pos x) (pos r) a b =
    let bound : x * r ≤ 33554432 = (le-div_iff_mul-le (omega arith)).0 (omega arith) in omega arith
product_bound (negsuc x) (pos r) a b = omega arith
product_bound x (negsuc r) a b = absurd (omega arith)

module _ (probe : ℤ → ℤ → ℤ → Bool) where
  call_of-Affordable :
      (n : KdfConfig)
      → IsNormal n
      → check_kdf_range n ≡ none
      → Ensures (Affordable n) (call_of probe n)
  unfolding check_kdf_range
  call_of-Affordable _ (normal_argon2 s t m p low high) h =
      let x = narrow-same 32 100 t (ground arith) (ground arith) (omega arith) in
      let y = narrow-same 32 4194304 m (ground arith) (ground arith) (omega arith) in
      let z = narrow-same 8 255 p low high (omega arith) in
      (x.0, x.1, x.2, y.0, y.1, y.2, z.0, z.1, z.2)
  call_of-Affordable _ (normal_scrypt s n r p) h =
      let one : pos 1 ≤ℤ r = ground arith in
      (
        ground arith,
        one,
        ground arith,
        product_bound n r one (ground arith),
        product_bound p r one (ground arith),
      )
  call_of-Affordable _ (normal_pbkdf2 s i) h = (ground arith, ground arith)

  -- Whatever cost a configuration names, `deriveWrapKey` refuses it, or calls the derivation with
  -- the normalized parameters unchanged by the narrowing to their machine types, with time and
  -- memory of argon2id, memory of scrypt and iterations of pbkdf2 within the range of the client.
  pub derive_call-Affordable :
      (is_base64 : String → Bool) (c n : KdfConfig)
      → normalize_kdf_config probe c false ≡ ok n
      → Ensures (Affordable n) (derive_call probe is_base64 c)
  unfolding derive_call
  derive_call-Affordable is_base64 c n h = rw (h, derive_call) (ranged (check_kdf_range n) refl)
    where
      normal : IsNormal n
      normal = subst (Ensures IsNormal) h (normalize_kdf_config-IsNormal probe c false)

      ranged :
          (o : Option KdfError)
          → check_kdf_range n ≡ o
          → Ensures (Affordable n) (elim o as (λ (_ : Option KdfError). Result KdfError KdfCall) [
            | some e ↦ err e
            | none ↦ if is_base64 n.salt then call_of probe n else err undecodable_salt
          ])
      ranged (some e) g = tt
      ranged none g = elim (Bool-cases (is_base64 n.salt)) [
        | inl y ↦ rw y (call_of-Affordable n normal g)
        | inr bad ↦ rw bad tt
      ]
