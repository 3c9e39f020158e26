-- ===== src/Vault/Kdf/Floor.antt =====
-- internal/vault/crypto.go: `raiseToFloor` gives a strong cost and lowers no parameter.
use mathlib.Core.Path.{subst}
use open_seavault_rclone.Shared.Int.{ℤ, pos, ltb_ℤ, ◌≤ℤ◌}
use open_seavault_rclone.Shared.Result.{ok, Ensures, Ensures->>=}
use open_seavault_rclone.Shared.{
  String, ◌≡◌, inl, inr, refl, sym, Bool, true, false, Option, none, some, arith, Bool-cases,
}
use open_seavault_rclone.Vault.Kdf.{
  argon2id, scrypt, pbkdf2, KdfConfig, KdfError, eight_times, bare, check_kdf_range, checked_scrypt,
  with_salt, normalize_kdf_config, is_strong, max_int, raised, raise_to_floor,
}
use open_seavault_rclone.Vault.Kdf.Normal.{
  IsNormal, normal_argon2, normal_scrypt, normal_pbkdf2, ltb_ℤ-lt, if_positive-same,
  if_not_zero-same, max_int-left, max_int-right, normalize_kdf_config-IsNormal,
}

-- The same algorithm, at a cost that is no lower in any parameter.
pub record AtLeast (low high : KdfConfig) : Type 0 where
  pub algorithm : high.algorithm ≡ low.algorithm
  pub iterations : low.iterations ≤ℤ high.iterations
  pub scrypt_n : low.scrypt_n ≤ℤ high.scrypt_n
  pub scrypt_r : low.scrypt_r ≤ℤ high.scrypt_r
  pub scrypt_p : low.scrypt_p ≤ℤ high.scrypt_p
  pub memory_kib : low.memory_kib ≤ℤ high.memory_kib
  pub time : low.time ≤ℤ high.time
  pub parallelism : low.parallelism ≤ℤ high.parallelism

module _ (probe : ℤ → ℤ → ℤ → Bool) where
  abbrev pub Lifted : KdfConfig → KdfConfig → Type 0
  Lifted n m = (is_strong m ≡ true) × AtLeast n m

  abbrev argon2_cost : String → ℤ → ℤ → ℤ → KdfConfig
  argon2_cost salt t m p = record (bare argon2id) {
    salt = salt;
    time = t;
    memory_kib = m;
    parallelism = p;
  }

  abbrev scrypt_cost : String → ℤ → ℤ → ℤ → KdfConfig
  scrypt_cost salt n r p = record (bare scrypt) {
    salt = salt;
    scrypt_n = n;
    scrypt_r = r;
    scrypt_p = p;
  }

  raised_argon2 :
      (s salt : String) (t m p T M P : ℤ)
      → t ≤ℤ T
      → pos 3 ≤ℤ T
      → m ≤ℤ M
      → pos 65536 ≤ℤ M
      → p ≤ℤ P
      → pos 1 ≤ℤ P
      → Ensures
          (Lifted (argon2_cost s t m p))
          (normalize_kdf_config probe (argon2_cost salt T M P) true)
  unfolding normalize_kdf_config is_strong
  raised_argon2 s salt t m p T M P a b c d e f = elim (Bool-cases (ltb_ℤ (pos 255) P)) [
    | inl y ↦ rw (if_positive-same P (pos 4) f, y) tt
    | inr n ↦ elim (Bool-cases (ltb_ℤ M (eight_times P))) [
      | inl more ↦
          rw
            (
              if_positive-same P (pos 4) f,
              if_positive-same T (pos 3) one,
              if_positive-same M (pos 65536) kib,
              n,
              more,
            )
            (strong (eight_times P) (omega (arith, ltb_ℤ-lt M (eight_times P) more))
              (omega (arith, ltb_ℤ-lt M (eight_times P) more)))
      | inr less ↦
          rw
            (
              if_positive-same P (pos 4) f,
              if_positive-same T (pos 3) one,
              if_positive-same M (pos 65536) kib,
              n,
              less,
            )
            (strong M c d)
    ]
  ]
    where
      one : pos 1 ≤ℤ T
      one = omega arith

      kib : pos 1 ≤ℤ M
      kib = omega arith

      strong :
          (M' : ℤ)
          → m ≤ℤ M'
          → pos 65536 ≤ℤ M'
          → Lifted (argon2_cost s t m p) (argon2_cost salt T M' P)
      strong M' g h = (
        unfold is_strong in ground arith,
        record {
          algorithm = refl;
          iterations = omega arith;
          scrypt_n = omega arith;
          scrypt_r = omega arith;
          scrypt_p = omega arith;
          memory_kib = g;
          time = a;
          parallelism = e;
        },
      )

  raised_scrypt :
      (s salt : String) (n r p N R P : ℤ)
      → n ≤ℤ N
      → pos 32768 ≤ℤ N
      → r ≤ℤ R
      → pos 8 ≤ℤ R
      → p ≤ℤ P
      → pos 1 ≤ℤ P
      → Ensures
          (Lifted (scrypt_cost s n r p))
          (normalize_kdf_config probe (scrypt_cost salt N R P) true)
  unfolding normalize_kdf_config is_strong
  raised_scrypt s salt n r p N R P a b c d e f =
      rw
        (
          if_not_zero-same N (pos 32768) (omega arith),
          if_not_zero-same R (pos 8) (omega arith),
          if_not_zero-same P (pos 1) f,
        )
        (Ensures->>= (Lifted (scrypt_cost s n r p)) (Lifted (scrypt_cost s n r p))
          (checked_scrypt (probe N R P) (check_kdf_range (scrypt_cost salt N R P))
            (scrypt_cost salt N R P))
          (with_salt true) (checked (probe N R P) (check_kdf_range (scrypt_cost salt N R P)))
          (λ m h. h))
    where
      checked :
          (accepted : Bool) (o : Option KdfError)
          → Ensures
              (Lifted (scrypt_cost s n r p))
              (checked_scrypt accepted o (scrypt_cost salt N R P))
      checked accepted (some x) = tt
      checked false none = tt
      checked true none = (
        unfold is_strong in ground arith,
        record {
          algorithm = refl;
          iterations = omega arith;
          scrypt_n = a;
          scrypt_r = c;
          scrypt_p = e;
          memory_kib = omega arith;
          time = omega arith;
          parallelism = omega arith;
        },
      )

  raised_pbkdf2 :
      (s salt : String) (i I : ℤ)
      → i ≤ℤ I
      → pos 600000 ≤ℤ I
      → Ensures
          (Lifted (record (bare pbkdf2) { salt = s; iterations = i }))
          (normalize_kdf_config probe (record (bare pbkdf2) { salt = salt; iterations = I }) true)
  unfolding normalize_kdf_config is_strong
  raised_pbkdf2 s salt i I a b = rw (if_positive-same I (pos 600000) (omega arith)) (
    ground arith,
    record {
      algorithm = refl;
      iterations = a;
      scrypt_n = omega arith;
      scrypt_r = omega arith;
      scrypt_p = omega arith;
      memory_kib = omega arith;
      time = omega arith;
      parallelism = omega arith;
    },
  )

  raised-Lifted :
      (n : KdfConfig) (salt : String)
      → IsNormal n
      → Ensures (Lifted n) (normalize_kdf_config probe (raised n salt) true)
  unfolding raised
  raised-Lifted _ salt (normal_argon2 s t m p low high) =
      raised_argon2 s salt t m p (max_int t (pos 3)) (max_int m (pos 65536)) (max_int p (pos 1))
        (max_int-left t (pos 3)) (max_int-right t (pos 3)) (max_int-left m (pos 65536))
        (max_int-right m (pos 65536)) (max_int-left p (pos 1)) (max_int-right p (pos 1))
  raised-Lifted _ salt (normal_scrypt s n r p) =
      raised_scrypt s salt n r p (max_int n (pos 32768)) (max_int r (pos 8)) (max_int p (pos 1))
        (max_int-left n (pos 32768)) (max_int-right n (pos 32768)) (max_int-left r (pos 8))
        (max_int-right r (pos 8)) (max_int-left p (pos 1)) (max_int-right p (pos 1))
  raised-Lifted _ salt (normal_pbkdf2 s i) =
      raised_pbkdf2 s salt i (max_int i (pos 600000)) (max_int-left i (pos 600000))
        (max_int-right i (pos 600000))

  AtLeast-refl : (n : KdfConfig) → AtLeast n n
  AtLeast-refl n = record {
    algorithm = refl;
    iterations = omega arith;
    scrypt_n = omega arith;
    scrypt_r = omega arith;
    scrypt_p = omega arith;
    memory_kib = omega arith;
    time = omega arith;
    parallelism = omega arith;
  }

  -- The cost that `raiseToFloor` gives for a stored cost, read as a client reads it, meets the floor
  -- for new wraps, keeps the algorithm, and is no lower in any parameter than the stored one.
  pub raise_to_floor-Lifted :
      (base n : KdfConfig)
      → normalize_kdf_config probe base true ≡ ok n
      → Ensures
          (λ (k : KdfConfig). Ensures (Lifted n) (normalize_kdf_config probe k true))
          (raise_to_floor probe base)
  unfolding raise_to_floor
  raise_to_floor-Lifted base n h =
      rw (h, raise_to_floor)
        (elim (Bool-cases (is_strong n)) [
          | inl y ↦ rw y (subst (Ensures (Lifted n)) (sym h) (y, AtLeast-refl n))
          | inr weak ↦ rw weak (raised-Lifted n base.salt normal)
        ])
    where
      normal : IsNormal n
      normal = subst (Ensures IsNormal) h (normalize_kdf_config-IsNormal probe base true)
