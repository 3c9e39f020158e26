-- ===== src/Vault/Kdf.antt =====
-- internal/vault/crypto.go: the cost of the key derivation, `NormalizeKDFConfig`, the floor for new
-- wraps and the range that a client runs. The algorithm is what `normalizeKDF` makes of its name.
-- `probe` is whether the trial derivation of scrypt accepts the parameters.
pub mod Normal
pub mod Floor
pub mod Range
mod Tests
use open_seavault_rclone.Shared.Int.{ℤ, pos, negsuc, pos_part, ltb_ℤ, leb_ℤ, eqb_ℤ}
use open_seavault_rclone.Shared.Result.{Result, ok, err, ◌>>=◌}
use open_seavault_rclone.Shared.{
  ℕ, ◌-◌, ◌*◌, ◌/◌, ◌%◌, ◌^◌, String, Bool, true, false, not, ◌&&◌, ◌||◌, Option, none, some, ltb,
  str_eq, if◌then◌else◌,
}

pub data Algorithm : Type 0 where
  unnamed argon2id scrypt pbkdf2 unsupported : Algorithm

pub record KdfConfig : Type 0 where
  pub algorithm : Algorithm
  pub iterations : ℤ
  pub salt : String
  pub scrypt_n : ℤ
  pub scrypt_r : ℤ
  pub scrypt_p : ℤ
  pub memory_kib : ℤ
  pub time : ℤ
  pub parallelism : ℤ

pub data KdfError : Type 0 where
  out_of_range too_many_threads unsupported_algorithm missing_salt undecodable_salt scrypt_refused :
      KdfError

abbrev pub bare : Algorithm → KdfConfig
bare a = record {
  algorithm = a;
  iterations = pos 0;
  salt = "";
  scrypt_n = pos 0;
  scrypt_r = pos 0;
  scrypt_p = pos 0;
  memory_kib = pos 0;
  time = pos 0;
  parallelism = pos 0;
}

abbrev pub default_kdf_config : KdfConfig
default_kdf_config = record (bare argon2id) {
  time = pos 3;
  memory_kib = pos 65536;
  parallelism = pos 4;
}

abbrev pub if_positive : ℤ → ℤ → ℤ
if_positive value default = if leb_ℤ value (pos 0) then default else value

abbrev pub if_not_zero : ℤ → ℤ → ℤ
if_not_zero value default = if eqb_ℤ value (pos 0) then default else value

-- 8 * parallelism, for a parallelism that is positive.
abbrev pub eight_times : ℤ → ℤ
eight_times p = pos (8 * pos_part p)

-- `checkKDFRange`, with the int division of the source, which never divides by less than 1.
unfoldable pub check_kdf_range : KdfConfig → Option KdfError
check_kdf_range c = elim c.algorithm [
  | argon2id ↦
      if ltb_ℤ c.time (pos 1) || ltb_ℤ (pos 100) c.time
      then some out_of_range
      else if ltb_ℤ c.memory_kib (pos 1) || ltb_ℤ (pos 4194304) c.memory_kib
      then some out_of_range
      else none
  | scrypt ↦
      if ltb_ℤ c.scrypt_n (pos 2)
        || ltb_ℤ c.scrypt_r (pos 1)
        || ltb_ℤ c.scrypt_p (pos 1)
        || ltb_ℤ (pos 16) c.scrypt_p
      then some out_of_range
      else if ltb_ℤ (pos 33554432) c.scrypt_r
          || ltb_ℤ (pos (33554432 / pos_part c.scrypt_r)) c.scrypt_n
      then some out_of_range
      else if ltb_ℤ (pos (33554432 / pos_part c.scrypt_r)) c.scrypt_p
      then some out_of_range
      else none
  | pbkdf2 ↦
      if ltb_ℤ c.iterations (pos 1) || ltb_ℤ (pos 100000000) c.iterations
      then some out_of_range
      else none
  | unnamed ↦ none
  | unsupported ↦ none
]

abbrev pub normalize_argon2 : KdfConfig → Result KdfError KdfConfig
normalize_argon2 c =
    let parallelism = if_positive c.parallelism (pos 4) in
    let memory = if_positive c.memory_kib (pos 65536) in
    if ltb_ℤ (pos 255) parallelism
    then err too_many_threads
    else ok (record (bare argon2id) {
      salt = c.salt;
      time = if_positive c.time (pos 3);
      parallelism = parallelism;
      memory_kib =
          if ltb_ℤ memory (eight_times parallelism) then eight_times parallelism else memory;
    })

abbrev pub checked_scrypt : Bool → Option KdfError → KdfConfig → Result KdfError KdfConfig
checked_scrypt accepted (some e) c = err e
checked_scrypt accepted none c = if not accepted then err scrypt_refused else ok c

abbrev pub normalize_scrypt : (ℤ → ℤ → ℤ → Bool) → KdfConfig → Result KdfError KdfConfig
normalize_scrypt probe c =
    let n = if_not_zero c.scrypt_n (pos 32768) in
    let r = if_not_zero c.scrypt_r (pos 8) in
    let p = if_not_zero c.scrypt_p (pos 1) in
    let filled = record (bare scrypt) { salt = c.salt; scrypt_n = n; scrypt_r = r; scrypt_p = p } in
    checked_scrypt (probe n r p) (check_kdf_range filled) filled

abbrev pub normalize_pbkdf2 : KdfConfig → Result KdfError KdfConfig
normalize_pbkdf2 c =
    ok (record (bare pbkdf2) { salt = c.salt; iterations = if_positive c.iterations (pos 600000) })

abbrev pub with_salt : Bool → KdfConfig → Result KdfError KdfConfig
with_salt creating c = if not creating && str_eq c.salt "" then err missing_salt else ok c

module _ (probe : ℤ → ℤ → ℤ → Bool) where
  abbrev pub normalize_by : Algorithm → KdfConfig → Result KdfError KdfConfig
  normalize_by unnamed c = normalize_argon2 default_kdf_config
  normalize_by argon2id c = normalize_argon2 c
  normalize_by scrypt c = normalize_scrypt probe c
  normalize_by pbkdf2 c = normalize_pbkdf2 c
  normalize_by unsupported c = err unsupported_algorithm

  unfoldable pub normalize_kdf_config : KdfConfig → Bool → Result KdfError KdfConfig
  unfolding check_kdf_range
  normalize_kdf_config c creating = normalize_by c.algorithm c >>= with_salt creating

-- `ValidateKDFStrength(cfg) == nil`
unfoldable pub is_strong : KdfConfig → Bool
is_strong c = elim c.algorithm [
  | argon2id ↦
      leb_ℤ (pos 1) c.parallelism
      && ((leb_ℤ (pos 19456) c.memory_kib && leb_ℤ (pos 2) c.time)
          || (leb_ℤ (pos 65536) c.memory_kib && leb_ℤ (pos 1) c.time))
  | scrypt ↦ leb_ℤ (pos 32768) c.scrypt_n && leb_ℤ (pos 8) c.scrypt_r
  | pbkdf2 ↦ leb_ℤ (pos 600000) c.iterations
  | unnamed ↦ false
  | unsupported ↦ false
]

abbrev pub max_int : ℤ → ℤ → ℤ
max_int a b = if ltb_ℤ b a then a else b

-- The same algorithm, each parameter at least its default.
unfoldable pub raised : KdfConfig → String → KdfConfig
raised n salt = elim n.algorithm [
  | scrypt ↦ record (bare scrypt) {
    salt = salt;
    scrypt_n = max_int n.scrypt_n (pos 32768);
    scrypt_r = max_int n.scrypt_r (pos 8);
    scrypt_p = max_int n.scrypt_p (pos 1);
  }
  | pbkdf2 ↦ record (bare pbkdf2) { salt = salt; iterations = max_int n.iterations (pos 600000) }
  | other ↦ record (bare argon2id) {
    salt = salt;
    time = max_int n.time (pos 3);
    memory_kib = max_int n.memory_kib (pos 65536);
    parallelism = max_int n.parallelism (pos 1);
  }
]

-- What `deriveWrapKey` calls, its arguments narrowed to their machine types.
pub data KdfCall : Type 0 where
  argon2_call : ℕ → ℕ → ℕ → KdfCall
  scrypt_call : ℤ → ℤ → ℤ → KdfCall
  pbkdf2_call : ℤ → KdfCall

abbrev pub narrow : ℕ → ℤ → ℕ
narrow w (pos n) = n % 2 ^ w
narrow w (negsuc n) = (2 ^ w) - 1 - n % 2 ^ w

module _ (probe : ℤ → ℤ → ℤ → Bool) where
  unfoldable pub raise_to_floor : KdfConfig → Result KdfError KdfConfig
  unfolding normalize_kdf_config is_strong raised
  raise_to_floor base = do
    n ← normalize_kdf_config probe base true
    if is_strong n then ok base else ok (raised n base.salt)

  abbrev pub call_of : KdfConfig → Result KdfError KdfCall
  call_of n = elim n.algorithm [
    | argon2id ↦
        ok (argon2_call (narrow 32 n.time) (narrow 32 n.memory_kib) (narrow 8 n.parallelism))
    | scrypt ↦ ok (scrypt_call n.scrypt_n n.scrypt_r n.scrypt_p)
    | pbkdf2 ↦ ok (pbkdf2_call n.iterations)
    | other ↦ err unsupported_algorithm
  ]

  -- `is_base64` tells whether the Go library decodes the salt.
  unfoldable pub derive_call : (String → Bool) → KdfConfig → Result KdfError KdfCall
  unfolding normalize_kdf_config check_kdf_range
  derive_call is_base64 c = do
    n ← normalize_kdf_config probe c false
    elim (check_kdf_range n) [
      | some e ↦ err e
      | none ↦ if is_base64 n.salt then call_of n else err undecodable_salt
    ]
