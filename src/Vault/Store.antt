-- ===== src/Vault/Store.antt =====
-- internal/vault/manifest.go: the encrypted manifest files. `Codec` stands for the AEAD and the HMAC
-- of the Go library under the vault's keys (`seal` and `unseal` take the id that is authenticated
-- with the text), the JSON of a record, the random nonce, and one
-- reading of `time.Now` in the format of the records. `Files` is the tree below manifests/, in the
-- order of the walk: the path of each file, with its base name and its bytes. Files that are there
-- can be read and written: errors of the disk are left out.
pub mod Load
pub mod Sound
pub mod Returned
pub mod Reload
pub mod Replaced
pub mod Saved
pub mod Name
pub mod Grouped
pub mod Placed
use Prim.Native.Char.{Char, char, code}
use Prim.Native.String.{String, count, ◌++◌ as append}
use open_seavault_rclone.Shared.Dict.{Dict, put, string_eq}
use open_seavault_rclone.Shared.Int.{ℤ, pos, leb_ℤ, ltb_ℤ, eqb_ℤ}
use open_seavault_rclone.Shared.{
  ℕ, zero, suc, ◌-◌, ◌≡◌, Bool, true, false, not, ◌&&◌, ◌||◌, Option, none, some, List, [], ◌∷◌,
  map, leb, ltb, ◌==◌, str_eq, if◌then◌else◌,
}
use open_seavault_rclone.Vault.Clock.{Clock, is_empty}
use open_seavault_rclone.Vault.Manifest.{FileRecord, ManifestRecord, Host, unix_nano_or_now}
use open_seavault_rclone.Vault.Objects.{Bytes, encode_encrypted, decode_encrypted}
use open_seavault_rclone.Shared.Result.{ok, err}
use open_seavault_rclone.Vault.Path.{is_blank, clean_virtual_path}
use open_seavault_rclone.Vault.Path.Content.{codes, lower}

pub record Codec : Type 0 where
  pub nonce_size : ℕ
  pub nonce : Bytes
  pub seal : String → Bytes → Bytes → Bytes
  pub unseal : String → Bytes → Bytes → Option Bytes
  pub marshal : ManifestRecord → Bytes
  pub unmarshal : Bytes → Option ManifestRecord
  pub hmac_hex : String → String
  pub now_stamp : String

pub record StoredFile : Type 0 where
  pub name : String
  pub bytes : Bytes

abbrev pub Files : Type 0
Files = Dict String StoredFile

-- "SVMAN2\n"
abbrev pub manifest_magic : Bytes
manifest_magic = b'S' ∷ b'V' ∷ b'M' ∷ b'A' ∷ b'N' ∷ b'2' ∷ 10 ∷ []

-- `isHex` of one character.
abbrev pub is_hex_digit : Char → Bool
is_hex_digit c =
    (leb b'0' (code c) && leb (code c) b'9')
    || ((leb b'a' (code c) && leb (code c) b'f') || (leb b'A' (code c) && leb (code c) b'F'))

abbrev pub all_hex : String → Bool
all_hex String.[] = true
all_hex (String.◌∷◌ c s) = is_hex_digit c && all_hex s

unfoldable pub is_hex : String → Bool
is_hex s = not (is_blank s) && all_hex s

-- `strings.ToLower` on hexadecimal digits.
abbrev pub lower_digit : Char → Char
lower_digit c =
    if code c == b'A'
    then char 97 tt
    else if code c == b'B'
    then char 98 tt
    else if code c == b'C'
    then char 99 tt
    else if code c == b'D'
    then char 100 tt
    else if code c == b'E'
    then char 101 tt
    else if code c == b'F'
    then char 102 tt
    else c

unfoldable pub lower_hex : String → String
lower_hex String.[] = String.[]
lower_hex (String.◌∷◌ c s) = String.◌∷◌ (lower_digit c) (lower_hex s)

abbrev pub begins : List ℕ → List ℕ → Bool
begins [] s = true
begins (p ∷ ps) [] = false
begins (p ∷ ps) (c ∷ s) = (p == c) && begins ps s

abbrev pub prepend : Char → Option String → Option String
prepend c none = none
prepend c (some s) = some (String.◌∷◌ c s)

-- The text before the first `.manifest`, in any case.
unfoldable pub before_marker : String → Option String
unfolding lower
before_marker String.[] = none
before_marker (String.◌∷◌ c s) =
    let rest = before_marker s in
    if begins (codes ".manifest") (map lower (codes (String.◌∷◌ c s)))
    then some String.[]
    else prepend c rest

unfoldable pub first_chars : ℕ → String → String
first_chars zero s = String.[]
first_chars (suc n) String.[] = String.[]
first_chars (suc n) (String.◌∷◌ c s) = String.◌∷◌ c (first_chars n s)

-- The id is the lowered prefix, of which sixty-four digits are enough; "" is no id.
unfoldable pub id_of_prefix : String → String
unfolding is_hex lower_hex first_chars
id_of_prefix prefix =
    if is_blank prefix
    then ""
    else if leb 64 (count prefix) && is_hex (first_chars 64 prefix)
    then lower_hex (first_chars 64 prefix)
    else if is_hex prefix
    then lower_hex prefix
    else ""

unfoldable pub manifest_id_from_file_name : String → String
unfolding before_marker id_of_prefix
manifest_id_from_file_name name = elim (before_marker name) [
  | none ↦ ""
  | some prefix ↦ id_of_prefix prefix
]

-- Below manifests/.
unfoldable pub manifest_path : String → String
unfolding first_chars
manifest_path id =
    append (if ltb 2 (count id) then first_chars 2 id else id) (append "/" (append id ".manifest"))

module _ (k : Codec) where
  unfoldable pub manifest_id : String → String
  manifest_id path = k.hmac_hex (append "manifest:" path)

  abbrev pub opened_manifest : String → Bytes × Bytes → Option ManifestRecord
  opened_manifest id (nonce, ct) = elim (k.unseal id nonce ct) [
    | none ↦ none
    | some plain ↦ k.unmarshal plain
  ]

  -- `none` is one of the errors.
  unfoldable pub decrypt_manifest : Bytes → String → Option ManifestRecord
  unfolding decode_encrypted
  decrypt_manifest bytes id = elim (decode_encrypted manifest_magic k.nonce_size bytes) [
    | err e ↦ none
    | ok sealed ↦ opened_manifest id sealed
  ]

  -- The file that `atomicWriteFile` leaves.
  unfoldable pub stored_file : String → ManifestRecord → StoredFile
  unfolding encode_encrypted
  stored_file id rec = record {
    name = append id ".manifest";
    bytes = encode_encrypted manifest_magic k.nonce (k.seal id k.nonce (k.marshal rec));
  }

module _ (h : Host) (k : Codec) where
  -- The defaults that `saveManifestRecord` fills in.
  unfoldable pub completed : String → ManifestRecord → ManifestRecord
  unfolding unix_nano_or_now
  completed path rec =
      let stamp = if str_eq rec.updated_at "" then k.now_stamp else rec.updated_at in
      let file = record rec.file {
        updated_at = if str_eq rec.file.updated_at "" then stamp else rec.file.updated_at;
        generation =
            (if eqb_ℤ rec.file.generation (pos 0)
              then unix_nano_or_now h stamp
              else rec.file.generation);
      } in
      record rec {
        path = path;
        version = if eqb_ℤ rec.version (pos 0) then pos 1 else rec.version;
        updated_at = stamp;
        file = file;
        clock = if is_empty rec.clock && not (is_empty file.clock) then file.clock else rec.clock;
      }

  -- `none` is the error of a path that is not valid, as in the two operations below.
  unfoldable pub save_manifest_record : ManifestRecord → Files → Option Files
  unfolding clean_virtual_path completed stored_file manifest_id manifest_path
  save_manifest_record rec files = elim (clean_virtual_path rec.path) [
    | none ↦ none
    | some cleaned ↦
        if str_eq cleaned ""
        then none
        else some (
            put (manifest_path (manifest_id k cleaned))
              (stored_file k (manifest_id k cleaned) (completed cleaned rec)) files)
  ]

  unfoldable pub file_record : FileRecord → FileRecord
  unfolding unix_nano_or_now
  file_record rec =
      let stamp = if str_eq rec.updated_at "" then k.now_stamp else rec.updated_at in
      record rec {
        updated_at = stamp;
        generation =
            (if eqb_ℤ rec.generation (pos 0) then unix_nano_or_now h stamp else rec.generation);
        conflict_of = "";
      }

  -- The record of a live file.
  unfoldable pub live_manifest : String → FileRecord → ManifestRecord
  unfolding file_record
  live_manifest path rec = record {
    version = pos 1;
    path = path;
    updated_at = (file_record rec).updated_at;
    deleted = false;
    deleted_generation = pos 0;
    clock = [];
    file = file_record rec;
  }

  unfoldable pub save_file_manifest : String → FileRecord → Files → Option Files
  unfolding save_manifest_record live_manifest
  save_file_manifest path rec files = elim (clean_virtual_path path) [
    | none ↦ none
    | some cleaned ↦
        if str_eq cleaned "" then none else save_manifest_record (live_manifest cleaned rec) files
  ]

  -- The record of a deletion.
  unfoldable pub tombstone : String → ℤ → ℤ → Clock → ManifestRecord
  unfolding unix_nano_or_now
  tombstone path generation deleted_generation clock = record {
    version = pos 1;
    path = path;
    updated_at = k.now_stamp;
    deleted = true;
    deleted_generation = if ltb_ℤ deleted_generation (pos 0) then pos 0 else deleted_generation;
    clock = clock;
    file = record {
      size = pos 0;
      mode = 0;
      mod_time = "";
      updated_at = k.now_stamp;
      generation =
          (if leb_ℤ generation (pos 0) then unix_nano_or_now h k.now_stamp else generation);
      chunks = [];
      conflict_of = "";
      clock = clock;
      clock_age = [];
    };
  }

  unfoldable pub save_tombstone : String → ℤ → ℤ → Clock → Files → Option Files
  unfolding save_manifest_record tombstone
  save_tombstone path generation deleted_generation clock files = elim (clean_virtual_path path) [
    | none ↦ none
    | some cleaned ↦
        if str_eq cleaned ""
        then none
        else save_manifest_record (tombstone cleaned generation deleted_generation clock) files
  ]
