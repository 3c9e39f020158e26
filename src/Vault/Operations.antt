-- ===== src/Vault/Operations.antt =====
-- internal/vault/vault.go and directories.go: the operations on an open vault: PutReader, FileInfo,
-- List, Files, RemovePath and Remove, SaveIndex, EnsureDirectory, DirectoryExists. `DeviceClock` is the
-- vault's device id with one reading of the clock in nanoseconds; an `Upload` is what the chunks
-- of the reader came to: their references and the count of the bytes, or nothing if one failed.
pub mod Removal
pub mod Removed
mod Example
mod Refusals
mod Tests
pub mod Deleted
pub mod Stored
pub mod Refused
pub mod Downgraded
pub mod Directories
use Prim.Native.Nat.{Ordering}
use Prim.Native.String.{String, compare as compare_text, ◌++◌ as append}
use open_seavault_rclone.Shared.Dict.{Dict, get, put, remove, string_eq}
use open_seavault_rclone.Shared.Int.{ℤ, pos, ltb_ℤ}
use open_seavault_rclone.Shared.Order.{is_gt}
use open_seavault_rclone.Shared.Result.{Result, ok, err}
use open_seavault_rclone.Shared.{
  ℕ, ◌+◌, ◌≡◌, Bool, true, false, not, ◌&&◌, ◌||◌, Option, none, some, List, [], ◌∷◌, ◌++◌, length,
  ◌==◌, str_eq, if◌then◌else◌,
}
use open_seavault_rclone.Vault.Clock.{Clock, is_empty, next_record_clock, advance_clock}
use open_seavault_rclone.Vault.Index.{
  FileMap, LegacyCodec, VaultState, IndexError, uses_manifest_store, index_magic, load_index,
  next_generation, commit_file_manifest, commit_tombstone,
}
use open_seavault_rclone.Vault.Manifest.{ChunkRef, FileRecord, Host}
use open_seavault_rclone.Vault.Objects.{Bytes, encode_encrypted}
use open_seavault_rclone.Vault.Path.{starts, path_join}
use open_seavault_rclone.Vault.Path.Content.{
  codes, content_root, directory_marker_name, trim_slashes_left, trim_slashes_right,
  is_internal_virtual_path, ends_in_slash, normalize_content_file_path, normalize_content_dir_path,
  contains_reserved_segment, directory_marker_path, dir_of, base_of, visible,
}
use open_seavault_rclone.Vault.Portable.{validate_portable_name}
use open_seavault_rclone.Vault.Store.{Codec, save_file_manifest}

pub record DeviceClock : Type 0 where
  pub id : String
  pub wall : ℤ

-- What a caller says of a file.
pub record Attributes : Type 0 where
  pub size : ℤ
  pub mode : ℕ
  pub mod_time : Option String

abbrev pub Upload : Type 0
Upload = Option (List ChunkRef × ℤ)

pub data VaultError : Type 0 where
  index : IndexError → VaultError
  not_valid reserved not_portable upload_failed not_written protected_root not_found : VaultError

-- How the older index file is written.
pub record LegacyWriter : Type 0 where
  pub nonce : Bytes
  pub seal : Bytes → Bytes → Bytes
  pub marshal : FileMap → Bytes

abbrev pub old_clock : Option FileRecord → Clock
old_clock none = []
old_clock (some rec) = rec.clock

abbrev pub old_ages : Option FileRecord → Dict String ℕ
old_ages none = []
old_ages (some rec) = rec.clock_age

-- The record that putReader enters.
unfoldable pub new_record :
    DeviceClock → String → Attributes → List ChunkRef × ℤ → ℤ → Option FileRecord → FileRecord
unfolding next_record_clock
new_record d now a (refs, total) generation old =
    let (clock, ages) = next_record_clock d.id (old_clock old) (old_ages old) d.wall in
    record {
      size = if ltb_ℤ a.size (pos 0) then total else a.size;
      mode = if a.mode == 0 then 384 else a.mode;
      mod_time = elim a.mod_time [ none ↦ now | some t ↦ t ];
      updated_at = now;
      generation = generation;
      chunks = refs;
      conflict_of = "";
      clock = clock;
      clock_age = ages;
    }

-- The gates for a path that is not in the index.
unfoldable pub create_gate : String → String → Result VaultError (Unit {0})
unfolding contains_reserved_segment validate_portable_name
create_gate vp leaf =
    if contains_reserved_segment vp
    then err reserved
    else elim (validate_portable_name (codes leaf)) [ none ↦ ok tt | some e ↦ err not_portable ]

unfoldable pub put_gate : FileMap → String → Result VaultError (Unit {0})
unfolding create_gate base_of
put_gate idx vp = elim (get vp idx) [ some rec ↦ ok tt | none ↦ create_gate vp (base_of vp) ]

-- `LoadIndex`, and the operation on its result.
abbrev pub on_index {ℓ} :
    {A : Type ℓ}
    → (FileMap → VaultState → VaultState × Result VaultError A)
    → VaultState × Result IndexError FileMap
    → VaultState × Result VaultError A
on_index f (v, err e) = (v, err (index e))
on_index f (v, ok idx) = f idx v

module _ (h : Host) (k : Codec) (l : LegacyCodec) (w : LegacyWriter) where
  -- `saveIndexAsManifests`: `false` is an error, at which the files before are written.
  unfoldable pub save_all : FileMap → VaultState → VaultState × Bool
  unfolding save_file_manifest
  save_all [] v = (v, true)
  save_all ((p, rec) ∷ files) v =
      let rest = save_all files v in
      if not (str_eq rec.conflict_of "")
      then rest
      else elim (save_file_manifest h k p rec v.manifests) [
        | none ↦ (v, false)
        | some manifests ↦ save_all files (record v { manifests = manifests })
      ]

  -- `cacheReplace`, after a write that succeeded.
  abbrev pub with_index : FileMap → VaultState × Bool → VaultState × Result VaultError (Unit {0})
  with_index idx (v, false) = (v, err not_written)
  with_index idx (v, true) = (record v { cached = some idx }, ok tt)

  unfoldable pub save_index : FileMap → VaultState → VaultState × Result VaultError (Unit {0})
  unfolding uses_manifest_store save_all encode_encrypted
  save_index idx v =
      let whole = encode_encrypted index_magic w.nonce (w.seal w.nonce (w.marshal idx)) in
      if uses_manifest_store v
      then with_index idx (save_all idx v)
      else with_index idx (record v { legacy = some whole }, true)

  abbrev pub committed : VaultState → Option VaultState → VaultState × Result VaultError (Unit {0})
  committed old none = (old, err not_written)
  committed old (some v) = (v, ok tt)

  -- One changed file of the index: its manifest, or the whole older index.
  unfoldable pub store_change :
      FileMap → String → FileRecord → VaultState → VaultState × Result VaultError (Unit {0})
  unfolding uses_manifest_store commit_file_manifest save_index
  store_change idx vp rec v =
      if uses_manifest_store v
      then committed v (commit_file_manifest h k vp rec v)
      else save_index (put vp rec idx) v

  -- putReader and the write that follows it.
  unfoldable pub put_checked :
      DeviceClock
      → String
      → Attributes
      → Upload
      → FileMap
      → VaultState
      → VaultState × Result VaultError (Unit {0})
  unfolding new_record next_generation store_change
  put_checked d vp a none idx v = (v, err upload_failed)
  put_checked d vp a (some upload) idx v =
      let (generation, v') = next_generation d.wall v in
      store_change idx vp (new_record d k.now_stamp a upload generation (get vp idx)) v'

  abbrev pub put_gated :
      DeviceClock
      → String
      → Attributes
      → Upload
      → FileMap
      → VaultState
      → Result VaultError (Unit {0})
      → VaultState × Result VaultError (Unit {0})
  put_gated d vp a upload idx v (err e) = (v, err e)
  put_gated d vp a upload idx v (ok _) = put_checked d vp a upload idx v

  abbrev pub put_named :
      DeviceClock
      → Option String
      → Attributes
      → Upload
      → FileMap
      → VaultState
      → VaultState × Result VaultError (Unit {0})
  put_named d none a upload idx v = (v, err not_valid)
  put_named d (some vp) a upload idx v = put_gated d vp a upload idx v (put_gate idx vp)

  unfoldable pub put_reader :
      DeviceClock
      → String
      → Attributes
      → Upload
      → VaultState
      → VaultState × Result VaultError (Unit {0})
  unfolding load_index normalize_content_file_path put_gate put_checked
  put_reader d path a upload v =
      on_index (put_named d (normalize_content_file_path path) a upload) (load_index h k l v)

  abbrev pub info_named :
      Option String → FileMap → VaultState → VaultState × Result VaultError (Option FileRecord)
  info_named none idx v = (v, err not_valid)
  info_named (some vp) idx v = (v, ok (get vp idx))

  unfoldable pub file_info :
      String → VaultState → VaultState × Result VaultError (Option FileRecord)
  unfolding load_index normalize_content_file_path
  file_info path v = on_index (info_named (normalize_content_file_path path)) (load_index h k l v)

  unfoldable pub files_of : VaultState → VaultState × Result VaultError FileMap
  unfolding load_index visible
  files_of v = on_index (λ idx v'. (v', ok (visible idx))) (load_index h k l v)
