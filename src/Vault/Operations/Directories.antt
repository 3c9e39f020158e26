-- ===== src/Vault/Operations/Directories.antt =====
-- internal/vault/directories.go: EnsureDirectory, DirectoryExists, markerWouldMaskWipe and
-- EnsureContentLayout. `chunk_files` is how many chunk objects the walk finds, if it succeeds.
use Prim.Native.String.{String, compare as compare_text, ◌++◌ as append}
use open_seavault_rclone.Shared.Dict.{get, put, remove, string_eq}
use open_seavault_rclone.Shared.Int.{ℤ, pos}
use open_seavault_rclone.Shared.Order.{is_gt}
use open_seavault_rclone.Shared.Result.{Result, ok, err}
use open_seavault_rclone.Shared.{
  ℕ, Bool, true, false, not, ◌||◌, Option, none, some, List, [], ◌∷◌, ◌++◌, ltb, str_eq,
  if◌then◌else◌,
}
use open_seavault_rclone.Vault.Clock.{Clock, is_empty, advance_clock}
use open_seavault_rclone.Vault.Index.{
  FileMap, LegacyCodec, VaultState, uses_manifest_store, manifest_files_present, load_index,
  commit_file_manifest,
}
use open_seavault_rclone.Vault.Manifest.{FileRecord, Host, unix_nano_or_now, conflict_path}
use open_seavault_rclone.Vault.Operations.{
  DeviceClock, LegacyWriter, VaultError, not_valid, not_written, create_gate, on_index, save_index,
  store_change,
}
use open_seavault_rclone.Vault.Operations.Removal.{Burial, bury}
use open_seavault_rclone.Vault.Path.{starts, path_join}
use open_seavault_rclone.Vault.Path.Content.{
  content_root, directory_marker_name, trim_slashes_left, trim_slashes_right,
  is_internal_virtual_path, normalize_content_dir_path, directory_marker_path, dir_of, base_of,
}
use open_seavault_rclone.Vault.Store.{Codec}

unfoldable pub marker_file_record : Host → String → FileRecord
unfolding unix_nano_or_now
marker_file_record h now = record {
  size = pos 0;
  mode = 448;
  mod_time = now;
  updated_at = now;
  generation = unix_nano_or_now h now;
  chunks = [];
  conflict_of = "";
  clock = [];
  clock_age = [];
}

unfoldable pub some_below : String → FileMap → Bool
some_below prefix [] = false
some_below prefix ((p, rec) ∷ files) = starts prefix p || some_below prefix files

unfoldable pub directory_exists_in_index : FileMap → String → Bool
unfolding trim_slashes_left trim_slashes_right path_join some_below
directory_exists_in_index files path =
    let vp = trim_slashes_right (trim_slashes_left path) in
    if str_eq vp "" then true else elim (get (path_join vp directory_marker_name) files) [
      | some rec ↦ true
      | none ↦ some_below (append vp "/") files
    ]

-- Is the loaded index empty where the disk shows a vault that is not?
unfoldable pub marker_would_mask_wipe : ℕ → FileMap → VaultState → Bool
unfolding uses_manifest_store manifest_files_present
marker_would_mask_wipe chunk_files idx v =
    if not (is_empty idx) || not (uses_manifest_store v)
    then false
    else manifest_files_present v.manifests || ltb 0 chunk_files

-- `sort.Strings` of the paths.
unfoldable pub insert_path : String → List String → List String
insert_path p [] = p ∷ []
insert_path p (q ∷ ps) =
    let further = q ∷ insert_path p ps in if is_gt (compare_text p q) then further else p ∷ q ∷ ps

unfoldable pub sorted_paths : FileMap → List String
unfolding insert_path
sorted_paths [] = []
sorted_paths ((p, rec) ∷ files) = insert_path p (sorted_paths files)

abbrev pub root_marker : String
root_marker = "content/.seavault-dir"

unfoldable pub stays_in_place : String → Bool
unfolding is_internal_virtual_path
stays_in_place p = (str_eq p root_marker || is_internal_virtual_path p) || starts "content/" p

-- What the migration keeps of a record that it has moved.
pub record Moved : Type 0 where
  pub path : String
  pub generation : ℤ
  pub clock : Clock

module _ (h : Host) where
  unfoldable pub new_path : FileMap → String → FileRecord → String
  unfolding path_join conflict_path
  new_path files old rec =
      let inside : String =
        (if str_eq old content_root
          then path_join content_root content_root
          else path_join content_root old) in
      elim (get inside files) [ none ↦ inside | some other ↦ conflict_path h inside rec ]

  -- One record of the older layout, which is there for every path of the index.
  abbrev pub move_record : String → Option FileRecord → FileMap × List Moved → FileMap × List Moved
  move_record old none t = t
  move_record old (some rec) (files, moved) = (
    remove old (put (new_path files old rec) rec files),
    moved ++ (record { path = old; generation = rec.generation; clock = rec.clock } ∷ []),
  )

  unfoldable pub move_one : String → FileMap × List Moved → FileMap × List Moved
  unfolding stays_in_place new_path
  move_one old t = if stays_in_place old then t else move_record old (get old t.0) t

  unfoldable pub move_all : List String → FileMap × List Moved → FileMap × List Moved
  unfolding move_one
  move_all [] t = t
  move_all (p ∷ ps) t = move_all ps (move_one p t)

module _ (h : Host) (k : Codec) (l : LegacyCodec) (w : LegacyWriter) where
  abbrev pub ensure_marker :
      String → FileMap → VaultState → VaultState × Result VaultError (Unit {0})
  ensure_marker marker idx v = elim (get marker idx) [
    | some rec ↦ (v, ok tt)
    | none ↦ elim (create_gate (dir_of marker) (base_of (dir_of marker))) [
      | err e ↦ (v, err e)
      | ok _ ↦ store_change h k l w idx marker (marker_file_record h k.now_stamp) v
    ]
  ]

  unfoldable pub ensure_directory : String → VaultState → VaultState × Result VaultError (Unit {0})
  unfolding load_index directory_marker_path dir_of base_of create_gate store_change
      marker_file_record
  ensure_directory path v = elim (directory_marker_path path) [
    | none ↦ (v, err not_valid)
    | some marker ↦ on_index (ensure_marker marker) (load_index h k l v)
  ]

  unfoldable pub directory_exists : String → VaultState → VaultState × Result VaultError Bool
  unfolding load_index normalize_content_dir_path directory_exists_in_index
  directory_exists path v = elim (normalize_content_dir_path path) [
    | none ↦ (v, err not_valid)
    | some vp ↦
        on_index (λ idx v'. (v', ok (directory_exists_in_index idx vp))) (load_index h k l v)
  ]

  -- The loop over the manifests of the new layout: `false` is an error.
  unfoldable pub commit_all : FileMap → VaultState → VaultState × Bool
  unfolding commit_file_manifest
  commit_all [] v = (v, true)
  commit_all ((p, rec) ∷ files) v = elim (commit_file_manifest h k p rec v) [
    | none ↦ (v, false)
    | some v' ↦ commit_all files v'
  ]

  abbrev pub burials_of : DeviceClock → List Moved → List Burial
  burials_of d [] = []
  burials_of d (m ∷ ms) =
      record {
        path = m.path;
        generation = pos 0;
        superseded = m.generation;
        clock = advance_clock d.id m.clock d.wall;
      }
      ∷ burials_of d ms

  abbrev pub finished : VaultState × Bool → VaultState × Result VaultError (Unit {0})
  finished (v, true) = (v, ok tt)
  finished (v, false) = (v, err not_written)

  abbrev pub then_bury : List Burial → VaultState × Bool → VaultState × Bool
  then_bury bs (v, true) = bury h k l w bs v
  then_bury bs (v, false) = (v, false)

  -- The index with its marker, and whether the marker was put in.
  unfoldable pub with_marker : ℕ → FileMap → VaultState → FileMap × Bool
  unfolding marker_would_mask_wipe marker_file_record
  with_marker chunk_files idx v = elim (get root_marker idx) [
    | some rec ↦ (idx, false)
    | none ↦
        if marker_would_mask_wipe chunk_files idx v
        then (idx, false)
        else (put root_marker (marker_file_record h k.now_stamp) idx, true)
  ]

  -- From the index with its marker: the moves, and the writes if anything has changed.
  abbrev pub settle_marked :
      DeviceClock → VaultState → FileMap × Bool → VaultState × Result VaultError (Unit {0})
  settle_marked d v (marked, added) =
      let (files, moved) = move_all h (sorted_paths marked) (marked, []) in
      if not (added || not (is_empty moved))
      then (v, ok tt)
      else if uses_manifest_store v
      then finished (then_bury (burials_of d moved) (commit_all files v))
      else save_index h k l w files v

  abbrev pub settle_layout :
      DeviceClock → ℕ → FileMap → VaultState → VaultState × Result VaultError (Unit {0})
  settle_layout d chunk_files idx v = settle_marked d v (with_marker chunk_files idx v)

  unfoldable pub ensure_content_layout :
      DeviceClock → ℕ → VaultState → VaultState × Result VaultError (Unit {0})
  unfolding load_index with_marker move_all sorted_paths commit_all bury save_index advance_clock
      uses_manifest_store
  ensure_content_layout d chunk_files v =
      on_index (settle_layout d chunk_files) (load_index h k l v)
