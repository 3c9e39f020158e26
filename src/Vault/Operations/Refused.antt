-- ===== src/Vault/Operations/Refused.antt =====
-- internal/vault/vault.go and directories.go: a vault whose configuration was downgraded, and a wiped
-- store with the marker of the content root.
use open_seavault_rclone.Shared.Dict.{get, string_eq}
use open_seavault_rclone.Shared.Int.{pos, eqb_ℤ}
use open_seavault_rclone.Shared.Result.{ok, err}
use open_seavault_rclone.Shared.{
  ℕ, ◌≡◌, refl, ap, ◌∙◌, String, Bool, true, false, not, ◌&&◌, ◌||◌, Option, none, some, [], ltb,
  if◌then◌else◌,
}
use open_seavault_rclone.Vault.Index.{
  FileMap, LegacyCodec, VaultState, config_inconsistent, uses_manifest_store,
  manifest_files_present, cached_or, remembered, load_index_from_disk, load_index,
}
use open_seavault_rclone.Vault.Manifest.{Host}
use open_seavault_rclone.Vault.Operations.{
  DeviceClock, Attributes, Upload, LegacyWriter, index, on_index, put_named, put_reader, info_named,
  file_info,
}
use open_seavault_rclone.Vault.Operations.Directories.{
  marker_would_mask_wipe, settle_marked, settle_layout, with_marker, move_all, sorted_paths,
  ensure_content_layout,
}
use open_seavault_rclone.Vault.Operations.Removal.{remove_named, remove_path}
use open_seavault_rclone.Vault.Path.Content.{
  normalize_content_dir_path, normalize_content_file_path,
}
use open_seavault_rclone.Vault.Store.{Codec}

-- A configuration of an older layout beside files with the names of manifests.
pub record IsDowngraded (v : VaultState) : Type 0 where
  pub older : (not (uses_manifest_store v) || eqb_ℤ v.version (pos 1)) ≡ true
  pub present : manifest_files_present v.manifests ≡ true

refused_by :
    {A : Type 0} (a b : Bool) (x y : A) → a ≡ true → b ≡ true → (if a && b then x else y) ≡ x
refused_by a b x y e f = rw (e, f) refl

module _ (h : Host) (k : Codec) (l : LegacyCodec) (w : LegacyWriter) where
  from_disk-refused :
      (v : VaultState)
      → IsDowngraded v
      → load_index_from_disk h k l v ≡ (v.max_gen, err config_inconsistent)
  unfolding load_index_from_disk
  from_disk-refused v d = refused_by _ _ _ _ d.older d.present

  load_index-refused :
      (v : VaultState)
      → v.cached ≡ none
      → IsDowngraded v
      → load_index h k l v ≡ (v, err config_inconsistent)
  unfolding load_index load_index_from_disk
  load_index-refused v cold d =
      ap (cached_or h k l v) cold ∙ ap (remembered h k l v) (from_disk-refused v d)

  -- On a vault whose index is not loaded yet, and whose vault.json claims a layout without manifests
  -- (or version 1) beside manifest files: a put, a look-up, a deletion and the migration of the
  -- layout all end in the error of an inconsistent configuration, and each leaves the vault as it was.
  pub downgrade_refused :
      (d : DeviceClock) (path : String) (a : Attributes) (upload : Upload) (chunk_files : ℕ)
      (v : VaultState)
      → v.cached ≡ none
      → IsDowngraded v
      → (put_reader h k l w d path a upload v ≡ (v, err (index config_inconsistent)))
        × (file_info h k l w path v ≡ (v, err (index config_inconsistent)))
        × (remove_path h k l w d path v ≡ (v, err (index config_inconsistent)))
        × (ensure_content_layout h k l w d chunk_files v ≡ (v, err (index config_inconsistent)))
  unfolding put_reader file_info remove_path ensure_content_layout
  downgrade_refused d path a upload chunk_files v cold down =
      let e = load_index-refused v cold down in
      (
        ap (on_index (put_named h k l w d (normalize_content_file_path path) a upload)) e,
        ap (on_index (info_named h k l w (normalize_content_file_path path))) e,
        ap (on_index (remove_named h k l w d (normalize_content_dir_path path))) e,
        ap (on_index (settle_layout h k l w d chunk_files)) e,
      )

  unmarked :
      (chunk_files : ℕ) (v : VaultState)
      → uses_manifest_store v ≡ true
      → (manifest_files_present v.manifests || ltb 0 chunk_files) ≡ true
      → with_marker h k l w chunk_files [] v ≡ ([], false)
  unfolding with_marker marker_would_mask_wipe get
  unmarked chunk_files v modern shown = rw (modern, shown) refl

  -- Where the index in memory is empty, and the disk shows files with the names of manifests or some
  -- chunk objects: opening a vault of manifests writes no marker and changes nothing.
  pub wipe_not_masked :
      (d : DeviceClock) (chunk_files : ℕ) (v : VaultState)
      → v.cached ≡ some []
      → uses_manifest_store v ≡ true
      → (manifest_files_present v.manifests || ltb 0 chunk_files) ≡ true
      → ensure_content_layout h k l w d chunk_files v ≡ (v, ok tt)
  unfolding ensure_content_layout load_index with_marker marker_would_mask_wipe move_all
      sorted_paths get
  wipe_not_masked d chunk_files v empty modern shown =
      ap
        (λ (c : Option FileMap).
          on_index (settle_layout h k l w d chunk_files) (cached_or h k l v c))
        empty
      ∙ ap (settle_marked h k l w d v) (unmarked chunk_files v modern shown)
