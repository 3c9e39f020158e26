-- ===== src/Vault/Operations/Downgraded.antt =====
-- internal/vault/vault.go: a put, then a vault.json of an older layout and a new opening.
use Prim.Native.String.{String}
use mathlib.Core.Path.{subst}
use open_seavault_rclone.Shared.Dict.{put, string_eq}
use open_seavault_rclone.Shared.Int.{ℤ, pos, ◌<ℤ◌, leb_ℤ, eqb_ℤ}
use open_seavault_rclone.Shared.Result.{ok, err}
use open_seavault_rclone.Shared.{
  ℕ, ◌≡◌, ◌⊎◌, inl, inr, refl, sym, Bool, true, false, not, ◌||◌, none, some, List, [], ◌∷◌, str_eq,
  arith, Bool-cases,
}
use open_seavault_rclone.Vault.Index.{
  FileMap, LegacyCodec, VaultState, config_inconsistent, uses_manifest_store,
  manifest_files_present, uncached,
}
use open_seavault_rclone.Vault.Index.Coherent.{commit_file-written, after_write}
use open_seavault_rclone.Vault.Manifest.{ChunkRef, ManifestRecord, Host}
use open_seavault_rclone.Vault.Operations.{
  DeviceClock, Attributes, Upload, LegacyWriter, index, put_gate, put_reader, file_info,
}
use open_seavault_rclone.Vault.Operations.Directories.{ensure_content_layout}
use open_seavault_rclone.Vault.Operations.Refused.{downgrade_refused}
use open_seavault_rclone.Vault.Operations.Removal.{remove_path}
use open_seavault_rclone.Vault.Operations.Stored.{entered, counted_up, put_reader-commits}
use open_seavault_rclone.Vault.Path.{is_blank}
use open_seavault_rclone.Vault.Path.Content.{normalize_content_file_path}
use open_seavault_rclone.Vault.Store.Name.{IsId, id_of_name, id-not_blank}
use open_seavault_rclone.Vault.Store.Reload.{IsStable}
use open_seavault_rclone.Vault.Store.{
  Codec, StoredFile, Files, completed, live_manifest, stored_file, manifest_id,
  manifest_id_from_file_name,
}

-- A configuration of a layout without manifests: version 1, or no later version and no mode.
abbrev pub IsOlder : ℤ → String → Type 0
IsOlder version mode = (version ≡ pos 1) ⊎ ((version <ℤ pos 2) × (mode ≡ ""))

older_shape :
    (v : VaultState)
    → IsOlder v.version v.manifest_mode
    → (not (uses_manifest_store v) || eqb_ℤ v.version (pos 1)) ≡ true
unfolding uses_manifest_store
older_shape v (inl one) = let same : eqb_ℤ v.version (pos 1) ≡ true = rw one refl in ground arith
older_shape v (inr (low, plain)) =
    let below : leb_ℤ (pos 2) v.version ≡ false = ground arith in rw (below, plain) refl

-- What `put` writes is among the files.
present-put :
    (key : String) (f : StoredFile) (files : Files)
    → is_blank (manifest_id_from_file_name f.name) ≡ false
    → manifest_files_present (put key f files) ≡ true
unfolding put manifest_files_present
present-put key f [] named = rw named refl
present-put key f ((source, g) ∷ files) named = elim (Bool-cases (str_eq source key)) [
  | inl y ↦ rw (y, manifest_files_present, named) refl
  | inr n ↦
      rw (n, manifest_files_present, present-put key f files named)
        (last_true (not (is_blank (manifest_id_from_file_name g.name))))
]
  where
    last_true : (a : Bool) → (a || true) ≡ true
    last_true a = ground arith

module _ (h : Host) (k : Codec) (l : LegacyCodec) (w : LegacyWriter) where
  -- The vault as it is opened over the same files with another vault.json.
  abbrev pub reopened : ℤ → String → VaultState → VaultState
  reopened version mode v = record v { version = version; manifest_mode = mode; cached = none }

  stored-named :
      (p : String) (m : ManifestRecord)
      → IsId (manifest_id k p)
      → is_blank (manifest_id_from_file_name (stored_file k (manifest_id k p) m).name) ≡ false
  unfolding stored_file
  stored-named p m id =
      subst (λ (x : String). is_blank x ≡ false) (sym (id_of_name (manifest_id k p) id))
        (id-not_blank (manifest_id k p) id)

  -- In a loaded vault of manifests, for a path that names the content file `vp`, stable under
  -- cleaning, that passes the gates for new names, where the HMAC of `vp` gives the 64 digits of an
  -- id: a put whose chunks were all stored succeeds; and if vault.json then claims version 1, or a
  -- version below 2 without a mode, and the vault is opened again, a put, a look-up and a deletion
  -- of any path, and the migration of the layout, all end in the error of an inconsistent
  -- configuration and leave the vault with its files as it was.
  pub put_then_downgrade_refused :
      (d : DeviceClock) (path vp : String) (a : Attributes) (u : List ChunkRef × ℤ) (idx : FileMap)
      (v : VaultState) (version : ℤ) (mode other : String) (b : Attributes) (upload : Upload)
      (chunk_files : ℕ)
      → IsStable vp
      → IsId (manifest_id k vp)
      → v.cached ≡ some idx
      → uses_manifest_store v ≡ true
      → normalize_content_file_path path ≡ some vp
      → put_gate idx vp ≡ ok tt
      → IsOlder version mode
      → (v' : VaultState) × (put_reader h k l w d path a (some u) v ≡ (v', ok tt))
        × (let o = reopened version mode v' in
            (put_reader h k l w d other b upload o ≡ (o, err (index config_inconsistent)))
            × (file_info h k l w other o ≡ (o, err (index config_inconsistent)))
            × (remove_path h k l w d other o ≡ (o, err (index config_inconsistent)))
            × (ensure_content_layout h k l w d chunk_files o
                ≡ (o, err (index config_inconsistent))))
  put_then_downgrade_refused d path vp a u idx v version mode other b upload chunk_files stable id
        cached modern named gate older =
      let rec = entered h k l w d vp a u idx v in
      let m = live_manifest h k vp rec in
      let v' = after_write h k vp stable m (put vp (uncached rec)) (counted_up h k l w d v) in
      let commit =
        commit_file-written h k vp stable vp rec (counted_up h k l w d v) stable.cleaned in
      let o = reopened version mode v' in
      (
        v',
        put_reader-commits h k l w d path vp a u idx v v' cached modern named gate commit,
        downgrade_refused h k l w d other b upload chunk_files o refl (record {
          older = older_shape o older;
          present = present-put _ _ _ (stored-named vp (completed h k vp m) id);
        }),
      )
