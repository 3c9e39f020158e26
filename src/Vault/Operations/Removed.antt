-- ===== src/Vault/Operations/Removed.antt =====
-- internal/vault/vault.go: a file that RemovePath deletes is found no more, in memory and after the
-- manifests are loaded again.
use text.Mathlib.TextPositions.{eq_refl}
use open_seavault_rclone.Shared.Dict.{get, string_eq}
use open_seavault_rclone.Shared.Int.{ℤ}
use open_seavault_rclone.Shared.Result.{ok, err}
use open_seavault_rclone.Shared.{
  ◌≡◌, refl, ap, ◌∙◌, String, true, false, Option, none, some, [], ◌∷◌, str_eq, if◌then◌else◌,
}
use open_seavault_rclone.Vault.Clock.{Clock, advance_clock}
use open_seavault_rclone.Vault.Clock.Dominance.{IsClock}
use open_seavault_rclone.Vault.Index.{
  FileMap, LegacyCodec, VaultState, uses_manifest_store, next_generation, cached_or, load_index,
  commit_tombstone,
}
use open_seavault_rclone.Vault.Index.Coherent.{commit_tombstone-coherent}
use open_seavault_rclone.Vault.Manifest.{FileRecord, Host}
use open_seavault_rclone.Vault.Operations.{
  DeviceClock, LegacyWriter, protected_root, on_index, file_info, save_index, old_clock,
}
use open_seavault_rclone.Vault.Operations.Removal.{
  Burial, generation_of, targets_of, plan_burials, without, bury, removed_count, saved,
  remove_targets, remove_named, remove_path,
}
use open_seavault_rclone.Vault.Operations.Stored.{file_info-cached}
use open_seavault_rclone.Vault.Path.Content.{
  content_root, normalize_content_dir_path, normalize_content_file_path,
}
use open_seavault_rclone.Vault.Store.{Codec, completed, tombstone}
use open_seavault_rclone.Vault.Store.Load.{Loaded, load_manifest_index}
use open_seavault_rclone.Vault.Store.Reload.{IsStable, IsReady}
use open_seavault_rclone.Vault.Store.Saved.{IsCodec}

targets_of-file :
    (vp : String) (idx : FileMap) (rec : FileRecord)
    → get vp idx ≡ some rec
    → targets_of vp idx ≡ vp ∷ []
unfolding targets_of
targets_of-file vp idx rec own = rw (own, targets_of) refl

module _ (h : Host) (k : Codec) (l : LegacyCodec) (w : LegacyWriter) where
  -- The generation and the clock of the tombstone of one file.
  abbrev pub burial_generation : DeviceClock → VaultState → ℤ
  burial_generation d v = (next_generation d.wall v).0

  abbrev pub burial_clock : DeviceClock → FileRecord → Clock
  burial_clock d rec = advance_clock d.id rec.clock d.wall

  abbrev counted_up : DeviceClock → VaultState → VaultState
  counted_up d v = (next_generation d.wall v).1

  bury-one :
      (b : Burial) (v v' : VaultState)
      → commit_tombstone h k b.path b.generation b.superseded b.clock v ≡ some v'
      → bury h k l w (b ∷ []) v ≡ (v', true)
  unfolding bury
  bury-one b v v' e = rw (e, bury) refl

  abbrev burial : DeviceClock → String → VaultState → Option FileRecord → Burial
  burial d vp v old = record {
    path = vp;
    generation = burial_generation d v;
    superseded = generation_of old;
    clock = advance_clock d.id (old_clock old) d.wall;
  }

  remove_targets-file :
      (d : DeviceClock) (vp : String) (rec : FileRecord) (idx : FileMap) (v v' : VaultState)
      → get vp idx ≡ some rec
      → uses_manifest_store v ≡ true
      → commit_tombstone h k vp
          (burial_generation d v)
          rec.generation
          (burial_clock d rec)
          (counted_up d v)
        ≡ some v'
      → remove_targets h k l w d idx (vp ∷ []) v ≡ (v', ok 1)
  unfolding remove_targets plan_burials next_generation uses_manifest_store
  remove_targets-file d vp rec idx v v' own modern commit =
      (λ i.
        if modern i
        then removed_count h k l w 1 (bury h k l w (burial d vp v (own i) ∷ []) (counted_up d v))
        else saved h k l w 1 (save_index h k l w (without (vp ∷ []) idx) (counted_up d v)))
      ∙ ap (removed_count h k l w 1)
          (bury-one (burial d vp v (some rec)) (counted_up d v) v' commit)

  -- In a loaded vault of manifests, for a path that names the stable content file `vp`, which is in
  -- the index, and a store that is ready for `vp`: a removal of the path succeeds and counts one file,
  -- FileInfo of the path then finds nothing, and a load of the manifests has nothing there either.
  pub remove_then_info :
      (d : DeviceClock) (path vp : String) (rec : FileRecord) (idx : FileMap) (v : VaultState)
      (seen : ℤ)
      → IsStable vp
      → IsReady k vp v.manifests
      → IsClock (burial_clock d rec)
      → IsCodec k (
          completed h k vp
            (tombstone h k vp (burial_generation d v) rec.generation (burial_clock d rec)))
      → v.cached ≡ some idx
      → uses_manifest_store v ≡ true
      → normalize_content_dir_path path ≡ some vp
      → normalize_content_file_path path ≡ some vp
      → str_eq vp content_root ≡ false
      → get vp idx ≡ some rec
      → (v' : VaultState) × (remove_path h k l w d path v ≡ (v', ok 1))
        × (file_info h k l w path v' ≡ (v', ok none))
        × (st : Loaded) × ((load_manifest_index h k seen v'.manifests).1 ≡ some st)
        × (get vp st.files ≡ none)
  unfolding next_generation remove_path load_index
  remove_then_info d path vp rec idx v seen stable ready clock codec cached modern dir file below
        own =
      let (v', commit, idx', cached', found, st, load, entry) =
        commit_tombstone-coherent h k vp stable vp (burial_generation d v) rec.generation
          (burial_clock d rec) (counted_up d v) idx seen codec stable.cleaned ready clock cached in
      let gone : get vp idx' ≡ none = found vp ∙ rw (eq_refl vp) refl in
      (
        v',
        (λ i. on_index (remove_named h k l w d (dir i)) (cached_or h k l v (cached i)))
            ∙ ((λ i.
                  if below i
                  then (v, err protected_root)
                  else remove_targets h k l w d idx (targets_of-file vp idx rec own i) v)
                ∙ remove_targets-file d vp rec idx v v' own modern commit),
        file_info-cached h k l w path vp idx' v' cached' file
            ∙ ap (λ (o : Option FileRecord). (v', ok o)) gone,
        st,
        load,
        entry,
      )
