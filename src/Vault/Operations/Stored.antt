-- ===== src/Vault/Operations/Stored.antt =====
-- internal/vault/vault.go: what PutReader leaves is what FileInfo finds, in memory and after the
-- manifests are loaded again; and where it is not, because the path is not stable under cleaning.
use text.Mathlib.TextPositions.{eq_refl}
use open_seavault_rclone.Shared.Dict.{get, put, string_eq, get-put}
use open_seavault_rclone.Shared.Int.{ℤ}
use open_seavault_rclone.Shared.Result.{ok}
use open_seavault_rclone.Shared.{
  ◌≡◌, refl, ap, ◌∙◌, String, true, false, Option, none, some, List, str_eq, if◌then◌else◌,
}
use open_seavault_rclone.Vault.Index.{
  FileMap, LegacyCodec, VaultState, uncached, in_cache, uses_manifest_store, next_generation,
  cached_or, load_index, commit_file_manifest,
}
use open_seavault_rclone.Vault.Index.Coherent.{
  IsWritten, commit_file-coherent, commit_file-written, after_write,
}
use open_seavault_rclone.Vault.Manifest.{ChunkRef, FileRecord, Host}
use open_seavault_rclone.Vault.Operations.{
  DeviceClock, Attributes, LegacyWriter, new_record, put_gate, committed, store_change, put_checked,
  put_named, put_gated, save_index, put_reader, on_index, info_named, file_info,
}
use open_seavault_rclone.Vault.Path.{clean_virtual_path}
use open_seavault_rclone.Vault.Path.Content.{normalize_content_file_path}
use open_seavault_rclone.Vault.Store.{Codec, completed, live_manifest}
use open_seavault_rclone.Vault.Store.Load.{Loaded, load_manifest_index}
use open_seavault_rclone.Vault.Store.Reload.{IsStable, IsReady}
use open_seavault_rclone.Vault.Store.Saved.{IsCodec}

module _ (h : Host) (k : Codec) (l : LegacyCodec) (w : LegacyWriter) where
  -- The record that a put enters in a loaded vault.
  abbrev pub entered :
      DeviceClock → String → Attributes → List ChunkRef × ℤ → FileMap → VaultState → FileRecord
  entered d vp a u idx v = new_record d k.now_stamp a u (next_generation d.wall v).0 (get vp idx)

  abbrev pub counted_up : DeviceClock → VaultState → VaultState
  counted_up d v = (next_generation d.wall v).1

  pub put_reader-commits :
      (d : DeviceClock) (path vp : String) (a : Attributes) (u : List ChunkRef × ℤ) (idx : FileMap)
      (v v' : VaultState)
      → v.cached ≡ some idx
      → uses_manifest_store v ≡ true
      → normalize_content_file_path path ≡ some vp
      → put_gate idx vp ≡ ok tt
      → commit_file_manifest h k vp (entered d vp a u idx v) (counted_up d v) ≡ some v'
      → put_reader h k l w d path a (some u) v ≡ (v', ok tt)
  unfolding put_reader load_index put_checked store_change next_generation uses_manifest_store
  put_reader-commits d path vp a u idx v v' cached modern named gate commit =
      (λ i. on_index (put_named h k l w d (named i) a (some u)) (cached_or h k l v (cached i)))
      ∙ (ap (put_gated h k l w d vp a (some u) idx v) gate ∙ (λ i.
          if modern i
          then committed h k l w (counted_up d v) (commit i)
          else save_index h k l w (put vp (entered d vp a u idx v) idx) (counted_up d v)))

  pub file_info-cached :
      (path vp : String) (idx : FileMap) (v : VaultState)
      → v.cached ≡ some idx
      → normalize_content_file_path path ≡ some vp
      → file_info h k l w path v ≡ (v, ok (get vp idx))
  unfolding file_info load_index
  file_info-cached path vp idx v cached named =
      λ i. on_index (info_named h k l w (named i)) (cached_or h k l v (cached i))

  -- In a loaded vault of manifests, for a path that names the content file `vp`, stable under
  -- cleaning, that passes the gates for new names, and a store that is ready for `vp`: a put whose
  -- chunks were all stored succeeds, FileInfo of the same path then returns the record that the put
  -- made, and so does a load of the manifests from the disk.
  pub put_then_info :
      (d : DeviceClock) (path vp : String) (a : Attributes) (u : List ChunkRef × ℤ) (idx : FileMap)
      (v : VaultState) (seen : ℤ)
      → IsStable vp
      → IsReady k vp v.manifests
      → IsWritten (entered d vp a u idx v)
      → IsCodec k (completed h k vp (live_manifest h k vp (entered d vp a u idx v)))
      → v.cached ≡ some idx
      → uses_manifest_store v ≡ true
      → normalize_content_file_path path ≡ some vp
      → put_gate idx vp ≡ ok tt
      → (v' : VaultState) × (put_reader h k l w d path a (some u) v ≡ (v', ok tt))
        × (file_info h k l w path v' ≡ (v', ok (some (entered d vp a u idx v))))
        × (st : Loaded) × ((load_manifest_index h k seen v'.manifests).1 ≡ some st)
        × (get vp st.files ≡ some (entered d vp a u idx v))
  unfolding next_generation new_record
  put_then_info d path vp a u idx v seen stable ready written codec cached modern named gate =
      let rec = entered d vp a u idx v in
      let (v', commit, idx', cached', found, st, load, entry) =
        commit_file-coherent h k vp stable vp rec (counted_up d v) idx seen codec stable.cleaned
          ready written cached in
      let own : get vp idx' ≡ some rec = found vp ∙ rw (eq_refl vp) refl in
      (
        v',
        put_reader-commits d path vp a u idx v v' cached modern named gate commit,
        file_info-cached path vp idx' v' cached' named
            ∙ ap (λ (o : Option FileRecord). (v', ok o)) own,
        st,
        load,
        entry,
      )

  -- In a loaded vault of manifests, for a path that names the content file `vp`, where cleaning `vp`
  -- once more gives another stable path `p`, and there is no file at `vp`: a put with stored chunks
  -- succeeds, and FileInfo of the same path finds nothing.
  pub put_not_found :
      (d : DeviceClock) (path vp p : String) (a : Attributes) (u : List ChunkRef × ℤ)
      (idx : FileMap) (v : VaultState)
      → IsStable p
      → clean_virtual_path vp ≡ some p
      → str_eq p vp ≡ false
      → v.cached ≡ some idx
      → get vp idx ≡ none
      → uses_manifest_store v ≡ true
      → normalize_content_file_path path ≡ some vp
      → put_gate idx vp ≡ ok tt
      → (v' : VaultState) × (put_reader h k l w d path a (some u) v ≡ (v', ok tt))
        × (file_info h k l w path v' ≡ (v', ok none))
  unfolding next_generation
  put_not_found d path vp p a u idx v stable again other cached free modern named gate =
      let rec = entered d vp a u idx v in
      let v' =
        after_write h k p stable (live_manifest h k p rec) (put p (uncached rec))
          (counted_up d v) in
      let commit = commit_file-written h k p stable vp rec (counted_up d v) again in
      let left : get vp (put p (uncached rec) idx) ≡ none =
        get-put p vp (uncached rec) idx ∙ rw other free in
      (
        v',
        put_reader-commits d path vp a u idx v v' cached modern named gate commit,
        file_info-cached path vp (put p (uncached rec) idx) v'
              (ap (in_cache (put p (uncached rec))) cached) named
            ∙ ap (λ (o : Option FileRecord). (v', ok o)) left,
      )
