-- ===== src/Vault/Index/Coherent.antt =====
-- internal/vault/cache.go: the invariant of the cache. After `commitFileManifest` or
-- `commitTombstone` the index in memory has at the path what a load of the manifests finds there.
use Prim.Native.String.{String}
use open_seavault_rclone.Shared.Dict.{get, put, remove, string_eq, get-put, get-remove}
use open_seavault_rclone.Shared.Int.{ℤ, pos, eqb_ℤ}
use open_seavault_rclone.Shared.{
  ◌≡◌, refl, ap, ◌∙◌, Bool, true, false, not, ◌&&◌, none, some, str_eq, if◌then◌else◌,
}
use open_seavault_rclone.Vault.Clock.{Clock, is_empty}
use open_seavault_rclone.Vault.Clock.Dominance.{IsClock}
use open_seavault_rclone.Vault.Index.{
  FileMap, VaultState, uncached, in_cache, cache_key, commit_file_manifest, commit_tombstone,
}
use open_seavault_rclone.Vault.Manifest.{
  FileRecord, ManifestRecord, Host, clock_of, normalize_record,
}
use open_seavault_rclone.Vault.Path.{clean_virtual_path}
use open_seavault_rclone.Vault.Reconcile.{live_record}
use open_seavault_rclone.Vault.Store.{
  Codec, Files, completed, file_record, live_manifest, tombstone, save_manifest_record,
  save_file_manifest, save_tombstone,
}
use open_seavault_rclone.Vault.Store.Load.{Loaded, load_manifest_index}
use open_seavault_rclone.Vault.Store.Reload.{IsStable, IsReady, written, written-load}
use open_seavault_rclone.Vault.Store.Saved.{IsCodec}

-- A record as the writes make it: with a time, a generation and an honest clock.
pub record IsWritten (rec : FileRecord) : Type 0 where
  pub stamped : str_eq rec.updated_at "" ≡ false
  pub ordered : eqb_ℤ rec.generation (pos 0) ≡ false
  pub clock : IsClock rec.clock

module _ (h : Host) (k : Codec) (p : String) (stable : IsStable p) where
  save-written :
      (m : ManifestRecord) (files : Files)
      → m.path ≡ p
      → save_manifest_record h k m files ≡ some (written k p (completed h k p m) files)
  unfolding save_manifest_record
  save-written m files e =
      let clean : clean_virtual_path m.path ≡ some p = ap clean_virtual_path e ∙ stable.cleaned in
      rw (clean, save_manifest_record) (rw stable.not_empty refl)

  save_file-written :
      (path : String) (rec : FileRecord) (files : Files)
      → clean_virtual_path path ≡ some p
      → save_file_manifest h k path rec files
        ≡ some (written k p (completed h k p (live_manifest h k p rec)) files)
  unfolding save_file_manifest live_manifest
  save_file-written path rec files clean =
      rw (clean, save_file_manifest)
        (rw stable.not_empty (save-written (live_manifest h k p rec) files refl))

  save_tombstone-written :
      (path : String) (g dg : ℤ) (c : Clock) (files : Files)
      → clean_virtual_path path ≡ some p
      → save_tombstone h k path g dg c files
        ≡ some (written k p (completed h k p (tombstone h k p g dg c)) files)
  unfolding save_tombstone tombstone
  save_tombstone-written path g dg c files clean =
      rw (clean, save_tombstone)
        (rw stable.not_empty (save-written (tombstone h k p g dg c) files refl))

  -- What is written has the record that is cached.
  live-completed :
      (rec : FileRecord)
      → IsWritten rec
      → live_record h (completed h k p (live_manifest h k p rec)) ≡ some (uncached rec)
  unfolding live_record normalize_record completed live_manifest file_record
  live-completed rec w = simp (w.stamped, w.ordered) refl

  cache_key-cleaned : (path : String) → clean_virtual_path path ≡ some p → cache_key path ≡ p
  unfolding cache_key
  cache_key-cleaned path clean = rw (clean, cache_key) (rw stable.not_empty refl)

  either :
      (a b : Clock) (x y : Bool)
      → IsClock a
      → IsClock b
      → IsClock (if x then (if y then a else b) else a)
  either a b true true w u = w
  either a b true false w u = u
  either a b false y w u = w

  completed-clock :
      (m : ManifestRecord)
      → IsClock m.clock
      → IsClock m.file.clock
      → IsClock (clock_of (completed h k p m))
  unfolding clock_of completed
  completed-clock m c f =
      either m.file.clock m.clock (is_empty m.file.clock)
        (is_empty m.clock && not (is_empty m.file.clock)) f c

  -- The vault after the write of a record and the update of the index in memory.
  abbrev pub after_write : ManifestRecord → (FileMap → FileMap) → VaultState → VaultState
  after_write m f v = record v {
    manifests = written k p (completed h k p m) v.manifests;
    cached = in_cache f v.cached;
  }

  pub commit_file-written :
      (path : String) (rec : FileRecord) (v : VaultState)
      → clean_virtual_path path ≡ some p
      → commit_file_manifest h k path rec v
        ≡ some (after_write (live_manifest h k p rec) (put p (uncached rec)) v)
  unfolding commit_file_manifest
  commit_file-written path rec v clean =
      rw (save_file-written path rec v.manifests clean, commit_file_manifest)
        (rw (cache_key-cleaned path clean) refl)

  commit_tombstone-written :
      (path : String) (g dg : ℤ) (c : Clock) (v : VaultState)
      → clean_virtual_path path ≡ some p
      → commit_tombstone h k path g dg c v
        ≡ some (after_write (tombstone h k p g dg c) (remove p) v)
  unfolding commit_tombstone
  commit_tombstone-written path g dg c v clean =
      rw (save_tombstone-written path g dg c v.manifests clean, commit_tombstone)
        (rw (cache_key-cleaned path clean) refl)

  -- For a path that the cleaning brings to the stable `p`, on a store that is ready for `p`:
  -- committing a record of a write succeeds, after it a load of the manifests succeeds, and the load
  -- and the index in memory both have the record at `p`, with no mark of a conflict. In memory every
  -- other path is as it was.
  pub commit_file-coherent :
      (path : String) (rec : FileRecord) (v : VaultState) (idx : FileMap) (seen : ℤ)
      → IsCodec k (completed h k p (live_manifest h k p rec))
      → clean_virtual_path path ≡ some p
      → IsReady k p v.manifests
      → IsWritten rec
      → v.cached ≡ some idx
      → (v' : VaultState) × (commit_file_manifest h k path rec v ≡ some v')
        × (idx' : FileMap) × (v'.cached ≡ some idx')
        × ((q : String) → get q idx' ≡ (if str_eq p q then some (uncached rec) else get q idx))
        × (st : Loaded) × ((load_manifest_index h k seen v'.manifests).1 ≡ some st)
        × (get p st.files ≡ some (uncached rec))
  unfolding live_manifest file_record completed
  commit_file-coherent path rec v idx seen codec clean ready w cached =
      let m = live_manifest h k p rec in
      let (st, load, entry) =
        written-load h k p stable (completed h k p m) v.manifests seen codec ready refl
          (completed-clock m record { distinct = tt; nonneg = tt } w.clock) in
      (
        after_write m (put p (uncached rec)) v,
        commit_file-written path rec v clean,
        put p (uncached rec) idx,
        ap (in_cache (put p (uncached rec))) cached,
        (λ q. get-put p q (uncached rec) idx),
        st,
        load,
        entry ∙ live-completed rec w,
      )

  -- Under the same conditions committing a tombstone with an honest clock succeeds, and after it a
  -- load of the manifests succeeds and neither it nor the index in memory has anything at `p`. In
  -- memory every other path is as it was.
  pub commit_tombstone-coherent :
      (path : String) (g dg : ℤ) (c : Clock) (v : VaultState) (idx : FileMap) (seen : ℤ)
      → IsCodec k (completed h k p (tombstone h k p g dg c))
      → clean_virtual_path path ≡ some p
      → IsReady k p v.manifests
      → IsClock c
      → v.cached ≡ some idx
      → (v' : VaultState) × (commit_tombstone h k path g dg c v ≡ some v')
        × (idx' : FileMap) × (v'.cached ≡ some idx')
        × ((q : String) → get q idx' ≡ (if str_eq p q then none else get q idx))
        × (st : Loaded) × ((load_manifest_index h k seen v'.manifests).1 ≡ some st)
        × (get p st.files ≡ none)
  unfolding tombstone live_record completed
  commit_tombstone-coherent path g dg c v idx seen codec clean ready w cached =
      let m = tombstone h k p g dg c in
      let (st, load, entry) =
        written-load h k p stable (completed h k p m) v.manifests seen codec ready refl
          (completed-clock m w w) in
      (
        after_write m (remove p) v,
        commit_tombstone-written path g dg c v clean,
        remove p idx,
        ap (in_cache (remove p)) cached,
        (λ q. get-remove p q idx),
        st,
        load,
        entry,
      )
