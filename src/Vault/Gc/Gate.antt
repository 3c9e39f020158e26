-- ===== src/Vault/Gc/Gate.antt =====
-- internal/vault/gc.go and manifest.go: the gate before a collection, gcRefusalGate with
-- inspectManifestStore. `chunk_files` is how many ids the walk of the chunks finds.
use mathlib.Core.Path.{subst}
use open_seavault_rclone.Shared.Result.{Result, ok, err}
use open_seavault_rclone.Shared.{
  ℕ, ◌≡◌, refl, ap, String, Elem, ◌∙◌, ◌⊎◌, inl, inr, Bool, true, false, not, ◌&&◌, ◌||◌, Option,
  none, some, [], ◌∷◌, arith, ltb, if◌then◌else◌,
}
use open_seavault_rclone.Vault.Clock.{is_empty}
use open_seavault_rclone.Vault.Index.{
  FileMap, LegacyCodec, VaultState, IndexError, uses_manifest_store, manifest_files_present,
  cached_or, load_index,
}
use open_seavault_rclone.Vault.Manifest.{ManifestRecord, Host}
use open_seavault_rclone.Vault.Operations.{DeviceClock, LegacyWriter}
use open_seavault_rclone.Vault.Operations.Directories.{ensure_content_layout}
use open_seavault_rclone.Vault.Operations.Refused.{wipe_not_masked}
use open_seavault_rclone.Vault.Path.{is_blank, trim_space}
use open_seavault_rclone.Vault.Store.{
  Codec, StoredFile, Files, manifest_id_from_file_name, decrypt_manifest,
}

pub record StoreInspection : Type 0 where
  pub has_any : Bool
  pub has_non_tombstone : Bool

pub data GateError : Type 0 where
  not_loaded : IndexError → GateError
  index_wiped manifests_wiped : GateError

module _ (k : Codec) where
  -- A record that is no tombstone; one that cannot be read is none.
  abbrev pub is_live_record : Option ManifestRecord → Bool
  is_live_record none = false
  is_live_record (some rec) = not rec.deleted && not (is_blank (trim_space rec.path))

  unfoldable pub inspect_one : StoredFile → StoreInspection → StoreInspection
  unfolding decrypt_manifest trim_space
  inspect_one f st =
      let id = manifest_id_from_file_name f.name in
      if is_blank id then st else record {
        has_any = true;
        has_non_tombstone = is_live_record (decrypt_manifest k f.bytes id) || st.has_non_tombstone;
      }

  unfoldable pub inspect_manifest_store : Files → StoreInspection → StoreInspection
  unfolding inspect_one
  inspect_manifest_store [] st = st
  inspect_manifest_store ((source, f) ∷ files) st = inspect_manifest_store files (inspect_one f st)

  abbrev pub nothing_seen : StoreInspection
  nothing_seen = record { has_any = false; has_non_tombstone = false }

  abbrev pub judge_store : ℕ → StoreInspection → Result GateError (Unit {0})
  judge_store chunk_files st =
      if st.has_non_tombstone
      then err index_wiped
      else if not st.has_any && ltb 0 chunk_files
      then err manifests_wiped
      else ok tt

  abbrev pub gate_on :
      ℕ → VaultState × Result IndexError FileMap → VaultState × Result GateError (Unit {0})
  gate_on chunk_files (v, err e) = (v, err (not_loaded e))
  gate_on chunk_files (v, ok idx) =
      if is_empty idx
      then (v, judge_store chunk_files (inspect_manifest_store v.manifests nothing_seen))
      else (v, ok tt)

module _ (h : Host) (k : Codec) (l : LegacyCodec) where
  unfoldable pub gc_refusal_gate : ℕ → VaultState → VaultState × Result GateError (Unit {0})
  unfolding uses_manifest_store load_index inspect_manifest_store
  gc_refusal_gate chunk_files v =
      let checked = gate_on k chunk_files (load_index h k l v) in
      if not (uses_manifest_store v) then (v, ok tt) else checked

inspected_any :
    (k : Codec) (files : Files) (st : StoreInspection)
    → (inspect_manifest_store k files st).has_any ≡ (manifest_files_present files || st.has_any)
unfolding inspect_manifest_store inspect_one manifest_files_present
inspected_any k [] st = refl
inspected_any k ((source, f) ∷ files) st =
    either (is_blank (manifest_id_from_file_name f.name)) _ (inspected_any k files)
  where
    either :
        (b x : Bool)
        → ((s : StoreInspection)
            → (inspect_manifest_store k files s).has_any
              ≡ (manifest_files_present files || s.has_any))
        → (inspect_manifest_store k files
            (if b then st else record { has_any = true; has_non_tombstone = x })).has_any
          ≡ ((not b || manifest_files_present files) || st.has_any)
    either true x rest = rest st
    either false x rest =
        rest (record { has_any = true; has_non_tombstone = x })
        ∙ last_true (manifest_files_present files)
      where
        last_true : (a : Bool) → (a || true) ≡ true
        last_true a = ground arith

-- A file with the name of a manifest that decrypts to a record of a path that is not deleted.
pub record IsLive (k : Codec) (f : StoredFile) : Type 0 where
  pub manifest : ManifestRecord
  pub named : is_blank (manifest_id_from_file_name f.name) ≡ false
  pub decrypts : decrypt_manifest k f.bytes (manifest_id_from_file_name f.name) ≡ some manifest
  pub undeleted : manifest.deleted ≡ false
  pub has_path : is_blank (trim_space manifest.path) ≡ false

module _ (k : Codec) where
  one_inspected :
      (f : StoredFile) (st : StoreInspection)
      → IsLive k f
      → (inspect_one k f st).has_non_tombstone ≡ true
  unfolding inspect_one
  one_inspected f st live = rw live.named (
      (λ i. is_live_record k (live.decrypts i) || st.has_non_tombstone)
      ∙ (λ i. (not (live.undeleted i) && not (live.has_path i)) || st.has_non_tombstone))

  -- The next file takes nothing back.
  still_inspected :
      (f : StoredFile) (st : StoreInspection)
      → st.has_non_tombstone ≡ true
      → (inspect_one k f st).has_non_tombstone ≡ true
  unfolding inspect_one
  still_inspected f st e =
      either (is_blank (manifest_id_from_file_name f.name))
        (is_live_record k (decrypt_manifest k f.bytes (manifest_id_from_file_name f.name)))
    where
      either :
          (b x : Bool)
          → (if b then st else record {
            has_any = true;
            has_non_tombstone = x || st.has_non_tombstone;
          }).has_non_tombstone
            ≡ true
      either true x = e
      either false true = refl
      either false false = e

  all_inspected :
      (files : Files) (st : StoreInspection)
      → st.has_non_tombstone ≡ true
      → (inspect_manifest_store k files st).has_non_tombstone ≡ true
  unfolding inspect_manifest_store
  all_inspected [] st e = e
  all_inspected ((source, f) ∷ files) st e =
      all_inspected files (inspect_one k f st) (still_inspected f st e)

  -- Wherever in the walk the live file comes, it is noticed.
  live_inspected :
      (files : Files) (source : String) (f : StoredFile) (st : StoreInspection)
      → Elem (source, f) files
      → IsLive k f
      → (inspect_manifest_store k files st).has_non_tombstone ≡ true
  unfolding inspect_manifest_store
  live_inspected [] source f st m live = absurd m
  live_inspected ((s, g) ∷ files) source f st (inl e) live =
      all_inspected files (inspect_one k g st) (
        subst (λ (x : String × StoredFile). (inspect_one k x.1 st).has_non_tombstone ≡ true) e
          (one_inspected f st live))
  live_inspected ((s, g) ∷ files) source f st (inr m) live =
      live_inspected files source f (inspect_one k g st) m live

live_present :
    (k : Codec) (files : Files) (source : String) (f : StoredFile)
    → Elem (source, f) files
    → IsLive k f
    → manifest_files_present files ≡ true
unfolding manifest_files_present
live_present k [] source f m live = absurd m
live_present k ((s, g) ∷ files) source f (inl e) live =
    subst
      (λ (x : String × StoredFile).
        (not (is_blank (manifest_id_from_file_name x.1.name)) || manifest_files_present files)
        ≡ true)
      e (rw live.named refl)
live_present k ((s, g) ∷ files) source f (inr m) live =
    rw (live_present k files source f m live) (last_true _)
  where
    last_true : (a : Bool) → (a || true) ≡ true
    last_true a = ground arith

module _ (h : Host) (k : Codec) (l : LegacyCodec) (w : LegacyWriter) where
  -- The disk shows a vault that the empty index does not: a live manifest somewhere among the files, or
  -- chunk objects without any manifest.
  abbrev pub IsWiped : ℕ → VaultState → Type 0
  IsWiped chunk_files v =
      ((file : String × StoredFile) × Elem file v.manifests × IsLive k file.1)
      ⊎ ((manifest_files_present v.manifests ≡ false) × (ltb 0 chunk_files ≡ true))

  judged_wiped :
      (chunk_files : ℕ) (v : VaultState)
      → IsWiped chunk_files v
      → (e : GateError) × (judge_store k chunk_files
            (inspect_manifest_store k v.manifests (nothing_seen k))
          ≡ err e)
  judged_wiped chunk_files v (inl (file, m, live)) =
      (index_wiped, rw (live_inspected k v.manifests file.0 file.1 (nothing_seen k) m live) refl)
  judged_wiped chunk_files v (inr (none_there, some_chunks)) =
      let st = inspect_manifest_store k v.manifests (nothing_seen k) in
      let empty : st.has_any ≡ false =
        inspected_any k v.manifests (nothing_seen k) ∙ rw none_there refl in
      either st.has_non_tombstone st.has_any empty
    where
      either :
          (a b : Bool)
          → b ≡ false
          → (e : GateError) × (judge_store k chunk_files
                (record { has_any = b; has_non_tombstone = a })
              ≡ err e)
      either true b e = (index_wiped, refl)
      either false b e = (manifests_wiped, rw (e, some_chunks) refl)

  shown :
      (chunk_files : ℕ) (v : VaultState)
      → IsWiped chunk_files v
      → (manifest_files_present v.manifests || ltb 0 chunk_files) ≡ true
  shown chunk_files v (inl (file, m, live)) =
      rw (live_present k v.manifests file.0 file.1 m live) refl
  shown chunk_files v (inr (none_there, some_chunks)) = rw (none_there, some_chunks) refl

  -- On a loaded vault of manifests whose index is empty, where some file on the disk, wherever it
  -- comes in the walk, has the name of a manifest and decrypts to a record with a path that is not
  -- deleted, or where there are chunk objects and no file has the name of a manifest: opening
  -- the vault changes nothing, so that the gate of the collector still sees the wipe, and refuses.
  pub wipe_refused :
      (d : DeviceClock) (chunk_files : ℕ) (v : VaultState)
      → v.cached ≡ some []
      → uses_manifest_store v ≡ true
      → IsWiped chunk_files v
      → (ensure_content_layout h k l w d chunk_files v ≡ (v, ok tt))
        × (e : GateError) × (gc_refusal_gate h k l chunk_files v ≡ (v, err e))
  unfolding gc_refusal_gate load_index
  wipe_refused d chunk_files v empty modern wiped =
      let (e, judged) = judged_wiped chunk_files v wiped in
      (
        wipe_not_masked h k l w d chunk_files v empty modern (shown chunk_files v wiped),
        e,
        (λ i.
              if not (modern i)
              then (v, ok tt)
              else gate_on k chunk_files (cached_or h k l v (empty i)))
            ∙ ap (λ (r : Result GateError (Unit {0})). (v, r)) judged,
      )
