-- ===== src/Vault/Operations/Tests.antt =====
-- internal/vault: the theorems on the manifest store, the index and the operations, at a vault with
-- one other file on the disk, into which `notes` is put, and from which it is deleted.
use Prim.Native.Char.{char}
use open_seavault_rclone.Vault.Reconcile.{reconcile}
use Prim.Native.String.{String, ◌++◌ as append}
use open_seavault_rclone.Shared.Dict.{get, put, string_eq}
use open_seavault_rclone.Shared.Int.{pos}
use open_seavault_rclone.Shared.Result.{ok}
use open_seavault_rclone.Shared.{
  ◌≡◌, refl, Option, none, some, List, [], ◌∷◌, str_eq, if◌then◌else◌,
}
use open_seavault_rclone.Vault.Index.{
  FileMap, VaultState, uncached, commit_file_manifest, next_generation, uses_manifest_store,
}
use open_seavault_rclone.Vault.Manifest.{FileRecord, PlannedConflict}
use open_seavault_rclone.Vault.Operations.{new_record, put_gate, put_reader, file_info}
use open_seavault_rclone.Vault.Operations.Stored.{entered}
use open_seavault_rclone.Vault.Path.{clean_virtual_path}
use open_seavault_rclone.Vault.Path.Content.{normalize_content_file_path}
use open_seavault_rclone.Vault.Store.Load.{Loaded, visit, group_path, load_manifest_index}
use open_seavault_rclone.Vault.Store.{stored_file}
use open_seavault_rclone.Vault.Store.Returned.{loaded_at}
use open_seavault_rclone.Vault.Index.Coherent.{commit_file-coherent}
use open_seavault_rclone.Vault.Operations.Stored.{put_then_info, put_not_found}
use open_seavault_rclone.Vault.Operations.Example.{
  host, laptop, notes_attributes, notes_chunks, new_notes, codec, no_legacy, no_writer, store,
  vault, notes-IsStable, other_copy, store-Distinct, store-AreSound, store-IsReady,
  new_notes-IsWritten, notes-IsCodec,
}

entered-notes :
    entered host codec no_legacy no_writer laptop "content/notes" notes_attributes notes_chunks []
      vault
    ≡ new_notes
unfolding new_record next_generation get put
entered-notes = refl

put_then_info_example :
    (v' : VaultState) × (put_reader host codec no_legacy no_writer laptop "notes" notes_attributes
        (some notes_chunks)
        vault
      ≡ (v', ok tt))
    × (file_info host codec no_legacy no_writer "notes" v' ≡ (v', ok (some new_notes)))
    × (st : Loaded) × ((load_manifest_index host codec (pos 0) v'.manifests).1 ≡ some st)
    × (get "content/notes" st.files ≡ some new_notes)
unfolding new_record next_generation get put normalize_content_file_path put_gate
    uses_manifest_store
put_then_info_example =
    put_then_info host codec no_legacy no_writer laptop "notes" "content/notes" notes_attributes
      notes_chunks [] vault (pos 0) notes-IsStable store-IsReady new_notes-IsWritten notes-IsCodec
      refl refl refl refl

-- The name ends in a no-break space before the slash.
abbrev spaced : String
spaced = append "notes" (String.◌∷◌ (char 160 tt) "/")

abbrev spaced_file : String
spaced_file = append "content/notes" (String.◌∷◌ (char 160 tt) "")

put_not_found_example :
    (v' : VaultState) × (put_reader host codec no_legacy no_writer laptop spaced notes_attributes
        (some notes_chunks)
        vault
      ≡ (v', ok tt))
    × (file_info host codec no_legacy no_writer spaced v' ≡ (v', ok none))
unfolding get normalize_content_file_path put_gate uses_manifest_store clean_virtual_path
put_not_found_example =
    put_not_found host codec no_legacy no_writer laptop spaced spaced_file "content/notes"
      notes_attributes notes_chunks [] vault notes-IsStable refl refl refl refl refl refl refl

loaded_at_example :
    (st : Loaded) × ((load_manifest_index host codec (pos 0) store).1 ≡ some st)
    × (r : Option FileRecord × List PlannedConflict × List String) × (reconcile host "content/other"
          (other_copy ∷ [])
        ≡ some r)
    × (get "content/other" st.files ≡ r.0)
unfolding visit group_path stored_file
loaded_at_example =
    loaded_at host codec store store-Distinct store-AreSound (pos 0) "content/other" other_copy []
      refl

commit_file-coherent_example :
    (v' : VaultState) × (commit_file_manifest host codec "content/notes" new_notes vault ≡ some v')
    × (idx' : FileMap) × (v'.cached ≡ some idx')
    × ((q : String)
        → get q idx' ≡ (if str_eq "content/notes" q then some (uncached new_notes) else get q []))
    × (st : Loaded) × ((load_manifest_index host codec (pos 0) v'.manifests).1 ≡ some st)
    × (get "content/notes" st.files ≡ some (uncached new_notes))
commit_file-coherent_example =
    commit_file-coherent host codec "content/notes" notes-IsStable "content/notes" new_notes vault
      [] (pos 0) notes-IsCodec notes-IsStable.cleaned store-IsReady new_notes-IsWritten refl
