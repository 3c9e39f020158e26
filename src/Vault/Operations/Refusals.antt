-- ===== src/Vault/Operations/Refusals.antt =====
-- internal/vault: the theorems on generations, refusals and stale copies, at the example vault.
use mathlib.Core.Path.{subst}
use Prim.Native.String.{String}
use open_seavault_rclone.Shared.Dict.{get, put, string_eq}
use open_seavault_rclone.Shared.Int.{pos, ◌<ℤ◌}
use open_seavault_rclone.Shared.Result.{ok, err}
use open_seavault_rclone.Shared.{
  ◌≡◌, refl, inl, inr, ◌⊎◌, true, false, none, some, List, [], ◌∷◌, ◌++◌, arith, Elem, ap, sym, ◌∙◌,
  Bool, str_eq,
}
use open_seavault_rclone.Vault.Clock.Advance.{HasRoom}
use open_seavault_rclone.Vault.Clock.Dominance.{IsClock}
use open_seavault_rclone.Vault.Clock.{Clock, advance_clock, clock_dominates}
use open_seavault_rclone.Vault.Gc.Gate.{GateError, IsLive, gc_refusal_gate, wipe_refused}
use open_seavault_rclone.Vault.Index.{
  FileMap, VaultState, config_inconsistent, uses_manifest_store, load_index, next_generation,
}
use open_seavault_rclone.Vault.Index.Generations.{next_generation_above}
use open_seavault_rclone.Vault.Manifest.{FileRecord, Candidate, clock_of, clocked}
use open_seavault_rclone.Vault.Operations.{index, put_gate, put_reader, file_info}
use open_seavault_rclone.Vault.Operations.Deleted.{stale_copies_stay_deleted}
use open_seavault_rclone.Vault.Operations.Directories.{ensure_content_layout}
use open_seavault_rclone.Vault.Operations.Example.{
  host, codec, hmac-IsId, no_legacy, no_writer, laptop, notes_attributes, notes_chunks, store,
  other_file, vault, store-AreSound, other_record, notes_record, deleted_notes, deletion-IsClock,
}
use open_seavault_rclone.Vault.Operations.Downgraded.{put_then_downgrade_refused}
use open_seavault_rclone.Vault.Operations.Removal.{remove_path}
use open_seavault_rclone.Vault.Operations.Removed.{remove_then_info}
use open_seavault_rclone.Vault.Path.{trim_space}
use open_seavault_rclone.Vault.Path.Content.{
  normalize_content_dir_path, normalize_content_file_path,
}
use open_seavault_rclone.Vault.Store.{Files, manifest_path, manifest_id}
use open_seavault_rclone.Vault.Store.Load.{Loaded, visit, group_path, load_manifest_index}
use open_seavault_rclone.Vault.Store.Reload.{IsReady}
use open_seavault_rclone.Vault.Operations.Example.{
  new_notes, notes_id, notes-IsStable, store-IsReady, deleted-IsCodec,
}
use open_seavault_rclone.Vault.Reconcile.{reconcile, is_causally_dominated}
use open_seavault_rclone.Vault.Reconcile.Antichain.{AreHonest}
use open_seavault_rclone.Vault.Store.{stored_file, decrypt_manifest, manifest_id_from_file_name}
use open_seavault_rclone.Vault.Store.Sound.{found_in}

abbrev cold_vault : VaultState
cold_vault = record vault { cached = none }

abbrev cold_index : FileMap
cold_index = ("content/other", other_record.file) ∷ []

cold_load :
    load_index host codec no_legacy cold_vault
    ≡ (record cold_vault { cached = some cold_index }, ok cold_index)
unfolding load_index stored_file put get is_causally_dominated clock_of
cold_load = refl

next_generation_above_example :
    ((c : Candidate)
      → Elem c (found_in codec store)
      → c.rec.file.generation
        <ℤ (next_generation (pos 3) (load_index host codec no_legacy cold_vault).0).0)
    × ((p : String) (rec : FileRecord)
        → Elem (p, rec) cold_index
        → rec.generation
          <ℤ (next_generation (pos 3) (load_index host codec no_legacy cold_vault).0).0)
    × ((next_generation (pos 3) (load_index host codec no_legacy cold_vault).0).1.max_gen
        ≡ (next_generation (pos 3) (load_index host codec no_legacy cold_vault).0).0)
unfolding load_index uses_manifest_store stored_file put get is_causally_dominated clock_of
next_generation_above_example =
    next_generation_above host codec no_legacy cold_vault cold_index (pos 3)
      (record { modern = refl; version = refl }) refl store-AreSound refl (omega arith)

put_then_downgrade_refused_example :
    (v' : VaultState) × (put_reader host codec no_legacy no_writer laptop "notes" notes_attributes
        (some notes_chunks)
        vault
      ≡ (v', ok tt))
    × (let o = record v' { version = pos 1; manifest_mode = ""; cached = none } in
        (put_reader host codec no_legacy no_writer laptop "other" notes_attributes none o
          ≡ (o, err (index config_inconsistent)))
        × (file_info host codec no_legacy no_writer "other" o
            ≡ (o, err (index config_inconsistent)))
        × (remove_path host codec no_legacy no_writer laptop "other" o
            ≡ (o, err (index config_inconsistent)))
        × (ensure_content_layout host codec no_legacy no_writer laptop 0 o
            ≡ (o, err (index config_inconsistent))))
unfolding get normalize_content_file_path put_gate uses_manifest_store manifest_id
put_then_downgrade_refused_example =
    put_then_downgrade_refused host codec no_legacy no_writer laptop "notes" "content/notes"
      notes_attributes notes_chunks [] vault (pos 1) "" "other" notes_attributes none 0
      notes-IsStable (hmac-IsId "manifest:content/notes") refl refl refl refl (inl refl)

-- The store's live manifest, with a tombstone after it in the walk.
abbrev wiped_store : Files
wiped_store = store ++ ((manifest_path notes_id, stored_file codec notes_id deleted_notes) ∷ [])

abbrev wiped_vault : VaultState
wiped_vault = record vault { manifests = wiped_store }

other-IsLive : IsLive codec other_file
unfolding manifest_id_from_file_name decrypt_manifest stored_file trim_space
other-IsLive = record {
  manifest = other_record;
  named = refl;
  decrypts = refl;
  undeleted = refl;
  has_path = refl;
}

wipe_refused_example :
    (ensure_content_layout host codec no_legacy no_writer laptop 0 wiped_vault
      ≡ (wiped_vault, ok tt))
    × (e : GateError) × (gc_refusal_gate host codec no_legacy 0 wiped_vault ≡ (wiped_vault, err e))
unfolding uses_manifest_store
wipe_refused_example =
    wipe_refused host codec no_legacy no_writer laptop 0 wiped_vault refl refl
      (inl (("bb/other", other_file), inl refl, other-IsLive))

abbrev stale_copy : Candidate
stale_copy = record {
  rec = notes_record;
  id = "id";
  name = "id (copy).manifest";
  source = "aa/id (copy).manifest";
}

abbrev tombstone_copy : Candidate
tombstone_copy = record {
  rec = deleted_notes;
  id = "id";
  name = "id.manifest";
  source = "aa/id.manifest";
}

abbrev notes_clock : Clock
notes_clock = ("laptop", pos 1001) ∷ []

laptop-IsClock : IsClock notes_clock
unfolding get
laptop-IsClock = record { distinct = (refl, tt); nonneg = (omega arith, tt) }

two-AreHonest : AreHonest (stale_copy ∷ tombstone_copy ∷ [])
unfolding clock_of
two-AreHonest = record { clocks = clocks; own_file = own_file }
  where
    clocks : (c : Candidate) → Elem c (stale_copy ∷ tombstone_copy ∷ []) → IsClock (clock_of c.rec)
    clocks c (inl e) = subst (λ (x : Candidate). IsClock (clock_of x.rec)) (sym e) laptop-IsClock
    clocks c (inr (inl e)) =
        subst (λ (x : Candidate). IsClock (clock_of x.rec)) (sym e) deletion-IsClock
    clocks c (inr (inr m)) = absurd m

    apart : {b : Bool} {A : Type 0} → b ≡ true → b ≡ false → A
    apart s t = absurd (cc (s, t))

    own_file :
        (c d : Candidate)
        → Elem c (stale_copy ∷ tombstone_copy ∷ [])
        → Elem d (stale_copy ∷ tombstone_copy ∷ [])
        → str_eq c.source d.source ≡ true
        → c ≡ d
    own_file c d (inr (inr m)) n s = absurd m
    own_file c d (inl e) (inr (inr n)) s = absurd n
    own_file c d (inr (inl e)) (inr (inr n)) s = absurd n
    own_file c d (inl e) (inl f) s = e ∙ sym f
    own_file c d (inr (inl e)) (inr (inl f)) s = e ∙ sym f
    own_file c d (inl e) (inr (inl f)) s = apart s (λ i. str_eq (e i).source (f i).source)
    own_file c d (inr (inl e)) (inl f) s = apart s (λ i. str_eq (e i).source (f i).source)

stale_copies_stay_deleted_example :
    (removes : List String) × (reconcile host "content/notes" (stale_copy ∷ tombstone_copy ∷ [])
      ≡ some (none, [], removes))
unfolding clock_of advance_clock get put
stale_copies_stay_deleted_example =
    stale_copies_stay_deleted host "laptop" notes_clock (pos 1000) "content/notes"
      (stale_copy ∷ tombstone_copy ∷ []) tombstone_copy refl refl laptop-IsClock room two-AreHonest
      (inr (inl refl)) refl refl stale
  where
    room : HasRoom "laptop" notes_clock (pos 1000)
    room = (omega arith, omega arith)

    stale :
        (c : Candidate)
        → Elem c (stale_copy ∷ tombstone_copy ∷ [])
        → (c ≡ tombstone_copy)
          ⊎ ((str_eq tombstone_copy.source c.source ≡ false)
              × ((clock_of c.rec ≡ notes_clock)
                  ⊎ ((clocked c.rec ≡ true)
                      × (clock_dominates notes_clock (clock_of c.rec) ≡ true))))
    stale c (inl e) = inr (
      ap (λ (x : Candidate). str_eq tombstone_copy.source x.source) e,
      inl (ap (λ (x : Candidate). clock_of x.rec) e),
    )
    stale c (inr (inl e)) = inl e
    stale c (inr (inr m)) = absurd m

abbrev store_with_notes : Files
store_with_notes = (manifest_path notes_id, stored_file codec notes_id notes_record) ∷ store

abbrev vault_after_put : VaultState
vault_after_put = record vault {
  manifests = store_with_notes;
  cached = some (("content/notes", new_notes) ∷ ("content/other", other_record.file) ∷ []);
  max_gen = pos 1000;
}

store_with_notes-IsReady : IsReady codec "content/notes" store_with_notes
unfolding visit group_path stored_file manifest_path manifest_id clock_of get
store_with_notes-IsReady = record {
  distinct = (refl, store-IsReady.distinct);
  sound = (laptop-IsClock, store-AreSound);
  alone = (inl refl, store-IsReady.alone);
}

remove_then_info_example :
    (v' : VaultState) × (remove_path host codec no_legacy no_writer laptop "notes" vault_after_put
      ≡ (v', ok 1))
    × (file_info host codec no_legacy no_writer "notes" v' ≡ (v', ok none))
    × (st : Loaded) × ((load_manifest_index host codec (pos 0) v'.manifests).1 ≡ some st)
    × (get "content/notes" st.files ≡ none)
unfolding next_generation advance_clock get put uses_manifest_store normalize_content_dir_path
    normalize_content_file_path
remove_then_info_example =
    remove_then_info host codec no_legacy no_writer laptop "notes" "content/notes" new_notes
      (("content/notes", new_notes) ∷ ("content/other", other_record.file) ∷ []) vault_after_put
      (pos 0) notes-IsStable store_with_notes-IsReady deletion-IsClock deleted-IsCodec refl refl
      refl refl refl refl
