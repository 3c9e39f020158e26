-- ===== src/Vault/Store/Load.antt =====
-- internal/vault/manifest.go: `loadManifestIndex`, the pure load of the index from the manifest
-- files: the walk, the grouping of the copies by path, the reconciliation of each group, and the
-- conflicts that are placed in the index and left in the plan. A loop over a Go map visits the
-- association list in its order.
use Prim.Native.String.{String}
use open_seavault_rclone.Shared.Dict.{Dict, get, put, string_eq}
use open_seavault_rclone.Shared.Int.{ℤ, ltb_ℤ}
use open_seavault_rclone.Shared.{
  Bool, true, false, not, ◌||◌, Option, none, some, List, [], ◌∷◌, ◌++◌, str_eq, if◌then◌else◌,
}
use open_seavault_rclone.Vault.Manifest.{
  FileRecord, ManifestRecord, Candidate, PlannedConflict, Host,
}
use open_seavault_rclone.Vault.Path.{is_blank, clean_virtual_path}
use open_seavault_rclone.Vault.Reconcile.{reconcile}
use open_seavault_rclone.Vault.Store.{
  Codec, StoredFile, Files, before_marker, manifest_id_from_file_name, decrypt_manifest,
  manifest_id,
}

-- What the walk makes of one file: nothing, an error, or a candidate.
pub data Visit : Type 0 where
  skipped : Visit
  failed : Visit
  found : Candidate → Visit

-- `strings.Contains` of the lowered name.
abbrev pub has_marker : String → Bool
has_marker name = elim (before_marker name) [ none ↦ false | some _ ↦ true ]

abbrev pub Groups : Type 0
Groups = Dict String (List Candidate)

-- What the load builds: the files of the index, and the plan.
pub record Loaded : Type 0 where
  pub files : Dict String FileRecord
  pub conflicts : List PlannedConflict
  pub removes : List String

abbrev pub later : ℤ → ℤ → ℤ
later g seen = if ltb_ℤ seen g then g else seen

abbrev pub with_candidate : Candidate → ℤ × Option (List Candidate) → ℤ × Option (List Candidate)
with_candidate c (g, none) = (g, none)
with_candidate c (g, some cs) = (g, some (c ∷ cs))

abbrev pub at_path : String → Candidate → Candidate
at_path path c = record c { rec = record c.rec { path = path } }

-- `append(byPath[cleaned], c)`
abbrev pub group_at : String → Groups → List Candidate
group_at path groups = elim (get path groups) [ none ↦ [] | some list ↦ list ]

abbrev pub grouped_one : Candidate → Option String → Groups → Groups
grouped_one c none groups = groups
grouped_one c (some path) groups = put path (group_at path groups ++ (at_path path c ∷ [])) groups

module _ (k : Codec) where
  abbrev pub classify : String → StoredFile → String → Option ManifestRecord → Visit
  classify source f id none = failed
  classify source f id (some rec) =
      if is_blank rec.path
      then skipped
      else found (record { rec = rec; id = id; name = f.name; source = source })

  unfoldable pub visit : String → StoredFile → Visit
  unfolding before_marker manifest_id_from_file_name decrypt_manifest
  visit source f =
      let id = manifest_id_from_file_name f.name in
      if not (has_marker f.name)
      then skipped
      else if is_blank id
      then skipped
      else classify source f id (decrypt_manifest k f.bytes id)

  -- The walk, with the generations that it has folded into `maxGen`; `none` is its error.
  unfoldable pub walk : ℤ → Files → ℤ × Option (List Candidate)
  unfolding visit
  walk seen [] = (seen, some [])
  walk seen ((source, f) ∷ fs) = elim (visit source f) [
    | skipped ↦ walk seen fs
    | failed ↦ (seen, none)
    | found c ↦ with_candidate c (walk (later c.rec.file.generation seen) fs)
  ]

  -- The path that a copy is grouped by: its cleaned path, if the file has the id of that path.
  unfoldable pub group_path : Candidate → Option String
  unfolding clean_virtual_path manifest_id
  group_path c = elim (clean_virtual_path c.rec.path) [
    | none ↦ none
    | some cleaned ↦
        if str_eq cleaned "" || not (str_eq (manifest_id k cleaned) c.id)
        then none
        else some cleaned
  ]

  unfoldable pub by_path : Groups → List Candidate → Groups
  unfolding group_path
  by_path groups [] = groups
  by_path groups (c ∷ cs) = by_path (grouped_one c (group_path c) groups) cs

abbrev pub is_there {ℓ} : {A : Type ℓ} → Option A → Bool
is_there none = false
is_there (some a) = true

-- One planned conflict: a path with manifests of its own is left to them.
unfoldable pub place_conflict : Groups → PlannedConflict → Loaded → Loaded
place_conflict groups c st =
    if is_there (get c.path groups)
    then st
    else record st { files = put c.path c.rec st.files; conflicts = st.conflicts ++ (c ∷ []) }

unfoldable pub place_conflicts : Groups → List PlannedConflict → Loaded → Loaded
unfolding place_conflict
place_conflicts groups [] st = st
place_conflicts groups (c ∷ cs) st = place_conflicts groups cs (place_conflict groups c st)

abbrev pub with_live : String → Option FileRecord → Loaded → Loaded
with_live path none st = st
with_live path (some rec) st = record st { files = put path rec st.files }

abbrev pub with_removes : List String → Loaded → Loaded
with_removes removes st = record st { removes = st.removes ++ removes }

-- The body of the loop over the groups, on the result of the reconciliation; `none` is its panic.
abbrev pub entered_state :
    Groups → String → Option FileRecord × List PlannedConflict × List String → Loaded → Loaded
entered_state groups path (live, conflicts, removes) st =
    with_removes removes (place_conflicts groups conflicts (with_live path live st))

abbrev pub enter :
    Groups
    → String
    → Option (Option FileRecord × List PlannedConflict × List String)
    → Loaded
    → Option Loaded
enter groups path none st = none
enter groups path (some outcome) st = some (entered_state groups path outcome st)

abbrev pub and_then : (Loaded → Option Loaded) → Option Loaded → Option Loaded
and_then f none = none
and_then f (some st) = f st

abbrev pub empty_load : Loaded
empty_load = record { files = []; conflicts = []; removes = [] }

module _ (h : Host) where
  unfoldable pub settle_groups : Groups → Groups → Loaded → Option Loaded
  unfolding place_conflicts reconcile
  settle_groups groups [] st = some st
  settle_groups groups ((path, list) ∷ rest) st =
      and_then (settle_groups groups rest) (enter groups path (reconcile h path list) st)

  abbrev pub index_of : Codec → Option (List Candidate) → Option Loaded
  index_of k none = none
  index_of k (some cs) = let groups = by_path k [] cs in settle_groups groups groups empty_load

  -- The new `maxGen`, and the index with its plan.
  unfoldable pub load_manifest_index : Codec → ℤ → Files → ℤ × Option Loaded
  unfolding walk by_path settle_groups
  load_manifest_index k seen files =
      let (max_gen, candidates) = walk k seen files in (max_gen, index_of k candidates)
