-- ===== src/Vault/Compact.antt =====
-- internal/vault/compact.go: the compaction, which writes the planned conflicts and removes what the
-- reconciliation has superseded, with saveFileManifest of internal/vault/manifest.go. `Disk` is the
-- manifest files by name and the temporary files with their times. `System` says which operations
-- on files succeed, and stands for the clock and the name of the file of a virtual path.
pub mod Kept
pub mod Planned
mod Tests
use open_seavault_rclone.Shared.Dict.{Dict, get, put, remove, string_eq}
use open_seavault_rclone.Shared.Int.{ℤ, pos, eqb_ℤ}
use open_seavault_rclone.Shared.{
  ℕ, suc, ◌+◌, ◌-◌, String, Bool, true, false, not, ◌||◌, Option, none, some, List, [], ◌∷◌, ◌++◌,
  length, ltb, str_eq, if◌then◌else◌,
}
use open_seavault_rclone.Vault.Manifest.{FileRecord, ManifestRecord, PlannedConflict}

pub record System : Type 0 where
  pub writes : String → Bool
  pub removes : String → Bool
  pub now_stamp : String
  pub time_of : String → ℤ
  pub manifest_file : String → String

pub record Disk : Type 0 where
  pub manifests : Dict String ManifestRecord
  pub temporaries : Dict String ℕ

pub record Plan : Type 0 where
  pub conflicts : List PlannedConflict
  pub remove_manifests : List String

pub data Failure : Type 0 where
  not_materialised not_superseded not_removed not_swept : String → Failure

pub record CompactReport : Type 0 where
  pub conflicts : List String
  pub removed_manifests : ℕ
  pub tmp_orphans : List String
  pub errors : List Failure

module _ (s : System) where
  -- The record that `saveFileManifest` writes.
  unfoldable pub file_manifest : String → FileRecord → ManifestRecord
  file_manifest path rec =
      let stamp = if str_eq rec.updated_at "" then s.now_stamp else rec.updated_at in
      let generation = if eqb_ℤ rec.generation (pos 0) then s.time_of stamp else rec.generation in
      let file = record rec { updated_at = stamp; generation = generation; conflict_of = "" } in
      record {
        version = pos 1;
        path = path;
        updated_at = stamp;
        deleted = false;
        deleted_generation = pos 0;
        clock = file.clock;
        file = file;
      }

  abbrev pub fail_with : Failure → CompactReport → CompactReport
  fail_with f r = record r { errors = r.errors ++ (f ∷ []) }

  abbrev pub counted : CompactReport → CompactReport
  counted r = record r { removed_manifests = r.removed_manifests + 1 }

  -- A removal of a manifest file, with the failure that it is reported as.
  unfoldable pub remove_file : Failure → String → Disk × CompactReport → Disk × CompactReport
  remove_file f file (d, r) =
      if not (s.removes file)
      then (d, fail_with f r)
      else (record d { manifests = remove file d.manifests }, counted r)

  unfoldable pub materialise : PlannedConflict → Disk × CompactReport → Disk × CompactReport
  unfolding file_manifest remove_file
  materialise c (d, r) =
      let written = record d {
        manifests = put (s.manifest_file c.path) (file_manifest c.path c.rec) d.manifests;
      } in
      let noted = record r { conflicts = r.conflicts ++ (c.path ∷ []) } in
      if not (s.writes c.path)
      then (d, fail_with (not_materialised c.path) r)
      else remove_file (not_superseded c.source) c.source (written, noted)

  -- The first loop: apply, or only count.
  unfoldable pub settle_conflict :
      Bool → PlannedConflict → Disk × CompactReport → Disk × CompactReport
  unfolding materialise
  settle_conflict true c t = materialise c t
  settle_conflict false c (d, r) =
      (d, counted (record r { conflicts = r.conflicts ++ (c.path ∷ []) }))

  unfoldable pub settle_conflicts :
      Bool → List PlannedConflict → Disk × CompactReport → Disk × CompactReport
  unfolding settle_conflict
  settle_conflicts apply [] t = t
  settle_conflicts apply (c ∷ cs) t = settle_conflicts apply cs (settle_conflict apply c t)

  -- The second loop.
  unfoldable pub remove_one : Bool → String → Disk × CompactReport → Disk × CompactReport
  unfolding remove_file
  remove_one true p t = remove_file (not_removed p) p t
  remove_one false p (d, r) = (d, counted r)

  unfoldable pub remove_superseded :
      Bool → List String → Disk × CompactReport → Disk × CompactReport
  unfolding remove_one
  remove_superseded apply [] t = t
  remove_superseded apply (p ∷ ps) t = remove_superseded apply ps (remove_one apply p t)

  -- `sweepTmpOrphans`, without the errors of the walk.
  unfoldable pub sweep_one : Bool → ℕ → ℕ → String × ℕ → Disk × CompactReport → Disk × CompactReport
  sweep_one apply now fence (p, time) (d, r) =
      let found = record r { tmp_orphans = r.tmp_orphans ++ (p ∷ []) } in
      if ltb now (time + fence)
      then (d, r)
      else if not apply
      then (d, found)
      else if not (s.removes p)
      then (d, fail_with (not_swept p) found)
      else (record d { temporaries = remove p d.temporaries }, found)

  unfoldable pub sweep_tmp_orphans :
      Bool → ℕ → ℕ → Dict String ℕ → Disk × CompactReport → Disk × CompactReport
  unfolding sweep_one
  sweep_tmp_orphans apply now fence [] t = t
  sweep_tmp_orphans apply now fence (p ∷ ps) t =
      sweep_tmp_orphans apply now fence ps (sweep_one apply now fence p t)

  -- `compact` on the plan that the load has made.
  unfoldable pub compact : Bool → ℕ → ℕ → Plan → Disk → Disk × CompactReport
  unfolding settle_conflicts remove_superseded sweep_tmp_orphans
  compact apply now fence plan d =
      let empty : CompactReport = record {
        conflicts = [];
        removed_manifests = 0;
        tmp_orphans = [];
        errors = [];
      } in
      sweep_tmp_orphans apply now fence d.temporaries (
        remove_superseded apply plan.remove_manifests
          (settle_conflicts apply plan.conflicts (d, empty)))
