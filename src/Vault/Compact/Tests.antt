-- ===== src/Vault/Compact/Tests.antt =====
-- internal/vault/compact.go: the theorems at what the reconciliation plans for four copies of a path.
use text.Mathlib.TextEquality.{eq_iff}
use open_seavault_rclone.Shared.Dict.{get, string_eq}
use open_seavault_rclone.Shared.Int.{pos}
use open_seavault_rclone.Shared.{
  String, ◌≡◌, ◌≢◌, inl, refl, true, false, some, [], ◌∷◌, str_eq, arith,
}
use open_seavault_rclone.Vault.Clock.{clock_dominates}
use open_seavault_rclone.Vault.Manifest.{Candidate, PlannedConflict, clock_of}
use open_seavault_rclone.Vault.Reconcile.{reconcile, is_causally_dominated}
use open_seavault_rclone.Vault.Reconcile.Tests.{host, old_copy, desk_copy, tablet_copy}
use open_seavault_rclone.Vault.Compact.{System, Disk, Plan, compact}
use open_seavault_rclone.Vault.Compact.Kept.{IsKept, compact-IsKept}

-- A second copy of the desk's edit, in a file of its own.
abbrev desk_again : Candidate
desk_again = record desk_copy { source = "d.manifest" }

abbrev conflict : PlannedConflict
conflict = record {
  path = "notes.conflict-today-bb";
  rec = record desk_copy.rec.file { conflict_of = "notes" };
  source = "b.manifest";
}

abbrev twin : PlannedConflict
twin = record conflict { source = "d.manifest" }

abbrev plan : Plan
plan = record { conflicts = conflict ∷ twin ∷ []; remove_manifests = "a.manifest" ∷ [] }

-- This is what a load of these copies plans: both of the desk's copies converge on one conflict.
plan_of_copies :
    reconcile host "notes" (old_copy ∷ desk_copy ∷ tablet_copy ∷ desk_again ∷ [])
    ≡ some (some tablet_copy.rec.file, plan.conflicts, plan.remove_manifests)
unfolding reconcile clock_of clock_dominates get is_causally_dominated
plan_of_copies = refl

abbrev disk : Disk
disk = record {
  manifests =
      ("a.manifest", old_copy.rec)
      ∷ ("b.manifest", desk_copy.rec)
      ∷ ("t.manifest", tablet_copy.rec)
      ∷ ("d.manifest", desk_again.rec)
      ∷ [];
  temporaries = (".tmp-1", 10) ∷ (".tmp-2", 90) ∷ [];
}

abbrev works : System
works = record {
  writes = λ p. true;
  removes = λ p. true;
  now_stamp = "now";
  time_of = λ t. pos 1;
  manifest_file = λ p. "c.manifest";
}

abbrev stuck : System
stuck = record works { removes = λ p. false }

distinct : (s t : String) → str_eq s t ≡ false → s ≢ t
distinct s t h e = let z = (eq_iff s t).1 e in ground arith

compact-IsKept_example : IsKept stuck conflict desk_copy.rec (compact stuck true 100 50 plan disk).0
unfolding get
compact-IsKept_example =
    compact-IsKept stuck conflict desk_copy.rec 100 50 plan disk
      (
        inl (refl, refl, distinct "b.manifest" "c.manifest" refl),
        (inl (refl, refl, distinct "d.manifest" "c.manifest" refl), tt),
      )
      ((distinct "a.manifest" "c.manifest" refl, distinct "a.manifest" "b.manifest" refl), tt) refl
