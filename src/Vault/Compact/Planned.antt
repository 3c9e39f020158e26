-- ===== src/Vault/Compact/Planned.antt =====
-- internal/vault/compact.go: `CompactPlan` reports what `Compact` does where no file operation fails.
use open_seavault_rclone.Shared.Dict.{Dict, string_eq}
use open_seavault_rclone.Shared.{
  ℕ, ◌+◌, String, ◌≡◌, inl, inr, refl, ap, sym, ◌∙◌, true, false, List, [], ◌∷◌, ◌++◌, ltb,
  Bool-cases,
}
use open_seavault_rclone.Vault.Manifest.{PlannedConflict}
use open_seavault_rclone.Vault.Compact.{
  System, Disk, Plan, CompactReport, remove_file, materialise, settle_conflict, settle_conflicts,
  remove_one, sweep_one, remove_superseded, sweep_tmp_orphans, compact,
}

module _ (s : System) (written : (p : String) → s.writes p ≡ true)
    (removed : (p : String) → s.removes p ≡ true) where
  settle_conflict-report :
      (c : PlannedConflict) (t u : Disk × CompactReport)
      → t.1 ≡ u.1
      → (settle_conflict s true c t).1 ≡ (settle_conflict s false c u).1
  unfolding settle_conflict materialise remove_file
  settle_conflict-report c t u h =
      rw (written c.path, removed c.source)
        (ap
          (λ (r : CompactReport). record r {
            conflicts = r.conflicts ++ (c.path ∷ []);
            removed_manifests = r.removed_manifests + 1;
          })
          h)

  settle_conflicts-report :
      (cs : List PlannedConflict) (t u : Disk × CompactReport)
      → t.1 ≡ u.1
      → (settle_conflicts s true cs t).1 ≡ (settle_conflicts s false cs u).1
  unfolding settle_conflicts
  settle_conflicts-report [] t u h = h
  settle_conflicts-report (c ∷ cs) t u h =
      settle_conflicts-report cs (settle_conflict s true c t) (settle_conflict s false c u)
        (settle_conflict-report c t u h)

  remove_one-report :
      (p : String) (t u : Disk × CompactReport)
      → t.1 ≡ u.1
      → (remove_one s true p t).1 ≡ (remove_one s false p u).1
  unfolding remove_one remove_file
  remove_one-report p t u h =
      rw (removed p)
        (ap (λ (r : CompactReport). record r { removed_manifests = r.removed_manifests + 1 }) h)

  remove_superseded-report :
      (ps : List String) (t u : Disk × CompactReport)
      → t.1 ≡ u.1
      → (remove_superseded s true ps t).1 ≡ (remove_superseded s false ps u).1
  unfolding remove_superseded
  remove_superseded-report [] t u h = h
  remove_superseded-report (p ∷ ps) t u h =
      remove_superseded-report ps (remove_one s true p t) (remove_one s false p u)
        (remove_one-report p t u h)

  sweep_one-report :
      (now fence : ℕ) (p : String × ℕ) (t u : Disk × CompactReport)
      → t.1 ≡ u.1
      → (sweep_one s true now fence p t).1 ≡ (sweep_one s false now fence p u).1
  unfolding sweep_one
  sweep_one-report now fence (p, time) t u h = elim (Bool-cases (ltb now (time + fence))) [
    | inl young ↦ rw young h
    | inr old ↦
        rw (old, removed p)
          (ap (λ (r : CompactReport). record r { tmp_orphans = r.tmp_orphans ++ (p ∷ []) }) h)
  ]

  sweep_tmp_orphans-report :
      (now fence : ℕ) (ts : Dict String ℕ) (t u : Disk × CompactReport)
      → t.1 ≡ u.1
      → (sweep_tmp_orphans s true now fence ts t).1 ≡ (sweep_tmp_orphans s false now fence ts u).1
  unfolding sweep_tmp_orphans
  sweep_tmp_orphans-report now fence [] t u h = h
  sweep_tmp_orphans-report now fence (p ∷ ts) t u h =
      sweep_tmp_orphans-report now fence ts (sweep_one s true now fence p t)
        (sweep_one s false now fence p u) (sweep_one-report now fence p t u h)

  settle_conflicts-disk :
      (cs : List PlannedConflict) (t : Disk × CompactReport)
      → (settle_conflicts s false cs t).0 ≡ t.0
  unfolding settle_conflicts settle_conflict
  settle_conflicts-disk [] t = refl
  settle_conflicts-disk (c ∷ cs) t = settle_conflicts-disk cs (settle_conflict s false c t)

  remove_superseded-disk :
      (ps : List String) (t : Disk × CompactReport) → (remove_superseded s false ps t).0 ≡ t.0
  unfolding remove_superseded remove_one
  remove_superseded-disk [] t = refl
  remove_superseded-disk (p ∷ ps) t = remove_superseded-disk ps (remove_one s false p t)

  sweep_tmp_orphans-disk :
      (now fence : ℕ) (ts : Dict String ℕ) (t : Disk × CompactReport)
      → (sweep_tmp_orphans s false now fence ts t).0 ≡ t.0
  unfolding sweep_tmp_orphans
  sweep_tmp_orphans-disk now fence [] t = refl
  sweep_tmp_orphans-disk now fence (p ∷ ts) t =
      sweep_tmp_orphans-disk now fence ts (sweep_one s false now fence p t) ∙ one p
    where
      one : (q : String × ℕ) → (sweep_one s false now fence q t).0 ≡ t.0
      one (q, time) =
          unfold sweep_one in
          elim (Bool-cases (ltb now (time + fence))) [
            | inl young ↦ rw young refl
            | inr old ↦ rw old refl
          ]

  -- Where every write and removal succeeds, the plan without effect reports exactly what the
  -- compaction reports, and leaves the disk as it is.
  pub compact_plan_lem :
      (now fence : ℕ) (plan : Plan) (d : Disk)
      → let (same, report) = compact s false now fence plan d in
        (report ≡ (compact s true now fence plan d).1) × (same ≡ d)
  unfolding compact
  compact_plan_lem now fence plan d =
      let empty : CompactReport = record {
        conflicts = [];
        removed_manifests = 0;
        tmp_orphans = [];
        errors = [];
      } in
      let planned = settle_conflicts s false plan.conflicts (d, empty) in
      let settled = settle_conflicts s true plan.conflicts (d, empty) in
      let counted = remove_superseded s false plan.remove_manifests planned in
      let cleared = remove_superseded s true plan.remove_manifests settled in
      (
        sym (
            sweep_tmp_orphans-report now fence d.temporaries cleared counted (
              remove_superseded-report plan.remove_manifests settled planned
                (settle_conflicts-report plan.conflicts (d, empty) (d, empty) refl))),
        sweep_tmp_orphans-disk now fence d.temporaries counted
            ∙ remove_superseded-disk plan.remove_manifests planned
            ∙ settle_conflicts-disk plan.conflicts (d, empty),
      )
