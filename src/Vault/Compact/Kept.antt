-- ===== src/Vault/Compact/Kept.antt =====
-- internal/vault/compact.go: a planned conflict where writes and removals fail.
use mathlib.Core.Path.{subst}
use text.Mathlib.TextPositions.{eq_refl}
use text.Mathlib.TextEquality.{eq_iff}
use open_seavault_rclone.Shared.Dict.{Dict, get, put, remove, string_eq, get-put, get-remove}
use open_seavault_rclone.Shared.{
  ℕ, ◌+◌, String, ◌≡◌, ◌≢◌, ◌⊎◌, inl, inr, refl, sym, ◌∙◌, true, false, some, List, [], ◌∷◌, ltb,
  str_eq, All, Bool-cases,
}
use open_seavault_rclone.Vault.Manifest.{ManifestRecord, PlannedConflict}
use open_seavault_rclone.Vault.Compact.{
  System, Disk, Plan, Failure, CompactReport, file_manifest, remove_file, materialise,
  settle_conflict, settle_conflicts, remove_one, sweep_one, remove_superseded, sweep_tmp_orphans,
  compact, not_superseded, not_removed,
}

module _ (s : System) (c : PlannedConflict) (m : ManifestRecord) where
  -- The edit of the conflict is on the disk: under its own path, or still in the file it lay in.
  abbrev pub IsKept : Disk → Type 0
  IsKept d =
      (get (s.manifest_file c.path) d.manifests ≡ some (file_manifest s c.path c.rec))
      ⊎ (get c.source d.manifests ≡ some m)

  -- The file is neither the manifest of the conflict nor its source.
  abbrev pub IsElsewhere : String → Type 0
  IsElsewhere p = (p ≢ s.manifest_file c.path) × (p ≢ c.source)

  abbrev pub IsApart : PlannedConflict → Type 0
  IsApart other = IsElsewhere (s.manifest_file other.path) × IsElsewhere other.source

  -- Another planned conflict that writes the very same manifest, and whose source is another file:
  -- two devices, or two copies on one disk, settle the same conflict alike.
  abbrev pub IsTwin : PlannedConflict → Type 0
  IsTwin other =
      (s.manifest_file other.path ≡ s.manifest_file c.path)
      × (file_manifest s other.path other.rec ≡ file_manifest s c.path c.rec)
      × (other.source ≢ s.manifest_file c.path)

  differs : (a b : String) → a ≢ b → str_eq a b ≡ false
  differs a b h = elim (Bool-cases (str_eq a b)) [
    | inl y ↦ absurd (h ((eq_iff a b).0 y))
    | inr n ↦ n
  ]

  get-remove_other :
      (p q : String) (d : Dict String ManifestRecord) → p ≢ q → get q (remove p d) ≡ get q d
  get-remove_other p q d h = get-remove p q d ∙ rw (differs p q h) refl

  get-put_other :
      (p q : String) (v : ManifestRecord) (d : Dict String ManifestRecord)
      → p ≢ q
      → get q (put p v d) ≡ get q d
  get-put_other p q v d h = get-put p q v d ∙ rw (differs p q h) refl

  remove_file-IsKept :
      (f : Failure) (p : String) (d : Disk) (r : CompactReport)
      → IsElsewhere p
      → IsKept d
      → IsKept (remove_file s f p (d, r)).0
  unfolding remove_file
  remove_file-IsKept f p d r h k = elim (Bool-cases (s.removes p)) [
    | inr n ↦ rw n k
    | inl y ↦ rw y (after k)
  ]
    where
      after : IsKept d → IsKept (record d { manifests = remove p d.manifests })
      after (inl a) = inl (get-remove_other p (s.manifest_file c.path) d.manifests h.0 ∙ a)
      after (inr a) = inr (get-remove_other p c.source d.manifests h.1 ∙ a)

  materialise-other :
      (other : PlannedConflict) (d : Disk) (r : CompactReport)
      → IsApart other
      → IsKept d
      → IsKept (materialise s other (d, r)).0
  unfolding materialise
  materialise-other other d r h k = elim (Bool-cases (s.writes other.path)) [
    | inr n ↦ rw n k
    | inl y ↦ rw y (remove_file-IsKept (not_superseded other.source) other.source _ _ h.1 (after k))
  ]
    where
      after :
          IsKept d
          → IsKept (record d {
            manifests =
                put (s.manifest_file other.path) (file_manifest s other.path other.rec) d.manifests;
          })
      after (inl a) = inl (
          get-put_other (s.manifest_file other.path) (s.manifest_file c.path)
            (file_manifest s other.path other.rec) d.manifests h.0.0
          ∙ a)
      after (inr a) = inr (
          get-put_other (s.manifest_file other.path) c.source (file_manifest s other.path other.rec)
            d.manifests h.0.1
          ∙ a)

  -- The conflict itself, or a twin: its source is removed only after its manifest was written.
  materialise-IsKept :
      (other : PlannedConflict) (d : Disk) (r : CompactReport)
      → IsTwin other
      → IsKept d
      → IsKept (materialise s other (d, r)).0
  unfolding materialise remove_file
  materialise-IsKept other d r (target, same, own) k = elim (Bool-cases (s.writes other.path)) [
    | inr n ↦ rw n k
    | inl y ↦ elim (Bool-cases (s.removes other.source)) [
      | inr n ↦ rw (y, n) (inl put_there)
      | inl z ↦
          rw (y, z)
            (inl (
              get-remove_other other.source (s.manifest_file c.path)
                (put (s.manifest_file other.path) (file_manifest s other.path other.rec)
                  d.manifests)
                own
              ∙ put_there))
    ]
  ]
    where
      put_there :
          get
            (s.manifest_file c.path)
            (put (s.manifest_file other.path) (file_manifest s other.path other.rec) d.manifests)
          ≡ some (file_manifest s c.path c.rec)
      put_there =
          (λ i. get (s.manifest_file c.path) (put (target i) (same i) d.manifests))
          ∙ get-put (s.manifest_file c.path) (s.manifest_file c.path) (file_manifest s c.path c.rec)
              d.manifests
          ∙ rw (eq_refl (s.manifest_file c.path)) refl

  settle_conflicts-IsKept :
      (cs : List PlannedConflict) (t : Disk × CompactReport)
      → All (λ (o : PlannedConflict). IsTwin o ⊎ IsApart o) cs
      → IsKept t.0
      → IsKept (settle_conflicts s true cs t).0
  unfolding settle_conflicts settle_conflict
  settle_conflicts-IsKept [] t a k = k
  settle_conflicts-IsKept (o ∷ cs) t (a, as_) k =
      settle_conflicts-IsKept cs (materialise s o t) as_ (one a)
    where
      one : IsTwin o ⊎ IsApart o → IsKept (materialise s o t).0
      one (inl twin) = materialise-IsKept o t.0 t.1 twin k
      one (inr apart) = materialise-other o t.0 t.1 apart k

  remove_superseded-IsKept :
      (ps : List String) (t : Disk × CompactReport)
      → All IsElsewhere ps
      → IsKept t.0
      → IsKept (remove_superseded s true ps t).0
  unfolding remove_superseded remove_one
  remove_superseded-IsKept [] t a k = k
  remove_superseded-IsKept (p ∷ ps) t a k =
      remove_superseded-IsKept ps (remove_file s (not_removed p) p t) a.1
        (remove_file-IsKept (not_removed p) p t.0 t.1 a.0 k)

  sweep_one-manifests :
      (now fence : ℕ) (p : String × ℕ) (t : Disk × CompactReport)
      → (sweep_one s true now fence p t).0.manifests ≡ t.0.manifests
  unfolding sweep_one
  sweep_one-manifests now fence (p, time) (d, r) = elim (Bool-cases (ltb now (time + fence))) [
    | inl young ↦ rw young refl
    | inr old ↦ elim (Bool-cases (s.removes p)) [
      | inl y ↦ rw (old, y) refl
      | inr n ↦ rw (old, n) refl
    ]
  ]

  sweep_tmp_orphans-manifests :
      (now fence : ℕ) (ts : Dict String ℕ) (t : Disk × CompactReport)
      → (sweep_tmp_orphans s true now fence ts t).0.manifests ≡ t.0.manifests
  unfolding sweep_tmp_orphans
  sweep_tmp_orphans-manifests now fence [] t = refl
  sweep_tmp_orphans-manifests now fence (p ∷ ts) t =
      sweep_tmp_orphans-manifests now fence ts (sweep_one s true now fence p t)
      ∙ sweep_one-manifests now fence p t

  -- Whichever writes and removals fail, after a compaction the edit of a conflict whose source was on
  -- the disk is there: as the manifest of its own path, or still in its source. Each planned conflict
  -- (this one included) either writes the same manifest from a source that is not that manifest's
  -- file, or has a file and a source apart from the two of this one; and neither of the two is among
  -- the files to be removed.
  pub compact-IsKept :
      (now fence : ℕ) (plan : Plan) (d : Disk)
      → All (λ (o : PlannedConflict). IsTwin o ⊎ IsApart o) plan.conflicts
      → All IsElsewhere plan.remove_manifests
      → get c.source d.manifests ≡ some m
      → IsKept (compact s true now fence plan d).0
  unfolding compact
  compact-IsKept now fence plan d a b k =
      let empty : CompactReport = record {
        conflicts = [];
        removed_manifests = 0;
        tmp_orphans = [];
        errors = [];
      } in
      let settled = settle_conflicts s true plan.conflicts (d, empty) in
      let cleared = remove_superseded s true plan.remove_manifests settled in
      let kept =
        remove_superseded-IsKept plan.remove_manifests settled b
          (settle_conflicts-IsKept plan.conflicts (d, empty) a (inr k)) in
      subst
        (λ (x : Dict String ManifestRecord).
          (get (s.manifest_file c.path) x ≡ some (file_manifest s c.path c.rec))
          ⊎ (get c.source x ≡ some m))
        (sym (sweep_tmp_orphans-manifests now fence d.temporaries cleared)) kept
