-- ===== src/Vault/Store/Returned.antt =====
-- internal/vault/manifest.go: on files that can be read and hold honest clocks `loadManifestIndex`
-- returns an index, and the index has the outcome of each path's reconciliation.
use mathlib.Core.Path.{subst}
use open_seavault_rclone.Shared.Dict.{get, string_eq, Distinct, get_of_Elem}
use open_seavault_rclone.Shared.Int.{ℤ}
use open_seavault_rclone.Shared.{
  ◌≡◌, refl, sym, ap, ◌∙◌, String, some, List, [], ◌∷◌, Elem, inl, inr,
}
use open_seavault_rclone.Vault.Manifest.{Candidate, Host}
use open_seavault_rclone.Vault.Reconcile.{reconcile}
use open_seavault_rclone.Vault.Reconcile.Winner.{reconcile_returns}
use open_seavault_rclone.Vault.Store.{Codec, Files}
use open_seavault_rclone.Vault.Store.Grouped.{
  copies_of, listed, by_path-Distinct, by_path-copies_of,
}
use open_seavault_rclone.Vault.Store.Load.{
  Groups, Loaded, is_there, by_path, entered_state, empty_load, settle_groups, index_of,
  load_manifest_index,
}
use open_seavault_rclone.Vault.Store.Placed.{Settled, settle_groups-at}
use open_seavault_rclone.Vault.Store.Sound.{AreSound, found_in, walk-found_in, copies-AreHonest}

-- The reconciliation of every group has an outcome.
abbrev Reconciles : Host → Groups → Type 0
Reconciles h [] = Unit
Reconciles h ((p, list) ∷ rest) =
    ((r : Settled) × (reconcile h p list ≡ some r)) × Reconciles h rest

settle_groups-returns :
    (h : Host) (groups rest : Groups) (st : Loaded)
    → Reconciles h rest
    → (st' : Loaded) × (settle_groups h groups rest st ≡ some st')
unfolding settle_groups
settle_groups-returns h groups [] st all = (st, refl)
settle_groups-returns h groups ((p, list) ∷ rest) st ((r, e), all) =
    let t = settle_groups-returns h groups rest (entered_state groups p r st) all in (t.0, rw e t.1)

Reconciles-of_Elem :
    (h : Host) (rest : Groups)
    → ((p : String) (list : List Candidate)
        → Elem (p, list) rest
        → (r : Settled) × (reconcile h p list ≡ some r))
    → Reconciles h rest
Reconciles-of_Elem h [] each = tt
Reconciles-of_Elem h ((p, list) ∷ rest) each =
    (each p list (inl refl), Reconciles-of_Elem h rest (λ q l m. each q l (inr m)))

listed-some : (xs list : List Candidate) → listed xs ≡ some list → xs ≡ list
listed-some [] list e = absurd (cc e)
listed-some (x ∷ xs) list e = cc e

module _ (h : Host) (k : Codec) (files : Files) (d : Distinct files) (s : AreSound k files) where
  abbrev groups_in : Groups
  groups_in = by_path k [] (found_in k files)

  abbrev copies_at : String → List Candidate
  copies_at p = copies_of k p (found_in k files)

  reconciled_at : (p : String) → (r : Settled) × (reconcile h p (copies_at p) ≡ some r)
  reconciled_at p = reconcile_returns h p (copies_at p) (copies-AreHonest k files p d s)

  groups_in-Reconciles : Reconciles h groups_in
  groups_in-Reconciles = Reconciles-of_Elem h groups_in (λ p list m.
      let own = get_of_Elem p list groups_in (by_path-Distinct k [] (found_in k files) tt) m in
      let same =
        listed-some (copies_at p) list (sym (by_path-copies_of k p (found_in k files)) ∙ own) in
      subst (λ l. (r : Settled) × (reconcile h p l ≡ some r)) same (reconciled_at p))

  index_in :
      (seen : ℤ)
      → (load_manifest_index h k seen files).1 ≡ settle_groups h groups_in groups_in empty_load
  unfolding load_manifest_index
  index_in seen = ap (index_of h k) (walk-found_in k seen files s)

  -- Where every file of the manifest store can be read, and holds a record with an honest clock if
  -- it holds one, the load gives an index.
  pub load_returns : (seen : ℤ) → (st : Loaded) × ((load_manifest_index h k seen files).1 ≡ some st)
  load_returns seen =
      let t = settle_groups-returns h groups_in groups_in empty_load groups_in-Reconciles in
      (t.0, index_in seen ∙ t.1)

  -- There, the load gives an index that has at each path with copies of its own exactly the live
  -- record that the reconciliation of all copies of this path, in the order of the walk, comes to,
  -- and nothing where it comes to a deletion: no copy of another path changes it.
  pub loaded_at :
      (seen : ℤ) (p : String) (c : Candidate) (cs : List Candidate)
      → copies_of k p (found_in k files) ≡ c ∷ cs
      → (st : Loaded) × ((load_manifest_index h k seen files).1 ≡ some st)
        × (r : Settled) × (reconcile h p (c ∷ cs) ≡ some r)
        × (get p st.files ≡ r.0)
  unfolding get
  loaded_at seen p c cs e =
      let t = load_returns seen in
      let r = reconciled_at p in
      let rec : reconcile h p (c ∷ cs) ≡ some r.0 = subst (λ l. reconcile h p l ≡ some r.0) e r.1 in
      let own : get p groups_in ≡ some (c ∷ cs) =
        by_path-copies_of k p (found_in k files) ∙ ap listed e in
      (
        t.0,
        t.1,
        r.0,
        rec,
        settle_groups-at h groups_in groups_in p (c ∷ cs) empty_load t.0 r.0 (ap is_there own)
            (by_path-Distinct k [] (found_in k files) tt) own rec refl (sym (index_in seen) ∙ t.1),
      )
