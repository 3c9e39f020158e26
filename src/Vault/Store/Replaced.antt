-- ===== src/Vault/Store/Replaced.antt =====
-- internal/vault/manifest.go: the walk of `loadManifestIndex` after one manifest file was written, where
-- no other file holds a copy of the path: the copies of the path are the written one.
use text.Mathlib.TextPositions.{eq_refl}
use mathlib.Core.Path.{subst}
use open_seavault_rclone.Shared.Dict.{get, put, string_eq, Distinct}
use open_seavault_rclone.Shared.{
  ◌≡◌, refl, sym, ap, ◌∙◌, String, Bool, true, false, Option, none, some, List, [], ◌∷◌, ◌++◌,
  arith, eq_iff, str_eq, ◌⊎◌, inl, inr, Bool-cases, if◌then◌else◌,
}
use open_seavault_rclone.Vault.Manifest.{Candidate, Host}
use open_seavault_rclone.Vault.Reconcile.{
  reconcile, is_causally_dominated, dominated_by_some, live_record,
}
use open_seavault_rclone.Vault.Store.{Codec, StoredFile, Files}
use open_seavault_rclone.Vault.Store.Grouped.{copy_if, copies_of}
use open_seavault_rclone.Vault.Store.Load.{
  Visit, skipped, failed, found, visit, group_path, at_path,
}
use open_seavault_rclone.Vault.Store.Sound.{IsSound, AreSound, found_copy, found_in}

module _ (k : Codec) (p : String) where
  -- The copies of the path in one file.
  abbrev pub copies_in : Visit → List Candidate
  copies_in v = copies_of k p (found_copy v [])

  -- Every file but the one at `key` holds no copy of the path.
  abbrev pub OnlyAt : String → Files → Type 0
  OnlyAt key [] = Unit
  OnlyAt key ((source, f) ∷ files) =
      ((str_eq source key ≡ true) ⊎ (copies_in (visit k source f) ≡ [])) × OnlyAt key files

  copies_of-found_copy :
      (v : Visit) (cs : List Candidate)
      → copies_of k p (found_copy v cs) ≡ copies_in v ++ copies_of k p cs
  copies_of-found_copy skipped cs = refl
  copies_of-found_copy failed cs = refl
  copies_of-found_copy (found c) cs = at_path_of (group_path k c)
    where
      at_key :
          (path : String) (b : Bool)
          → (if b then at_path path c ∷ [] else []) ++ copies_of k p cs
            ≡ ((if b then at_path path c ∷ [] else []) ++ []) ++ copies_of k p cs
      at_key path true = refl
      at_key path false = refl

      at_path_of :
          (o : Option String)
          → copy_if p o c ++ copies_of k p cs ≡ (copy_if p o c ++ []) ++ copies_of k p cs
      at_path_of none = refl
      at_path_of (some path) = at_key path (str_eq path p)

  copies-found :
      (c : Candidate) (cs : List Candidate)
      → group_path k c ≡ some p
      → copies_of k p cs ≡ []
      → copies_of k p (c ∷ cs) ≡ at_path p c ∷ []
  copies-found c cs g rest = rw (g, eq_refl p, rest) refl

  module _ (key : String) where
    none_elsewhere :
        (files : Files)
        → get key files ≡ none
        → OnlyAt key files
        → copies_of k p (found_in k files) ≡ []
    unfolding get
    none_elsewhere [] free o = refl
    none_elsewhere ((source, f) ∷ files) free (at_file, o) =
        copies_of-found_copy (visit k source f) (found_in k files)
        ∙ skip at_file (none_elsewhere files (ground arith) o)
      where
        skip :
            (str_eq source key ≡ true) ⊎ (copies_in (visit k source f) ≡ [])
            → copies_of k p (found_in k files) ≡ []
            → copies_in (visit k source f) ++ copies_of k p (found_in k files) ≡ []
        skip (inl same) rest = absurd (ground arith)
        skip (inr empty) rest = rw empty rest

    pub copies-put :
        (f : StoredFile) (c : Candidate) (files : Files)
        → visit k key f ≡ found c
        → group_path k c ≡ some p
        → Distinct files
        → OnlyAt key files
        → copies_of k p (found_in k (put key f files)) ≡ at_path p c ∷ []
    unfolding put get
    copies-put f c [] v g d o =
        ap (λ (w : Visit). copies_of k p (found_copy w [])) v ∙ copies-found c [] g refl
    copies-put f c ((source, old) ∷ files) v g d (at_file, o) =
        at_key (str_eq source key) refl (copies-put f c files v g d.1 o)
      where
        at_key :
            (b : Bool)
            → str_eq source key ≡ b
            → copies_of k p (found_in k (put key f files)) ≡ at_path p c ∷ []
            → copies_of k p
                (found_in k (if b then (source, f) ∷ files else (source, old) ∷ put key f files))
              ≡ at_path p c ∷ []
        at_key true same rest =
            let here = (eq_iff source key).0 same in
            ap (λ (t : String). copies_of k p (found_copy (visit k t f) (found_in k files))) here
            ∙ (ap (λ (w : Visit). copies_of k p (found_copy w (found_in k files))) v
                ∙ copies-found c (found_in k files) g
                    (none_elsewhere files (subst (λ t. get t files ≡ none) here d.0) o))
        at_key false other rest =
            copies_of-found_copy (visit k source old) (found_in k (put key f files)) ∙ skip at_file
          where
            skip :
                (str_eq source key ≡ true) ⊎ (copies_in (visit k source old) ≡ [])
                → copies_in (visit k source old) ++ copies_of k p (found_in k (put key f files))
                  ≡ at_path p c ∷ []
            skip (inl same) = absurd (ground arith)
            skip (inr empty) = rw empty rest

  pub AreSound-put :
      (key : String) (f : StoredFile) (files : Files)
      → IsSound (visit k key f)
      → AreSound k files
      → AreSound k (put key f files)
  unfolding put
  AreSound-put key f [] s all = (s, tt)
  AreSound-put key f ((source, old) ∷ files) s all = elim (Bool-cases (str_eq source key)) [
    | inl same ↦
        rw same (subst (λ t. IsSound (visit k t f)) (sym ((eq_iff source key).0 same)) s, all.1)
    | inr other ↦ rw other (all.0, AreSound-put key f files s all.1)
  ]

-- A single copy is the winner, with nothing planned.
not_dominated : (c : Candidate) → is_causally_dominated c (c ∷ []) ≡ false
unfolding is_causally_dominated dominated_by_some
not_dominated c = let e = eq_refl c.source in ground (arith, e)

pub reconcile-single :
    (h : Host) (p : String) (c : Candidate)
    → reconcile h p (c ∷ []) ≡ some (live_record h c.rec, [], [])
unfolding reconcile
reconcile-single h p c = rw (not_dominated c) refl
