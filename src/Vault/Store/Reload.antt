-- ===== src/Vault/Store/Reload.antt =====
-- internal/vault/manifest.go: what a load finds after `saveFileManifest` or `saveTombstoneWithClock`.
-- `IsStable p` says that the cleaning leaves the path as it is: the path is cleaned again by the
-- save and by the load.
use text.Mathlib.TextPositions.{eq_refl}
use mathlib.Core.Path.{subst}
use open_seavault_rclone.Shared.Dict.{get, put, string_eq, Distinct, put-Distinct}
use open_seavault_rclone.Shared.Int.{ℤ}
use open_seavault_rclone.Shared.{
  ◌≡◌, refl, sym, ap, ◌∙◌, String, false, Option, some, List, [], arith, str_eq,
}
use open_seavault_rclone.Vault.Clock.Dominance.{IsClock}
use open_seavault_rclone.Vault.Manifest.{
  FileRecord, ManifestRecord, Candidate, PlannedConflict, Host, clock_of,
}
use Prim.Native.String.{◌++◌ as append}
use open_seavault_rclone.Vault.Path.{is_blank, clean_virtual_path}
use open_seavault_rclone.Vault.Reconcile.{live_record}
use open_seavault_rclone.Vault.Store.{Codec, Files, manifest_id, manifest_path, stored_file}
use open_seavault_rclone.Vault.Store.Load.{
  Loaded, found, visit, group_path, at_path, load_manifest_index,
}
use open_seavault_rclone.Vault.Store.Replaced.{OnlyAt, copies-put, AreSound-put, reconcile-single}
use open_seavault_rclone.Vault.Store.Returned.{loaded_at}
use open_seavault_rclone.Vault.Store.Saved.{IsCodec, visit-stored}
use open_seavault_rclone.Vault.Store.Sound.{IsSound, AreSound}

pub record IsStable (p : String) : Type 0 where
  pub cleaned : clean_virtual_path p ≡ some p
  pub not_empty : str_eq p "" ≡ false

not_blank : (p : String) → str_eq p "" ≡ false → is_blank p ≡ false
not_blank String.[] e = cc (eq_refl "")
not_blank (String.◌∷◌ c s) e = refl

-- The store before a write: each path once, files that can be read, and no copy of `p` outside the
-- file that `p` is written to.
pub record IsReady (k : Codec) (p : String) (files : Files) : Type 0 where
  pub distinct : Distinct files
  pub sound : AreSound k files
  pub alone : OnlyAt k p (manifest_path (manifest_id k p)) files

-- The file of a path, and the store after a record was written to it.
abbrev pub key : Codec → String → String
key k p = manifest_path (manifest_id k p)

abbrev pub written : Codec → String → ManifestRecord → Files → Files
written k p m files = put (key k p) (stored_file k (manifest_id k p) m) files

module _ (h : Host) (k : Codec) (p : String) (stable : IsStable p) where
  group_path-written :
      (c : Candidate) → c.rec.path ≡ p → c.id ≡ manifest_id k p → group_path k c ≡ some p
  unfolding group_path
  group_path-written c e i =
      let clean : clean_virtual_path c.rec.path ≡ some p =
        ap clean_virtual_path e ∙ stable.cleaned in
      let same = eq_refl (manifest_id k p) in ground (arith, clean, stable.not_empty, i, same)

  -- A record that is written alone is what the next load enters.
  pub written-load :
      (m : ManifestRecord) (files : Files) (seen : ℤ)
      → IsCodec k m
      → IsReady k p files
      → m.path ≡ p
      → IsClock (clock_of m)
      → (st : Loaded) × ((load_manifest_index h k seen (written k p m files)).1 ≡ some st)
        × (get p st.files ≡ live_record h m)
  unfolding live_record clock_of
  written-load m files seen codec ready e clock =
      let c : Candidate = record {
        rec = m;
        id = manifest_id k p;
        name = append (manifest_id k p) ".manifest";
        source = key k p;
      } in
      let f = stored_file k (manifest_id k p) m in
      let v : visit k (key k p) f ≡ found c =
        visit-stored k (key k p) p m codec (ap is_blank e ∙ not_blank p stable.not_empty) in
      let sound = subst IsSound (sym v) clock in
      let t =
        loaded_at h k (written k p m files) (put-Distinct (key k p) f files ready.distinct)
          (AreSound-put k p (key k p) f files sound ready.sound) seen p (at_path p c) []
          (copies-put k p (key k p) f c files v (group_path-written c e refl) ready.distinct
            ready.alone) in
      let (st, load, r, rec, entry) = t in
      (st, load, entry ∙ outcome r (sym rec ∙ reconcile-single h p (at_path p c)))
    where
      outcome :
          (r : Option FileRecord × List PlannedConflict × List String)
          → some r ≡ some (live_record h m, [], [])
          → r.0 ≡ live_record h m
      outcome r e = cc
