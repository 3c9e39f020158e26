-- ===== src/Vault/Operations/Deleted.antt =====
-- internal/vault/vault.go and manifest.go: a file that RemovePath has deleted does not come back with
-- the older copies of its record that a sync brings again.
use open_seavault_rclone.Shared.Int.{ℤ}
use open_seavault_rclone.Shared.{
  ◌≡◌, refl, sym, ap, ◌∙◌, String, Bool, true, false, not, none, some, List, [], ◌∷◌, ◌++◌, arith,
  All, All-of_Elem, Elem, str_eq, ◌&&◌, if◌then◌else◌, ◌⊎◌, inl, inr,
}
use mathlib.Core.Path.{subst}
use open_seavault_rclone.Vault.Clock.{Clock, is_empty, advance_clock, clock_dominates}
use open_seavault_rclone.Vault.Clock.Advance.{HasRoom, advance_dominates}
use open_seavault_rclone.Vault.Clock.Dominance.{IsClock, dominates_trans}
use open_seavault_rclone.Vault.Manifest.{
  ManifestRecord, Candidate, PlannedConflict, Host, clock_of, clocked, candidate_compare,
}
use open_seavault_rclone.Vault.Reconcile.{
  Fate, bool_eq, same_file_record, duplicate, older_tombstone, fate, place, settle, live_record,
  prune, assemble, reconcile,
}
use open_seavault_rclone.Vault.Reconcile.Antichain.{AreHonest, antichain_inhabited}
use open_seavault_rclone.Vault.Reconcile.Prune.{Supersedes, is_causally_dominated_iff, Elem-prune}
use open_seavault_rclone.Vault.Reconcile.Sort.{Elem-stable_sort}
use open_seavault_rclone.Vault.Reconcile.Winner.{sorted}

abbrev IsDeleted : Candidate → Type 0
IsDeleted c = c.rec.deleted ≡ true

-- A clock that dominates has an entry.
dominating_full : (a b : Clock) → clock_dominates a b ≡ true → not (is_empty a) ≡ true
unfolding clock_dominates
dominating_full [] b d = absurd (cc d)
dominating_full (e ∷ a) b d = refl

module _ (h : Host) where
  -- A deleted loser is no conflict.
  place-deleted :
      (p : String) (winner : ManifestRecord) (c : Candidate)
      (t : List PlannedConflict × List String)
      → IsDeleted c
      → (place h p c (fate h winner c.rec) t).0 ≡ t.0
  unfolding place fate
  place-deleted p winner c (cs, rs) d =
      by_tests (bool_eq c.rec.deleted winner.deleted && same_file_record c.rec.file winner.file)
        c.rec.deleted _ d
    where
      by_tests :
          (x b : Bool) (f : Fate)
          → b ≡ true
          → (place h p c (if x then duplicate else (if b then older_tombstone else f)) (cs, rs)).0
            ≡ cs
      by_tests true b f e = refl
      by_tests false true f e = refl
      by_tests false false f e = absurd (cc e)

  settle-deleted :
      (p : String) (winner : ManifestRecord) (cs : List Candidate)
      → All IsDeleted cs
      → (settle h p winner cs).0 ≡ []
  unfolding settle
  settle-deleted p winner [] d = refl
  settle-deleted p winner (c ∷ cs) d =
      place-deleted p winner c (settle h p winner cs) d.0 ∙ settle-deleted p winner cs d.1

  no_live : (c : Candidate) → IsDeleted c → live_record h c.rec ≡ none
  unfolding live_record
  no_live c d = rw d refl

  assemble-deleted :
      (p : String) (c : Candidate) (cs : List Candidate) (removed : List String)
      → All IsDeleted (c ∷ cs)
      → (removes : List String) × (assemble h p (c ∷ cs) removed ≡ some (none, [], removes))
  assemble-deleted p c cs removed d =
      let removes = removed ++ (settle h p c.rec cs).1 in
      (removes, λ i. some (no_live c d.0 i, settle-deleted p c.rec cs d.1 i, removes))

  -- Where a tombstone supersedes every other copy, the path has no live record and no conflict.
  superseded_by_tombstone :
      (p : String) (xs : List Candidate) (tomb : Candidate)
      → AreHonest xs
      → Elem tomb xs
      → IsDeleted tomb
      → ((c : Candidate) → Elem c xs → (c ≡ tomb) ⊎ Supersedes tomb c)
      → (removes : List String) × (reconcile h p xs ≡ some (none, [], removes))
  unfolding reconcile
  superseded_by_tombstone p [] tomb honest m dead over = absurd m
  superseded_by_tombstone p (x ∷ xs) tomb honest m dead over = from_sorted (sorted h (x ∷ xs)) refl
    where
      survivor :
          (c : Candidate)
          → Elem c (prune (x ∷ xs) (x ∷ xs)).0
          → (c ≡ tomb) ⊎ Supersedes tomb c
          → IsDeleted c
      survivor c n (inl e) = ap (λ (y : Candidate). y.rec.deleted) e ∙ dead
      survivor c n (inr s) =
          let free = ((Elem-prune (x ∷ xs) (x ∷ xs) c).0 n).1 in
          let taken = (is_causally_dominated_iff c (x ∷ xs)).1 (tomb, m, s) in
          absurd (ground (arith, free, taken))

      each :
          (ss : List Candidate) → sorted h (x ∷ xs) ≡ ss → (c : Candidate) → Elem c ss → IsDeleted c
      each ss e c n =
          let inside =
            (Elem-stable_sort (candidate_compare h) c (prune (x ∷ xs) (x ∷ xs)).0).0
              (subst (Elem c) (sym e) n) in
          survivor c inside (over c ((Elem-prune (x ∷ xs) (x ∷ xs) c).0 inside).0)

      from_sorted :
          (ss : List Candidate)
          → sorted h (x ∷ xs) ≡ ss
          → (removes : List String) × (assemble h p ss (prune (x ∷ xs) (x ∷ xs)).1
              ≡ some (none, [], removes))
      from_sorted [] e =
          let (c, n) = antichain_inhabited (x ∷ xs) honest x (inl refl) in
          let inside = (Elem-stable_sort (candidate_compare h) c (prune (x ∷ xs) (x ∷ xs)).0).1 n in
          absurd (subst (Elem c) e inside)
      from_sorted (w ∷ ls) e =
          assemble-deleted p w ls (prune (x ∷ xs) (x ∷ xs)).1
            (All-of_Elem IsDeleted (w ∷ ls) (each (w ∷ ls) e))

  -- For the clock that the deletion of a record with the clock `prev` writes: a tombstone with this
  -- clock, among honest copies of the path that are all in other files and have the clock `prev` or
  -- one that `prev` dominates, leaves the path without a live record and without a conflict, in
  -- whichever order the copies are read. The device has a name, `prev` is not empty, and the counters
  -- have room below the end of int64.
  pub stale_copies_stay_deleted :
      (dev : String) (prev : Clock) (wall : ℤ) (p : String) (xs : List Candidate) (tomb : Candidate)
      → str_eq dev "" ≡ false
      → is_empty prev ≡ false
      → IsClock prev
      → HasRoom dev prev wall
      → AreHonest xs
      → Elem tomb xs
      → tomb.rec.deleted ≡ true
      → clock_of tomb.rec ≡ advance_clock dev prev wall
      → ((c : Candidate)
          → Elem c xs
          → (c ≡ tomb)
            ⊎ ((str_eq tomb.source c.source ≡ false)
                × ((clock_of c.rec ≡ prev)
                    ⊎ ((clocked c.rec ≡ true) × (clock_dominates prev (clock_of c.rec) ≡ true)))))
      → (removes : List String) × (reconcile h p xs ≡ some (none, [], removes))
  stale_copies_stay_deleted dev prev wall p xs tomb named full w room honest m dead made stale =
      superseded_by_tombstone p xs tomb honest m dead (λ c n. over c n (stale c n))
    where
      up : clock_dominates (clock_of tomb.rec) prev ≡ true
      up =
          subst (λ t. clock_dominates t prev ≡ true) (sym made)
            (advance_dominates dev prev wall named full w room).0

      has : clocked tomb.rec ≡ true
      has = dominating_full (clock_of tomb.rec) prev up

      over :
          (c : Candidate)
          → Elem c xs
          → (c ≡ tomb)
            ⊎ ((str_eq tomb.source c.source ≡ false)
                × ((clock_of c.rec ≡ prev)
                    ⊎ ((clocked c.rec ≡ true) × (clock_dominates prev (clock_of c.rec) ≡ true))))
          → (c ≡ tomb) ⊎ Supersedes tomb c
      over c n (inl e) = inl e
      over c n (inr (other, inl e)) = inr (record {
        other_file = other;
        has_clock = has;
        over_clock = rw e (rw full refl);
        dominates = rw e up;
      })
      over c n (inr (other, inr (clocked_c, d))) = inr (record {
        other_file = other;
        has_clock = has;
        over_clock = clocked_c;
        dominates =
            dominates_trans (clock_of tomb.rec) prev (clock_of c.rec) (honest.clocks tomb m) w
              (honest.clocks c n) up d;
      })
