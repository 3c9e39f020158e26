-- ===== src/Vault/Reconcile/Losers.antt =====
-- internal/vault/manifest.go: what `reconcilePathCandidates` makes of every copy that does not win.
use open_seavault_rclone.Shared.{
  String, ◌≡◌, ◌≢◌, ◌⊎◌, inl, inr, refl, ap, true, false, not, Option, some, List, [], ◌∷◌, ◌++◌,
  map, arith, Elem, Bool-cases,
}
use mathlib.Core.Path.{subst, ap₂}
use text.Mathlib.TextEquality.{eq_iff}
use open_seavault_rclone.Shared.Dict.{string_eq}
use open_seavault_rclone.Shared.Int.{ℤ, pos, ◌≤ℤ◌, ◌<ℤ◌, eqb_ℤ, eq_of_parts}
use open_seavault_rclone.Vault.Clock.{Clock, is_empty}
use mathlib.Core.Option.{some-injective}
use open_seavault_rclone.Vault.Manifest.{
  ChunkRef, FileRecord, ManifestRecord, Candidate, PlannedConflict, Host, clock_of, clocked,
  unix_nano_or_now, normalize_record, candidate_compare,
}
use open_seavault_rclone.Vault.Reconcile.{
  Fate, duplicate, older_tombstone, suppressed, in_conflict, same_chunks, same_file_record,
  is_suppressed, is_causally_dominated, prune, fate, place, plan_conflict, settle, live_record,
  assemble, reconcile,
}
use open_seavault_rclone.Vault.Reconcile.Sort.{Elem-stable_sort}
use open_seavault_rclone.Vault.Reconcile.Prune.{Supersedes, is_causally_dominated_iff, Elem-prune}
use open_seavault_rclone.Vault.Reconcile.Winner.{sorted}

-- A fate by which a copy is removed, for good.
abbrev pub IsRemoval : Fate → Type 0
IsRemoval f = (f ≡ duplicate) ⊎ ((f ≡ older_tombstone) ⊎ (f ≡ suppressed))

module _ (h : Host) (p : String) where
  place-Elem :
      (l : Candidate) (f : Fate) (rest : List PlannedConflict × List String)
      → Elem (plan_conflict h p l) (place h p l f rest).0
        ⊎ (IsRemoval f × Elem l.source (place h p l f rest).1)
  unfolding place
  place-Elem l duplicate rest = inr (inl refl, inl refl)
  place-Elem l older_tombstone rest = inr (inr (inl refl), inl refl)
  place-Elem l suppressed rest = inr (inr (inr refl), inl refl)
  place-Elem l in_conflict rest = inl (inl refl)

  place_keeps :
      (l : Candidate) (f : Fate) (rest : List PlannedConflict × List String)
      → ((x : PlannedConflict) → Elem x rest.0 → Elem x (place h p l f rest).0)
        × ((s : String) → Elem s rest.1 → Elem s (place h p l f rest).1)
  unfolding place
  place_keeps l duplicate rest = (λ x m. m, λ s m. inr m)
  place_keeps l older_tombstone rest = (λ x m. m, λ s m. inr m)
  place_keeps l suppressed rest = (λ x m. m, λ s m. inr m)
  place_keeps l in_conflict rest = (λ x m. inr m, λ s m. m)

  -- A loser is planned as a conflict, or removed by one of the three tests.
  settle-Elem :
      (w : ManifestRecord) (ls : List Candidate) (c : Candidate)
      → Elem c ls
      → Elem (plan_conflict h p c) (settle h p w ls).0
        ⊎ (IsRemoval (fate h w c.rec) × Elem c.source (settle h p w ls).1)
  unfolding settle
  settle-Elem w [] c m = absurd m
  settle-Elem w (l ∷ ls) c (inl e) = rw e (place-Elem l (fate h w l.rec) (settle h p w ls))
  settle-Elem w (l ∷ ls) c (inr m) =
      let keeps = place_keeps l (fate h w l.rec) (settle h p w ls) in
      elim (settle-Elem w ls c m) [
        | inl x ↦ inl (keeps.0 (plan_conflict h p c) x)
        | inr x ↦ inr (x.0, keeps.1 c.source x.1)
      ]

abbrev pub id_and_size : ChunkRef → String × ℤ
id_and_size c = (c.id, c.size)

-- What two records with the same text share: the size, and the ids and sizes of the chunks in order.
abbrev pub contents : FileRecord → ℤ × List (String × ℤ)
contents f = (f.size, map id_and_size f.chunks)

-- A tombstone `w` that knows its generation, where one of the two has no clock, and an edit `c` whose
-- generation, or if it has none its instant, is not above it.
pub record Covers (h : Host) (w c : ManifestRecord) : Type 0 where
  pub is_deletion : w.deleted ≡ true
  pub known : pos 0 <ℤ w.deleted_generation
  pub unclocked : (clock_of w ≡ []) ⊎ (clock_of c ≡ [])
  pub not_above :
      ((c.file.generation ≡ pos 0) × (unix_nano_or_now h c.updated_at ≤ℤ w.deleted_generation))
      ⊎ ((c.file.generation ≢ pos 0) × (c.file.generation ≤ℤ w.deleted_generation))

-- Why a live copy is neither the live record nor a conflict: a later write saw it, a live winner
-- has its content, or the winner is a tombstone that covers it.
pub data Reason (h : Host) (xs : List Candidate) (w c : Candidate) : Type 0 where
  superseded : (d : Candidate) → Elem d xs → Supersedes d c → Reason h xs w c
  same_content : w.rec.deleted ≡ false → contents c.rec.file ≡ contents w.rec.file → Reason h xs w c
  covered : Covers h w.rec c.rec → Reason h xs w c

same_chunks-contents :
    (xs ys : List ChunkRef) → same_chunks xs ys ≡ true → map id_and_size xs ≡ map id_and_size ys
unfolding same_chunks
same_chunks-contents [] [] e = refl
same_chunks-contents [] (y ∷ ys) e = absurd (ground arith)
same_chunks-contents (x ∷ xs) [] e = absurd (ground arith)
same_chunks-contents (x ∷ xs) (y ∷ ys) e =
    let rest = same_chunks-contents xs ys (ground arith) in
    let id : x.id ≡ y.id = (eq_iff x.id y.id).0 (ground arith) in
    let size : x.size ≡ y.size = eq_of_parts x.size y.size (ground arith) in
    ap₂ ◌∷◌ (ap₂ (λ (i : String) (n : ℤ). (i, n)) id size) rest

same_file_record-contents :
    (a b : FileRecord) → same_file_record a b ≡ true → contents a ≡ contents b
unfolding same_file_record
same_file_record-contents a b e =
    let size : a.size ≡ b.size = eq_of_parts a.size b.size (ground arith) in
    let chunks = same_chunks-contents a.chunks b.chunks (ground arith) in
    ap₂ (λ (n : ℤ) (l : List (String × ℤ)). (n, l)) size chunks

no_clock : (r : ManifestRecord) → clocked r ≡ false → clock_of r ≡ []
no_clock r e = empty (clock_of r) e
  where
    empty : (c : Clock) → not (is_empty c) ≡ false → c ≡ []
    empty [] e = refl
    empty (x ∷ xs) e = absurd (ground arith)

is_suppressed-Covers : (h : Host) (w c : ManifestRecord) → is_suppressed h w c ≡ true → Covers h w c
unfolding is_suppressed
is_suppressed-Covers h w c e = record {
  is_deletion = ground arith;
  known = ground arith;
  unclocked = elim (Bool-cases (clocked w)) [
    | inr n ↦ inl (no_clock w n)
    | inl y ↦ inr (no_clock c (ground arith))
  ];
  not_above = elim (Bool-cases (eqb_ℤ c.file.generation (pos 0))) [
    | inl y ↦ inl (eq_of_parts c.file.generation (pos 0) (ground arith), ground arith)
    | inr n ↦ inr ((λ z. let q = ap (λ (g : ℤ). eqb_ℤ g (pos 0)) z in ground arith), ground arith)
  ];
}

removal_reason :
    (h : Host) (w c : ManifestRecord)
    → c.deleted ≡ false
    → IsRemoval (fate h w c)
    → ((w.deleted ≡ false) × (same_file_record c.file w.file ≡ true)) ⊎ (is_suppressed h w c ≡ true)
unfolding fate
removal_reason h w c live r = ground arith

-- What becomes of a live copy.
abbrev pub Outcome :
    (h : Host)
    → String
    → List Candidate
    → Candidate
    → Option FileRecord × List PlannedConflict × List String
    → Type 0
Outcome h p xs c r =
    (r.0 ≡ some (normalize_record h c.rec.file c.rec.updated_at))
    ⊎ (Elem (plan_conflict h p c) r.1
        ⊎ ((w : Candidate) × Elem w xs × (r.0 ≡ live_record h w.rec) × Reason h xs w c))

module _ (h : Host) (p : String) (all : List Candidate) (c : Candidate)
    (live : c.rec.deleted ≡ false) where
  live_winner : live_record h c.rec ≡ some (normalize_record h c.rec.file c.rec.updated_at)
  unfolding live_record
  live_winner = rw live

  -- Of a copy that survived the pruning, below the winner `w`.
  surviving :
      (w : Candidate) (ls : List Candidate) (removed : List String)
      → Elem w all
      → Elem c (w ∷ ls)
      → let (conflicts, removes) = settle h p w.rec ls in
        Outcome h p all c (live_record h w.rec, conflicts, removed ++ removes)
  surviving w ls removed mw (inl e) = inl (rw (← e) live_winner)
  surviving w ls removed mw (inr m) = elim (settle-Elem h p w.rec ls c m) [
    | inl x ↦ inr (inl x)
    | inr x ↦ inr (
        inr (
          w,
          mw,
          refl,
          elim (removal_reason h w.rec c.rec live x.0) [
            | inl s ↦ same_content s.0 (same_file_record-contents c.rec.file w.rec.file s.1)
            | inr s ↦ covered (is_suppressed-Covers h w.rec c.rec s)
          ],
        ))
  ]

  account :
      (ss : List Candidate) (r : Option FileRecord × List PlannedConflict × List String)
      → sorted h all ≡ ss
      → assemble h p ss (prune all all).1 ≡ some r
      → Elem c all
      → Outcome h p all c r
  account [] r q e m = absurd (ground arith)
  account (w ∷ ls) r q e m =
      let kept = (prune all all).0 in
      let of_sorted = λ (d : Candidate). Elem-stable_sort (candidate_compare h) d kept in
      let mw = ((Elem-prune all all w).0 ((of_sorted w).0 (rw q (inl refl)))).0 in
      subst (λ s. Outcome h p all c s) (some-injective _ _ e)
        (elim (Bool-cases (is_causally_dominated c all)) [
          | inl y ↦
              let d = (is_causally_dominated_iff c all).0 y in
              inr (inr (w, mw, refl, superseded d.0 d.1 d.2))
          | inr n ↦
              let here = (of_sorted c).1 ((Elem-prune all all c).1 (m, n)) in
              surviving w ls (prune all all).1 mw (rw q at here)
        ])

-- No edit is lost: where the reconciliation returns, each live copy of a path becomes the live
-- record, or a conflict, or there is a reason why it need not. Either another copy's clock dominates
-- its clock; or the winner is live and has its size and its chunks; or the winner is a tombstone of a
-- positive generation, one of the two has no clock, and the generation of the copy, which is its
-- instant where it has none, is not above that of the tombstone.
pub no_edit_lost :
    (h : Host) (p : String) (xs : List Candidate) (c : Candidate)
    (r : Option FileRecord × List PlannedConflict × List String)
    → reconcile h p xs ≡ some r
    → Elem c xs
    → c.rec.deleted ≡ false
    → Outcome h p xs c r
unfolding reconcile
no_edit_lost h p [] c r e m live = absurd m
no_edit_lost h p (x ∷ xs) c r e m live = account h p (x ∷ xs) c live (sorted h (x ∷ xs)) r refl e m
