-- ===== src/Vault/Reconcile/Winner.antt =====
-- internal/vault/manifest.go: `reconcilePathCandidates` always elects a winner, and where all copies
-- carry a clock the winner does not depend on the order in which they are read.
use Prim.Native.Nat.{Ordering}
use text.Mathlib.TextEquality.{path_by_compare}
use open_seavault_rclone.Shared.Order.{is_gt, or_else, compare_bool, eq_of_not_gt}
use open_seavault_rclone.Shared.{
  String, ◌≡◌, inl, inr, refl, sym, ◌∙◌, Bool, true, false, Option, some, List, [], ◌∷◌, arith, All,
  Elem, All-Elem, All-of_Elem, Bool-cases,
}
use open_seavault_rclone.Vault.Clock.{clock_dominates}
use open_seavault_rclone.Vault.Manifest.{
  FileRecord, Candidate, PlannedConflict, Host, clock_of, clocked, content_key, clock_string,
  concurrent_tiebreak, candidate_compare,
}
use open_seavault_rclone.Vault.Manifest.Order.{tiebreak-IsOrder}
use open_seavault_rclone.Vault.Reconcile.{prune, stable_sort, assemble, reconcile}
use open_seavault_rclone.Vault.Reconcile.Sort.{Elem-stable_sort}
use open_seavault_rclone.Vault.Reconcile.Largest.{Tops, sort_first, stable_sort_agrees}
use open_seavault_rclone.Vault.Reconcile.Prune.{
  SameCandidates, is_causally_dominated_iff, is_causally_dominated_same, Elem-prune,
}
use open_seavault_rclone.Vault.Reconcile.Antichain.{
  AreHonest, Supersedes-of_dominates, antichain_inhabited,
}

abbrev pub sorted : Host → List Candidate → List Candidate
sorted h xs = stable_sort (candidate_compare h) (prune xs xs).0

tie_parts :
    (o p q : Ordering)
    → or_else o (or_else p q) ≡ Ordering.eq
    → (o ≡ Ordering.eq) × (p ≡ Ordering.eq) × (q ≡ Ordering.eq)
tie_parts o p q e = ground arith

bool_of_tie : (a b : Bool) → compare_bool a b ≡ Ordering.eq → a ≡ b
bool_of_tie a b e = ground arith

-- The pruning keeps the same candidates of the same list.
crossing :
    (xs ys : List Candidate)
    → SameCandidates xs ys
    → (c : Candidate) → Elem c (prune xs xs).0
    → Elem c (prune ys ys).0
crossing xs ys same c m =
    let t = (Elem-prune xs xs c).0 m in
    (Elem-prune ys ys c).1 ((same c).0 t.0, sym (is_causally_dominated_same c xs ys same) ∙ t.1)

module _ (h : Host) where
  -- On honest copies of a path the reconciliation returns: `sorted[0]` is never out of range.
  pub reconcile_returns :
      (p : String) (xs : List Candidate)
      → AreHonest xs
      → (r : Option FileRecord × List PlannedConflict × List String) × (reconcile h p xs ≡ some r)
  unfolding reconcile
  reconcile_returns p [] honest = (_, refl)
  reconcile_returns p (c ∷ cs) honest = returns (sorted h (c ∷ cs)) refl
    where
      returns :
          (ss : List Candidate)
          → sorted h (c ∷ cs) ≡ ss
          → (r : Option FileRecord × List PlannedConflict × List String) × (assemble h p ss
                (prune (c ∷ cs) (c ∷ cs)).1
              ≡ some r)
      returns [] e =
          let m = antichain_inhabited (c ∷ cs) honest c (inl refl) in
          let inside =
            (Elem-stable_sort (candidate_compare h) m.0 (prune (c ∷ cs) (c ∷ cs)).0).1 m.1 in
          absurd (rw e at inside)
      returns (w ∷ ls) e = (_, refl)

  module _ (xs : List Candidate) (honest : AreHonest xs)
      (all : All (λ c. clocked c.rec ≡ true) xs) where
    -- Among the survivors no clock dominates another, so only the tiebreak is left.
    survivors_tiebreak :
        (a b : Candidate)
        → Elem a (prune xs xs).0
        → Elem b (prune xs xs).0
        → candidate_compare h a b ≡ concurrent_tiebreak h a b
    survivors_tiebreak a b ma mb =
        let ka =
          All-Elem (λ (c : Candidate). clocked c.rec ≡ true) xs a all
            ((Elem-prune xs xs a).0 ma).0 in
        let kb =
          All-Elem (λ (c : Candidate). clocked c.rec ≡ true) xs b all
            ((Elem-prune xs xs b).0 mb).0 in
        let ab = undominated b a mb ma kb ka in
        let ba = undominated a b ma mb ka kb in unfold candidate_compare in rw (ka, kb, ab, ba)
      where
        undominated :
            (c d : Candidate)
            → Elem c (prune xs xs).0
            → Elem d (prune xs xs).0
            → clocked c.rec ≡ true
            → clocked d.rec ≡ true
            → clock_dominates (clock_of d.rec) (clock_of c.rec) ≡ false
        undominated c d mc md kc kd =
            elim (Bool-cases (clock_dominates (clock_of d.rec) (clock_of c.rec))) [
              | inl y ↦
                  let c' = (Elem-prune xs xs c).0 mc in
                  let d' = (Elem-prune xs xs d).0 md in
                  let over = Supersedes-of_dominates xs honest d c d'.0 c'.0 kd kc y in
                  let gone = (is_causally_dominated_iff c xs).1 (d, d'.0, over) in
                  absurd (let kept = c'.1 in cc)
              | inr n ↦ n
            ]

    sorted_by_tiebreak : sorted h xs ≡ stable_sort (concurrent_tiebreak h) (prune xs xs).0
    sorted_by_tiebreak =
        stable_sort_agrees {P = λ c. Elem c (prune xs xs).0} (candidate_compare h)
          (concurrent_tiebreak h) survivors_tiebreak (prune xs xs).0
          (All-of_Elem (λ c. Elem c (prune xs xs).0) (prune xs xs).0 (λ c m. m))

    winner-Tops :
        (w : Candidate) (ls : List Candidate)
        → sorted h xs ≡ w ∷ ls
        → Elem w (prune xs xs).0 × Tops (concurrent_tiebreak h) w (prune xs xs).0
    winner-Tops w ls e = (
      (Elem-stable_sort (candidate_compare h) w (prune xs xs).0).0 (rw e (inl refl)),
      sort_first (concurrent_tiebreak h) (prune xs xs).0 w ls (tiebreak-IsOrder h)
          (sym sorted_by_tiebreak ∙ e),
    )

  -- Two candidates that the tiebreak cannot tell apart.
  pub record Alike (a b : Candidate) : Type 0 where
    pub same_deleted : a.rec.deleted ≡ b.rec.deleted
    pub same_content : content_key h a.rec ≡ content_key h b.rec
    pub same_clock : clock_string h (clock_of a.rec) ≡ clock_string h (clock_of b.rec)

  Alike-of_tie : (a b : Candidate) → concurrent_tiebreak h a b ≡ Ordering.eq → Alike a b
  unfolding concurrent_tiebreak
  Alike-of_tie a b e =
      let t = tie_parts _ _ _ e in
      record {
        same_deleted = bool_of_tie a.rec.deleted b.rec.deleted t.0;
        same_content = path_by_compare (content_key h a.rec) (content_key h b.rec) t.1;
        same_clock =
            path_by_compare (clock_string h (clock_of a.rec)) (clock_string h (clock_of b.rec)) t.2;
      }

  -- Where the copies of a path are honest and every one carries a clock, two readings of the same
  -- copies, in any order, sort winners first that agree in deleted-ness, content key and clock text.
  pub winner_unique :
      (xs ys : List Candidate) (w v : Candidate) (ls ms : List Candidate)
      → AreHonest xs
      → All (λ c. clocked c.rec ≡ true) xs
      → SameCandidates xs ys
      → sorted h xs ≡ w ∷ ls
      → sorted h ys ≡ v ∷ ms
      → Alike w v
  winner_unique xs ys w v ls ms honest all same e f =
      let honest' : AreHonest ys = record {
        clocks = λ c m. honest.clocks c ((same c).1 m);
        own_file = λ c d m n. honest.own_file c d ((same c).1 m) ((same d).1 n);
      } in
      let all' =
        All-of_Elem (λ c. clocked c.rec ≡ true) ys
          (λ c m. All-Elem (λ (c : Candidate). clocked c.rec ≡ true) xs c all ((same c).1 m)) in
      let a = winner-Tops xs honest all w ls e in
      let b = winner-Tops ys honest' all' v ms f in
      let cross = crossing xs ys same in
      let over = crossing ys xs (λ c. ((same c).1, (same c).0)) in
      let tb = concurrent_tiebreak h in
      Alike-of_tie w v (
        eq_of_not_gt tb w v (tiebreak-IsOrder h)
          (All-Elem (λ (x : Candidate). is_gt (tb x v) ≡ false) (prune ys ys).0 w b.1 (cross w a.0))
          (All-Elem (λ (x : Candidate). is_gt (tb x w) ≡ false) (prune xs xs).0 v a.1 (over v b.0)))
