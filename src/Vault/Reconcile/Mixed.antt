-- ===== src/Vault/Reconcile/Mixed.antt =====
-- internal/vault/manifest.go: copies with and without a clock, in `reconcilePathCandidates`. The
-- comparison is then by the content key for one pair and by the generation for the others.
use Prim.Native.Nat.{Ordering}
use open_seavault_rclone.Shared.{◌≡◌, refl, true, false, [], ◌∷◌, arith}
use open_seavault_rclone.Shared.Int.{ℤ, ◌<ℤ◌, compare_ℤ}
use open_seavault_rclone.Vault.Clock.{clock_dominates}
use open_seavault_rclone.Vault.Manifest.{
  Candidate, Host, clock_of, clocked, concurrent_tiebreak, order_generation, generation_compare,
  candidate_compare,
}
use open_seavault_rclone.Vault.Reconcile.{
  prune, stable_sort, is_causally_dominated, dominated_by_some,
}
use open_seavault_rclone.Vault.Reconcile.Winner.{sorted}

-- Two concurrent copies with a clock, and one without.
pub record AreMixed (h : Host) (a b c : Candidate) : Type 0 where
  pub a_clocked : clocked a.rec ≡ true
  pub b_clocked : clocked b.rec ≡ true
  pub c_unclocked : clocked c.rec ≡ false
  pub not_before : clock_dominates (clock_of a.rec) (clock_of b.rec) ≡ false
  pub not_after : clock_dominates (clock_of b.rec) (clock_of a.rec) ≡ false
  pub not_itself_a : clock_dominates (clock_of a.rec) (clock_of a.rec) ≡ false
  pub not_itself_b : clock_dominates (clock_of b.rec) (clock_of b.rec) ≡ false

larger_gt : (x y : ℤ) → y <ℤ x → compare_ℤ x y ≡ Ordering.gt
larger_gt x y h = ground arith

smaller_lt : (x y : ℤ) → x <ℤ y → compare_ℤ x y ≡ Ordering.lt
smaller_lt x y h = ground arith

module _ (h : Host) (a b c : Candidate) (mixed : AreMixed h a b c) where
  none_dominated :
      (is_causally_dominated a (a ∷ b ∷ c ∷ []) ≡ false)
      × (is_causally_dominated b (a ∷ b ∷ c ∷ []) ≡ false)
      × (is_causally_dominated c (a ∷ b ∷ c ∷ []) ≡ false)
      × (is_causally_dominated a (b ∷ c ∷ a ∷ []) ≡ false)
      × (is_causally_dominated b (b ∷ c ∷ a ∷ []) ≡ false)
      × (is_causally_dominated c (b ∷ c ∷ a ∷ []) ≡ false)
  unfolding is_causally_dominated dominated_by_some
  none_dominated = ground arith

  by_content :
      concurrent_tiebreak h b a ≡ Ordering.gt
      → concurrent_tiebreak h a b ≡ Ordering.lt
      → (candidate_compare h b a ≡ Ordering.gt) × (candidate_compare h a b ≡ Ordering.lt)
  unfolding candidate_compare
  by_content t t' = (
    rw (mixed.a_clocked, mixed.b_clocked, mixed.not_before, mixed.not_after) t,
    rw (mixed.a_clocked, mixed.b_clocked, mixed.not_before, mixed.not_after) t',
  )

  by_generation :
      order_generation h b.rec <ℤ order_generation h c.rec
      → order_generation h c.rec <ℤ order_generation h a.rec
      → (candidate_compare h c b ≡ Ordering.gt) × (candidate_compare h c a ≡ Ordering.lt)
  unfolding candidate_compare generation_compare
  by_generation x y = (
    rw (mixed.c_unclocked, larger_gt (order_generation h c.rec) (order_generation h b.rec) x) refl,
    rw (mixed.c_unclocked, smaller_lt (order_generation h c.rec) (order_generation h a.rec) y) refl,
  )

  -- Where the tiebreak prefers `b` to `a` but the generations put `c` above `b` and `a` above `c`, no
  -- copy is pruned, and two orders of the same three copies are sorted with different winners first.
  pub mixed_winner_by_order :
      concurrent_tiebreak h b a ≡ Ordering.gt
      → concurrent_tiebreak h a b ≡ Ordering.lt
      → order_generation h b.rec <ℤ order_generation h c.rec
      → order_generation h c.rec <ℤ order_generation h a.rec
      → (sorted h (a ∷ b ∷ c ∷ []) ≡ b ∷ a ∷ c ∷ []) × (sorted h (b ∷ c ∷ a ∷ []) ≡ c ∷ b ∷ a ∷ [])
  unfolding prune stable_sort
  mixed_winner_by_order t t' x y =
      let n = none_dominated in
      let p = by_content t t' in
      let q = by_generation x y in
      (rw (n.0, n.1, n.2, p.0, q.1) refl, rw (n.3, n.4, n.5, q.0, p.1) refl)
