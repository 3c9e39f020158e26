-- ===== src/Vault/Reconcile/Antichain.antt =====
-- internal/vault/manifest.go: of the copies of a path some survive the pruning of
-- `reconcilePathCandidates`.
use text.Mathlib.TextPositions.{eq_refl}
use open_seavault_rclone.Shared.{
  ◌≡◌, ◌⊎◌, inl, inr, refl, true, List, [], ◌∷◌, Elem, Bool-cases, str_eq,
}
use open_seavault_rclone.Vault.Clock.{clock_dominates}
use open_seavault_rclone.Vault.Clock.Dominance.{IsClock, dominates_trans, dominates_irrefl}
use open_seavault_rclone.Vault.Manifest.{Candidate, clock_of, clocked}
use open_seavault_rclone.Vault.Reconcile.{is_causally_dominated, prune}
use open_seavault_rclone.Vault.Reconcile.Prune.{Supersedes, is_causally_dominated_iff, Elem-prune}

-- Candidates as a walk of the directory yields them: each from a file of its own, and with a clock
-- as honest writers make it.
pub record AreHonest (xs : List Candidate) : Type 0 where
  pub clocks : (c : Candidate) → Elem c xs → IsClock (clock_of c.rec)
  pub own_file : (c d : Candidate) → Elem c xs → Elem d xs → str_eq c.source d.source ≡ true → c ≡ d

module _ (xs : List Candidate) (honest : AreHonest xs) where
  Supersedes-irrefl : (c : Candidate) → ¬ (Supersedes c c)
  Supersedes-irrefl c s = let e = eq_refl c.source in let f = s.other_file in cc

  -- No clock of the list dominates itself, so a dominating clock comes from another file.
  pub Supersedes-of_dominates :
      (d c : Candidate)
      → Elem d xs
      → Elem c xs
      → clocked d.rec ≡ true
      → clocked c.rec ≡ true
      → clock_dominates (clock_of d.rec) (clock_of c.rec) ≡ true
      → Supersedes d c
  Supersedes-of_dominates d c md mc kd kc h = elim (Bool-cases (str_eq d.source c.source)) [
    | inl same ↦
        let e = honest.own_file d c md mc same in
        let bad : clock_dominates (clock_of c.rec) (clock_of c.rec) ≡ true = rw e at h in
        absurd (let good = dominates_irrefl (clock_of c.rec) (honest.clocks c mc) in cc)
    | inr other ↦ record { other_file = other; has_clock = kd; over_clock = kc; dominates = h }
  ]

  Supersedes-trans :
      (a b c : Candidate)
      → Elem a xs
      → Elem b xs
      → Elem c xs
      → Supersedes a b
      → Supersedes b c
      → Supersedes a c
  Supersedes-trans a b c ma mb mc p q = Supersedes-of_dominates a c ma mc p.has_clock q.over_clock (
      dominates_trans (clock_of a.rec) (clock_of b.rec) (clock_of c.rec) (honest.clocks a ma)
        (honest.clocks b mb) (honest.clocks c mc) p.dominates q.dominates)

  decide-Supersedes : (d c : Candidate) → Supersedes d c ⊎ ¬ (Supersedes d c)
  decide-Supersedes d c = elim (Bool-cases (is_causally_dominated c (d ∷ []))) [
    | inl y ↦
        let t = (is_causally_dominated_iff c (d ∷ [])).0 y in
        elim t.1 [ inl e ↦ inl (rw e at t.2) | inr m ↦ absurd m ]
    | inr n ↦ inr (λ s. let y = (is_causally_dominated_iff c (d ∷ [])).1 (d, inl refl, s) in cc)
  ]

  -- One pass keeps a candidate that nothing seen so far supersedes.
  champion :
      (ys : List Candidate) (b : Candidate) (Seen : Candidate → Type 0)
      → Elem b xs
      → ((z : Candidate) → Elem z ys → Elem z xs)
      → ((z : Candidate) → Seen z → Elem z xs)
      → ((z : Candidate) → Seen z → ¬ (Supersedes z b))
      → (m : Candidate) × Elem m xs × ((z : Candidate) → Seen z ⊎ Elem z ys → ¬ (Supersedes z m))
  champion [] b Seen mb my ms ok = (b, mb, λ z s. elim s [ inl u ↦ ok z u | inr v ↦ absurd v ])
  champion (y ∷ ys) b Seen mb my ms ok =
      let inside : (z : Candidate) → Seen z ⊎ (z ≡ y) → Elem z xs =
        λ z s. elim s [ inl u ↦ ms z u | inr e ↦ my z (inl e) ] in
      let later : (z : Candidate) → Elem z ys → Elem z xs = λ z m. my z (inr m) in
      let regroup =
        λ (t : (m : Candidate) × Elem m xs
            × ((z : Candidate) → (Seen z ⊎ (z ≡ y)) ⊎ Elem z ys → ¬ (Supersedes z m))).
          let r : (m : Candidate) × Elem m xs
              × ((z : Candidate) → Seen z ⊎ Elem z (y ∷ ys) → ¬ (Supersedes z m)) =
            (
              t.0,
              t.1,
              λ z s. t.2 z (elim s [
                | inl u ↦ inl (inl u)
                | inr v ↦ elim v [ inl e ↦ inl (inr e) | inr m ↦ inr m ]
              ]),
            ) in
          r in
      elim (decide-Supersedes y b) [
        | inl up ↦ regroup (
            champion ys y (λ z. Seen z ⊎ (z ≡ y)) (my y (inl refl)) later inside
              (λ z s over. elim s [
                | inl u ↦ ok z u (Supersedes-trans z y b (ms z u) (my y (inl refl)) mb over up)
                | inr e ↦ Supersedes-irrefl y (rw e at over)
              ]))
        | inr stay ↦ regroup (
            champion ys b (λ z. Seen z ⊎ (z ≡ y)) mb later inside
              (λ z s over. elim s [ inl u ↦ ok z u over | inr e ↦ stay (rw e at over) ]))
      ]

  -- Some candidate survives the pruning.
  pub antichain_inhabited : (c : Candidate) → Elem c xs → (m : Candidate) × Elem m (prune xs xs).0
  antichain_inhabited c mc =
      let t = champion xs c (λ z. ⊥) mc (λ z m. m) (λ z s. absurd s) (λ z s. absurd s) in
      (
        t.0,
        (Elem-prune xs xs t.0).1 (
          t.1,
          elim (Bool-cases (is_causally_dominated t.0 xs)) [
            | inl y ↦
                let d = (is_causally_dominated_iff t.0 xs).0 y in absurd (t.2 d.0 (inr d.1) d.2)
            | inr n ↦ n
          ],
        ),
      )
