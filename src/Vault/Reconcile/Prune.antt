-- ===== src/Vault/Reconcile/Prune.antt =====
-- internal/vault/manifest.go: dominance pruning, the first decision of `reconcilePathCandidates`.
use open_seavault_rclone.Shared.{
  String, ◌≡◌, ◌↔◌, inl, inr, refl, Bool, true, false, List, [], ◌∷◌, arith, Elem, Bool-cases,
  str_eq,
}
use open_seavault_rclone.Vault.Clock.{Clock, clock_dominates}
use open_seavault_rclone.Vault.Manifest.{Candidate, clock_of, clocked}
use open_seavault_rclone.Vault.Reconcile.{dominated_by_some, is_causally_dominated, prune}

-- The same candidates, in any order and with any repetition.
abbrev pub SameCandidates : List Candidate → List Candidate → Type 0
SameCandidates xs ys = (c : Candidate) → Elem c xs ↔ Elem c ys

-- `d` happens after `c` and comes from another file.
pub record Supersedes (d c : Candidate) : Type 0 where
  pub other_file : str_eq d.source c.source ≡ false
  pub has_clock : clocked d.rec ≡ true
  pub over_clock : clocked c.rec ≡ true
  pub dominates : clock_dominates (clock_of d.rec) (clock_of c.rec) ≡ true

dominated_by_some_iff :
    (source : String) (tc : Clock) (cs : List Candidate)
    → (dominated_by_some source tc cs ≡ true) ↔ (
        (d : Candidate) × Elem d cs
        × (str_eq d.source source ≡ false)
        × (clocked d.rec ≡ true)
        × (clock_dominates (clock_of d.rec) tc ≡ true))
unfolding dominated_by_some
dominated_by_some_iff source tc [] = (λ h. absurd (ground arith), λ t. absurd t.1)
dominated_by_some_iff source tc (c ∷ cs) =
    let ih = dominated_by_some_iff source tc cs in
    (
      λ h. elim (Bool-cases (dominated_by_some source tc cs)) [
        | inl y ↦ let t = ih.0 y in (t.0, inr t.1, t.2, t.3, t.4)
        | inr n ↦ (c, inl refl, ground arith, ground arith, ground arith)
      ],
      λ t. elim t.1 [
        | inl e ↦
            let a : str_eq c.source source ≡ false = rw e at t.2 in
            let b : clocked c.rec ≡ true = rw e at t.3 in
            let d : clock_dominates (clock_of c.rec) tc ≡ true = rw e at t.4 in ground arith
        | inr m ↦ let rest = ih.1 (t.0, m, t.2, t.3, t.4) in ground arith
      ],
    )

-- A candidate is pruned exactly if another file's candidate happens after it.
pub is_causally_dominated_iff :
    (c : Candidate) (cs : List Candidate)
    → (is_causally_dominated c cs ≡ true) ↔ ((d : Candidate) × Elem d cs × Supersedes d c)
unfolding is_causally_dominated
is_causally_dominated_iff c cs =
    let some = dominated_by_some_iff c.source (clock_of c.rec) cs in
    (
      λ h.
          let t = some.0 (ground arith) in
          (
            t.0,
            t.1,
            record {
              other_file = t.2;
              has_clock = t.3;
              over_clock = ground arith;
              dominates = t.4;
            },
          ),
      λ t.
          let s = t.2 in
          let found = some.1 (t.0, t.1, s.other_file, s.has_clock, s.dominates) in
          let own = s.over_clock in ground arith,
    )

Bool-eq_of_iff : (a b : Bool) → (a ≡ true → b ≡ true) → (b ≡ true → a ≡ true) → a ≡ b
Bool-eq_of_iff true b f g = cc (f refl)
Bool-eq_of_iff false true f g = g refl
Bool-eq_of_iff false false f g = refl

pub is_causally_dominated_same :
    (c : Candidate) (xs ys : List Candidate)
    → SameCandidates xs ys
    → is_causally_dominated c xs ≡ is_causally_dominated c ys
is_causally_dominated_same c xs ys s =
    let p = is_causally_dominated_iff c xs in
    let q = is_causally_dominated_iff c ys in
    Bool-eq_of_iff _ _ (λ h. let t = p.0 h in q.1 (t.0, (s t.0).0 t.1, t.2))
      (λ h. let t = q.0 h in p.1 (t.0, (s t.0).1 t.1, t.2))

-- What the pruning keeps, and whose sources it gives up.
pub Elem-prune :
    (all cs : List Candidate) (c : Candidate)
    → Elem c (prune all cs).0 ↔ (Elem c cs × (is_causally_dominated c all ≡ false))
unfolding prune
Elem-prune all [] c = (λ m. absurd m, λ t. absurd t.0)
Elem-prune all (x ∷ xs) c =
    let ih = Elem-prune all xs c in
    elim (Bool-cases (is_causally_dominated x all)) [
      | inl y ↦ rw y (
        λ m. let t = ih.0 m in (inr t.0, t.1),
        λ t. elim t.0 [ inl e ↦ absurd (let z = rw e at t.1 in cc) | inr m ↦ ih.1 (m, t.1) ],
      )
      | inr n ↦ rw n (
        λ m. elim m [ inl e ↦ (inl e, rw e n) | inr u ↦ let t = ih.0 u in (inr t.0, t.1) ],
        λ t. elim t.0 [ inl e ↦ inl e | inr m ↦ inr (ih.1 (m, t.1)) ],
      )
    ]

pub Elem-removed :
    (all cs : List Candidate) (c : Candidate)
    → Elem c cs
    → is_causally_dominated c all ≡ true
    → Elem c.source (prune all cs).1
unfolding prune
Elem-removed all [] c m h = absurd m
Elem-removed all (x ∷ xs) c (inl e) h = let h' = rw e at h in rw (h', e) (inl refl)
Elem-removed all (x ∷ xs) c (inr m) h = elim (Bool-cases (is_causally_dominated x all)) [
  | inl y ↦ rw y (inr (Elem-removed all xs c m h))
  | inr n ↦ rw n (Elem-removed all xs c m h)
]
