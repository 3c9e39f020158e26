-- ===== src/Vault/Reconcile/Largest.antt =====
-- internal/vault/manifest.go: for a comparison that is an order, the sort of
-- `reconcilePathCandidates` puts a largest candidate first, and only the order matters to it.
use Prim.Native.Nat.{Ordering}
use open_seavault_rclone.Shared.Order.{IsOrder, is_gt, not_gt_trans}
use open_seavault_rclone.Shared.{
  ◌≡◌, inl, inr, refl, ap, ◌∙◌, false, List, [], ◌∷◌, arith, All, All-Elem, All-of_Elem, Bool-cases,
}
use mathlib.Core.Path.{subst}
use open_seavault_rclone.Vault.Manifest.{Candidate}
use open_seavault_rclone.Vault.Reconcile.{sift, sort_reversed, reverse_onto, stable_sort}
use open_seavault_rclone.Vault.Reconcile.Sort.{Elem-sift, Elem-sort_reversed}

-- No candidate of the list is above `w`.
abbrev pub Tops : (Candidate → Candidate → Ordering) → Candidate → List Candidate → Type 0
Tops cmp w xs = All (λ x. is_gt (cmp x w) ≡ false) xs

-- A reversed list that is sorted: each candidate is not above those that follow it.
abbrev IsRising : (Candidate → Candidate → Ordering) → List Candidate → Type 0
IsRising cmp [] = Unit
IsRising cmp (x ∷ xs) = All (λ y. is_gt (cmp x y) ≡ false) xs × IsRising cmp xs

-- The last of a list, after a first one.
abbrev last_of : Candidate → List Candidate → Candidate
last_of x [] = x
last_of x (y ∷ ys) = last_of y ys

module _ (cmp : Candidate → Candidate → Ordering) (o : IsOrder cmp) where
  not_gt_self : (x : Candidate) → is_gt (cmp x x) ≡ false
  not_gt_self x = ground (arith, o.flips x x)

  sift-IsRising :
      (x : Candidate) (ys : List Candidate) → IsRising cmp ys → IsRising cmp (sift cmp x ys)
  unfolding sift
  sift-IsRising x [] r = (tt, tt)
  sift-IsRising x (y ∷ ys) r = elim (Bool-cases (is_gt (cmp x y))) [
    | inl g ↦ rw g (
      All-of_Elem (λ z. is_gt (cmp y z) ≡ false) (sift cmp x ys)
          (λ z m. elim ((Elem-sift cmp z x ys).0 m) [
            | inl e ↦ rw e (ground (arith, o.flips x y))
            | inr t ↦ All-Elem (λ z. is_gt (cmp y z) ≡ false) ys z r.0 t
          ]),
      sift-IsRising x ys r.1,
    )
    | inr n ↦ rw n (
      (
        n,
        All-of_Elem (λ z. is_gt (cmp x z) ≡ false) ys
            (λ z m.
              not_gt_trans cmp x y z o n (All-Elem (λ z. is_gt (cmp y z) ≡ false) ys z r.0 m)),
      ),
      r,
    )
  ]

  sort_reversed-IsRising :
      (xs acc : List Candidate) → IsRising cmp acc → IsRising cmp (sort_reversed cmp acc xs)
  unfolding sort_reversed
  sort_reversed-IsRising [] acc r = r
  sort_reversed-IsRising (x ∷ xs) acc r =
      sort_reversed-IsRising xs (sift cmp x acc) (sift-IsRising x acc r)

  last-Tops :
      (x : Candidate) (xs : List Candidate)
      → IsRising cmp (x ∷ xs)
      → Tops cmp (last_of x xs) (x ∷ xs)
  last-Tops x [] r = (not_gt_self x, tt)
  last-Tops x (y ∷ ys) r =
      let rest = last-Tops y ys r.1 in (not_gt_trans cmp x y (last_of y ys) o r.0.0 rest.0, rest)

reverse_onto-last :
    (x : Candidate) (xs acc : List Candidate)
    → (rest : List Candidate) × (reverse_onto (x ∷ xs) acc ≡ last_of x xs ∷ rest)
unfolding reverse_onto
reverse_onto-last x [] acc = (acc, refl)
reverse_onto-last x (y ∷ ys) acc = reverse_onto-last y ys (x ∷ acc)

first_of_rising :
    (cmp : Candidate → Candidate → Ordering) (r : List Candidate) (w : Candidate)
    (ls : List Candidate)
    → IsOrder cmp
    → IsRising cmp r
    → reverse_onto r [] ≡ w ∷ ls
    → Tops cmp w r
first_of_rising cmp [] w ls o s h = absurd (unfold reverse_onto in ground arith)
first_of_rising cmp (x ∷ xs) w ls o s h =
    let last = reverse_onto-last x xs [] in
    let same : last_of x xs ≡ w = cc (last.1) in
    subst (λ v. Tops cmp v (x ∷ xs)) same (last-Tops cmp o x xs s)

-- The first of the sorted candidates: none of the candidates is above it.
pub sort_first :
    (cmp : Candidate → Candidate → Ordering) (xs : List Candidate) (w : Candidate)
    (ls : List Candidate)
    → IsOrder cmp
    → stable_sort cmp xs ≡ w ∷ ls
    → Tops cmp w xs
unfolding stable_sort
sort_first cmp xs w ls o h =
    let r = sort_reversed cmp [] xs in
    let tops = first_of_rising cmp r w ls o (sort_reversed-IsRising cmp o xs [] tt) h in
    All-of_Elem (λ x. is_gt (cmp x w) ≡ false) xs
      (λ x m.
        All-Elem (λ x. is_gt (cmp x w) ≡ false) r x tops
          ((Elem-sort_reversed cmp x xs []).1 (inr m)))

-- Two comparisons that agree on the candidates sort them alike.
module _ {P : Candidate → Type 0} (cmp ord : Candidate → Candidate → Ordering)
    (same : (a b : Candidate) → P a → P b → cmp a b ≡ ord a b) where
  sift_agrees :
      (x : Candidate) (ys : List Candidate) → P x → All P ys → sift cmp x ys ≡ sift ord x ys
  unfolding sift
  sift_agrees x [] p q = refl
  sift_agrees x (y ∷ ys) p q = ground (arith, same x y p q.0, sift_agrees x ys p q.1)

  sift-All : (x : Candidate) (ys : List Candidate) → P x → All P ys → All P (sift ord x ys)
  unfolding sift
  sift-All x [] p q = (p, tt)
  sift-All x (y ∷ ys) p q = elim (Bool-cases (is_gt (ord x y))) [
    | inl g ↦ rw g (q.0, sift-All x ys p q.1)
    | inr n ↦ rw n (p, q)
  ]

  sort_reversed_agrees :
      (xs acc : List Candidate)
      → All P acc
      → All P xs
      → sort_reversed cmp acc xs ≡ sort_reversed ord acc xs
  unfolding sort_reversed
  sort_reversed_agrees [] acc q p = refl
  sort_reversed_agrees (x ∷ xs) acc q p =
      ap (λ s. sort_reversed cmp s xs) (sift_agrees x acc p.0 q)
      ∙ sort_reversed_agrees xs (sift ord x acc) (sift-All x acc p.0 q) p.1

  pub stable_sort_agrees :
      (xs : List Candidate) → All P xs → stable_sort cmp xs ≡ stable_sort ord xs
  unfolding stable_sort
  stable_sort_agrees xs p = ap (λ r. reverse_onto r []) (sort_reversed_agrees xs [] tt p)
