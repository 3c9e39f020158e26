-- ===== src/Vault/Reconcile/Sort.antt =====
-- internal/vault/manifest.go: the sort of `reconcilePathCandidates` keeps the candidates and, for a
-- comparison that is an order, puts a largest one first.
use Prim.Native.Nat.{Ordering}
use open_seavault_rclone.Shared.Order.{is_gt}
use open_seavault_rclone.Shared.{◌≡◌, ◌⊎◌, ◌↔◌, inl, inr, List, [], ◌∷◌, Elem, Bool-cases}
use open_seavault_rclone.Vault.Manifest.{Candidate}
use open_seavault_rclone.Vault.Reconcile.{sift, sort_reversed, reverse_onto, stable_sort}

module _ (cmp : Candidate → Candidate → Ordering) (a : Candidate) where
  pub Elem-sift :
      (x : Candidate) (ys : List Candidate) → Elem a (sift cmp x ys) ↔ (a ≡ x) ⊎ Elem a ys
  unfolding sift
  Elem-sift x [] = (λ m. m, λ m. m)
  Elem-sift x (y ∷ ys) = elim (Bool-cases (is_gt (cmp x y))) [
    | inl g ↦ rw g (
      λ m. elim m [
        | inl e ↦ inr (inl e)
        | inr t ↦ elim ((Elem-sift x ys).0 t) [ inl e ↦ inl e | inr u ↦ inr (inr u) ]
      ],
      λ m. elim m [
        | inl e ↦ inr ((Elem-sift x ys).1 (inl e))
        | inr t ↦ elim t [ inl e ↦ inl e | inr u ↦ inr ((Elem-sift x ys).1 (inr u)) ]
      ],
    )
    | inr n ↦ rw n (λ m. m, λ m. m)
  ]

  pub Elem-sort_reversed :
      (xs acc : List Candidate) → Elem a (sort_reversed cmp acc xs) ↔ Elem a acc ⊎ Elem a xs
  unfolding sort_reversed
  Elem-sort_reversed [] acc = (λ m. inl m, λ m. elim m [ inl u ↦ u | inr v ↦ absurd v ])
  Elem-sort_reversed (x ∷ xs) acc =
      let ih = Elem-sort_reversed xs (sift cmp x acc) in
      let here = Elem-sift x acc in
      (
        λ m. elim (ih.0 m) [
          | inl u ↦ elim (here.0 u) [ inl e ↦ inr (inl e) | inr v ↦ inl v ]
          | inr u ↦ inr (inr u)
        ],
        λ m. elim m [
          | inl u ↦ ih.1 (inl (here.1 (inr u)))
          | inr t ↦ elim t [ inl e ↦ ih.1 (inl (here.1 (inl e))) | inr u ↦ ih.1 (inr u) ]
        ],
      )

  Elem-reverse_onto :
      (xs acc : List Candidate) → Elem a (reverse_onto xs acc) ↔ Elem a xs ⊎ Elem a acc
  unfolding reverse_onto
  Elem-reverse_onto [] acc = (λ m. inr m, λ m. elim m [ inl u ↦ absurd u | inr v ↦ v ])
  Elem-reverse_onto (x ∷ xs) acc =
      let ih = Elem-reverse_onto xs (x ∷ acc) in
      (
        λ m. elim (ih.0 m) [
          | inl u ↦ inl (inr u)
          | inr t ↦ elim t [ inl e ↦ inl (inl e) | inr u ↦ inr u ]
        ],
        λ m. elim m [
          | inl t ↦ elim t [ inl e ↦ ih.1 (inr (inl e)) | inr u ↦ ih.1 (inl u) ]
          | inr u ↦ ih.1 (inr (inr u))
        ],
      )

  -- The sort keeps exactly the candidates that it is given.
  pub Elem-stable_sort : (xs : List Candidate) → Elem a (stable_sort cmp xs) ↔ Elem a xs
  unfolding stable_sort
  Elem-stable_sort xs =
      let back = Elem-reverse_onto (sort_reversed cmp [] xs) [] in
      let there = Elem-sort_reversed xs [] in
      (
        λ m. elim (back.0 m) [
          | inl u ↦ elim (there.0 u) [ inl v ↦ absurd v | inr v ↦ v ]
          | inr u ↦ absurd u
        ],
        λ m. back.1 (inl (there.1 (inr m))),
      )
