-- ===== src/Shared/Dict.antt =====
-- A Go map as an association list: the list's order is the order in which a `range` visits it.
use open_seavault_rclone.Shared.Tests.{if◌then◌else◌, str_eq, str_eq_iff, Bool-cases}
use open_seavault_rclone.Shared.Lists.{length, Elem}
use Prim.Native.Nat.{◌+◌, ◌≤◌}
use Prim.Native.String.{String}
use mathlib.Core.Path.{◌≡◌, refl}
use mathlib.Core.Logic.{◌↔◌, inl, inr}
use mathlib.Core.Bool.{Bool, true}
use mathlib.Core.Option.{Option, none, some}
use mathlib.Core.List.{List, [], ◌∷◌}
use native.Mathlib.Omega.{arith}

-- Types with a decided equality.
pub record Eq {ℓ} (A : Type ℓ) : Type ℓ where
  pub beq : A → A → Bool
  pub beq_iff : (a b : A) → (beq a b ≡ true) ↔ (a ≡ b)

infix 50 ◌=?◌
abbrev pub ◌=?◌ {ℓ} : {A : Type ℓ} ⦃e : Eq A⦄ → A → A → Bool
◌=?◌ ⦃e⦄ = e.beq

instance abbrev pub string_eq : Eq String
string_eq = record { beq = str_eq; beq_iff = str_eq_iff }

-- The map itself: pairs of a key and a value.
abbrev pub Dict {ℓ κ} : Type ℓ → Type κ → Type (ℓ ⊔ κ)
Dict K V = List (K × V)

module _ {ℓ κ} {K : Type ℓ} {V : Type κ} ⦃e : Eq K⦄ where
  -- v, ok := m[k]
  unfoldable pub get : K → Dict K V → Option V
  get k [] = none
  get k ((j, v) ∷ m) = if j =? k then some v else get k m

  -- m[k] = v, in place if the key is there, at the end if not
  unfoldable pub put : K → V → Dict K V → Dict K V
  put k v [] = (k, v) ∷ []
  put k v ((j, w) ∷ m) = if j =? k then (j, v) ∷ m else (j, w) ∷ put k v m

  -- delete(m, k)
  unfoldable pub remove : K → Dict K V → Dict K V
  remove k [] = []
  remove k ((j, w) ∷ m) = let rest = remove k m in if j =? k then rest else (j, w) ∷ rest

  pub get-put :
      (k j : K) (v : V) (m : Dict K V) → get j (put k v m) ≡ (if k =? j then some v else get j m)
  unfolding get put
  get-put k j v [] = refl
  get-put k j v ((i, w) ∷ m) =
      ground (arith, e.beq_iff k j, e.beq_iff i k, e.beq_iff i j, get-put k j v m)

  pub get-remove :
      (k j : K) (m : Dict K V) → get j (remove k m) ≡ (if k =? j then none else get j m)
  unfolding get remove
  get-remove k j [] = ground arith
  get-remove k j ((i, w) ∷ m) =
      ground (arith, e.beq_iff k j, e.beq_iff i k, e.beq_iff i j, get-remove k j m)

  -- Writing a key adds at most one entry, and none if the key is there.
  pub length-put :
      (k : K) (v : V) (m : Dict K V)
      → length (put k v m) ≡ elim (get k m) [ none ↦ length m + 1 | some _ ↦ length m ]
  unfolding get put
  length-put k v [] = omega arith
  length-put k v ((i, w) ∷ m) = ground (arith, length-put k v m)

  pub length-remove_le : (k : K) (m : Dict K V) → length (remove k m) ≤ length m
  unfolding remove
  length-remove_le k [] = omega arith
  length-remove_le k ((i, w) ∷ m) = ground (arith, length-remove_le k m)

  -- Deleting a key that is there takes at least one entry away.
  pub length-remove-some :
      (k : K) (v : V) (m : Dict K V) → get k m ≡ some v → length (remove k m) + 1 ≤ length m
  unfolding get remove
  length-remove-some k v [] h = absurd (ground arith)
  length-remove-some k v ((i, w) ∷ m) h =
      ground (arith, length-remove-some k v m, length-remove_le k m)

  -- No key stands twice, as in every Go map.
  abbrev pub Distinct : Dict K V → Type κ
  Distinct [] = Unit
  Distinct ((k, v) ∷ m) = (get k m ≡ none) × Distinct m

  pub put-Distinct : (k : K) (v : V) (m : Dict K V) → Distinct m → Distinct (put k v m)
  unfolding put get
  put-Distinct k v [] d = (refl, tt)
  put-Distinct k v ((i, w) ∷ m) d = elim (Bool-cases (i =? k)) [
    | inl same ↦ rw same d
    | inr other ↦
        rw other
          (ground (arith, get-put k i v m, e.beq_iff i k, e.beq_iff k i), put-Distinct k v m d.1)
  ]

  pub remove-Distinct : (k : K) (m : Dict K V) → Distinct m → Distinct (remove k m)
  unfolding remove
  remove-Distinct k [] d = tt
  remove-Distinct k ((i, w) ∷ m) d = elim (Bool-cases (i =? k)) [
    | inl same ↦ rw same (remove-Distinct k m d.1)
    | inr other ↦ rw other (ground (arith, get-remove k i m), remove-Distinct k m d.1)
  ]

module _ {K V : Type 0} ⦃e : Eq K⦄ where
  pub get_of_Elem : (k : K) (v : V) (m : Dict K V) → Distinct m → Elem (k, v) m → get k m ≡ some v
  unfolding get
  get_of_Elem k v [] d h = absurd h
  get_of_Elem k v ((i, w) ∷ m) d (inl h) = ground (arith, e.beq_iff i k)
  get_of_Elem k v ((i, w) ∷ m) d (inr h) = ground (arith, get_of_Elem k v m d.1 h, e.beq_iff i k)

  pub Elem-of_get : (k : K) (v : V) (m : Dict K V) → get k m ≡ some v → Elem (k, v) m
  unfolding get
  Elem-of_get k v [] h = absurd (ground arith)
  Elem-of_get k v ((i, w) ∷ m) h = elim (Bool-cases (i =? k)) [
    | inl same ↦ inl (ground (arith, e.beq_iff i k))
    | inr other ↦ inr (Elem-of_get k v m (ground arith))
  ]
