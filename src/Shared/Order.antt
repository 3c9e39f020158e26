-- ===== src/Shared/Order.antt =====
-- Comparison functions into `Ordering`: their laws, and the ways in which they are put together.
use Prim.Native.Nat.{compare, Ordering}
use Prim.Native.String.compare as compare_text
use Prim.Native.String.{String, compare as compare_text}
use text.Mathlib.TextEquality.{path_by_compare}
use mathlib.Core.Path.{◌≡◌}
use mathlib.Core.Bool.{Bool, true, false}
use native.Mathlib.Omega.{arith}
use open_seavault_rclone.Shared.Int.{compare_ℤ}

abbrev pub flip : Ordering → Ordering
flip Ordering.lt = Ordering.gt
flip Ordering.eq = Ordering.eq
flip Ordering.gt = Ordering.lt

-- `if a != b { … }` on the first key, and the rest for equal keys.
abbrev pub or_else : Ordering → Ordering → Ordering
or_else Ordering.eq o = o
or_else Ordering.lt o = Ordering.lt
or_else Ordering.gt o = Ordering.gt

abbrev pub is_gt : Ordering → Bool
is_gt Ordering.gt = true
is_gt Ordering.lt = false
is_gt Ordering.eq = false

-- A total order up to `eq`.
pub record IsOrder {ℓ} {A : Type ℓ} (cmp : A → A → Ordering) : Type ℓ where
  pub flips : (a b : A) → cmp b a ≡ flip (cmp a b)
  pub eq_left : (a b c : A) → cmp a b ≡ Ordering.eq → cmp a c ≡ cmp b c
  pub gt_trans : (a b c : A) → cmp a b ≡ Ordering.gt → cmp b c ≡ Ordering.gt → cmp a c ≡ Ordering.gt

pub nat_IsOrder : IsOrder compare
nat_IsOrder = record {
  flips = λ a b. ground arith;
  eq_left = λ a b c h. ground arith;
  gt_trans = λ a b c h k. ground arith;
}

pub int_IsOrder : IsOrder compare_ℤ
int_IsOrder = record {
  flips = λ a b. ground arith;
  eq_left = λ a b c h. ground arith;
  gt_trans = λ a b c h k. ground arith;
}

-- `true` sorts first: a tombstone takes the slot.
abbrev pub compare_bool : Bool → Bool → Ordering
compare_bool true true = Ordering.eq
compare_bool true false = Ordering.gt
compare_bool false true = Ordering.lt
compare_bool false false = Ordering.eq

pub bool_IsOrder : IsOrder compare_bool
bool_IsOrder = record {
  flips = λ a b. ground arith;
  eq_left = λ a b c h. ground arith;
  gt_trans = λ a b c h k. ground arith;
}

-- Texts compare by their code points, which is the order of their UTF-8 bytes.
text_flips : (s t : String) → compare_text t s ≡ flip (compare_text s t)
text_flips String.[] String.[] = rw compare_text.nil-nil
text_flips String.[] (String.◌∷◌ d t) = rw (compare_text.nil-cons, compare_text.cons-nil)
text_flips (String.◌∷◌ c s) String.[] = rw (compare_text.nil-cons, compare_text.cons-nil)
text_flips (String.◌∷◌ c s) (String.◌∷◌ d t) =
    ground (arith, compare_text.cons-cons c d s t, compare_text.cons-cons d c t s, text_flips s t)

text_eq_left :
    (s t u : String) → compare_text s t ≡ Ordering.eq → compare_text s u ≡ compare_text t u
text_eq_left s t u h = cc (path_by_compare s t h)

text_gt_trans :
    (s t u : String)
    → compare_text s t ≡ Ordering.gt
    → compare_text t u ≡ Ordering.gt
    → compare_text s u ≡ Ordering.gt
text_gt_trans s String.[] String.[] h k = h
text_gt_trans s String.[] (String.◌∷◌ e u) h k = cc (compare_text.nil-cons e u)
text_gt_trans String.[] (String.◌∷◌ d t) u h k = cc (compare_text.nil-cons d t)
text_gt_trans (String.◌∷◌ c s) (String.◌∷◌ d t) String.[] h k = compare_text.cons-nil c s
text_gt_trans (String.◌∷◌ c s) (String.◌∷◌ d t) (String.◌∷◌ e u) h k = ground (
  arith,
  compare_text.cons-cons c d s t,
  compare_text.cons-cons d e t u,
  compare_text.cons-cons c e s u,
  text_gt_trans s t u,
)

pub text_IsOrder : IsOrder compare_text
text_IsOrder = record { flips = text_flips; eq_left = text_eq_left; gt_trans = text_gt_trans }

-- The order by one key and then by another.
abbrev pub by_then {ℓ} : {A : Type ℓ} → (A → A → Ordering) → (A → A → Ordering) → A → A → Ordering
by_then f g a b = or_else (f a b) (g a b)

abbrev pub by_key {ℓ κ} :
    {A : Type ℓ} {K : Type κ} → (A → K) → (K → K → Ordering) → A → A → Ordering
by_key key cmp a b = cmp (key a) (key b)

module _ {ℓ} {A : Type ℓ} where
  pub by_key-IsOrder {κ} :
      {K : Type κ} (key : A → K) {cmp : K → K → Ordering} → IsOrder cmp → IsOrder (by_key key cmp)
  by_key-IsOrder key o = record {
    flips = λ a b. o.flips (key a) (key b);
    eq_left = λ a b c. o.eq_left (key a) (key b) (key c);
    gt_trans = λ a b c. o.gt_trans (key a) (key b) (key c);
  }

  pub by_then-IsOrder : {f g : A → A → Ordering} → IsOrder f → IsOrder g → IsOrder (by_then f g)
  by_then-IsOrder o q = record {
    flips = λ a b. ground (arith, o.flips a b, q.flips a b);
    eq_left = λ a b c h. ground (arith, o.eq_left a b c, q.eq_left a b c);
    gt_trans = λ a b c h k. ground (
      arith,
      o.gt_trans a b c,
      q.gt_trans a b c,
      o.eq_left a b c,
      o.flips b c,
      o.flips a c,
      o.flips a b,
      o.eq_left c b a,
      o.eq_left b c a,
    );
  }

  -- Two values each not above the other are equal for the order.
  pub eq_of_not_gt :
      (cmp : A → A → Ordering) (a b : A)
      → IsOrder cmp
      → is_gt (cmp a b) ≡ false
      → is_gt (cmp b a) ≡ false
      → cmp a b ≡ Ordering.eq
  eq_of_not_gt cmp a b o h k = ground (arith, o.flips a b)

  -- What is not above `b` is not above anything that `b` is not below.
  pub not_gt_trans :
      (cmp : A → A → Ordering) (a b c : A)
      → IsOrder cmp
      → is_gt (cmp a b) ≡ false
      → is_gt (cmp b c) ≡ false
      → is_gt (cmp a c) ≡ false
  not_gt_trans cmp a b c o h k = ground (
    arith,
    o.flips a b,
    o.flips b c,
    o.flips a c,
    o.eq_left a b c,
    o.eq_left c b a,
    o.gt_trans c b a,
  )
