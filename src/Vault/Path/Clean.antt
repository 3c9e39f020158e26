-- ===== src/Vault/Path/Clean.antt =====
-- internal/vault/path.go: what CleanVirtualPath returns stays inside the vault.
use Prim.Native.Char.{char}
use Prim.Native.String.{String, ◌++◌ as append}
use mathlib.Core.Path.{subst}
use text.Mathlib.TextLemmas.{nil-append, cons-append}
use open_seavault_rclone.Shared.{
  ◌≡◌, refl, sym, ap, ◌∙◌, ◌⊎◌, inl, inr, Bool, true, false, ◌||◌, none, some, List, [], ◌∷◌, All,
  arith, str_eq, if◌then◌else◌,
}
use open_seavault_rclone.Vault.Path.{
  slash, to_slashes, trim_space, drop_slash, is_blank, is_rooted, segments, join_segments, elements,
  backwards, clean, starts, clean_virtual_path,
}
use open_seavault_rclone.Vault.Path.Stack.{
  NoBackslash, IsPlainName, IsStack, StartsUp, to_slashes-NoBackslash, drop_slash-NoBackslash,
  trimmed, segments-NoSeparator, conflict, elements-IsStack, backwards-names,
}

-- A text that stays inside: empty, or plain names between slashes.
abbrev pub IsInside : String → Type 0
IsInside vp =
    (str_eq vp "" ≡ true)
    ⊎ ((s : String) × (ss : List String) × (vp ≡ join_segments (s ∷ ss)) × All IsPlainName (s ∷ ss))

-- The texts that CleanVirtualPath refuses.
abbrev IsOutside : String → Type 0
IsOutside p = (starts "../" p || (str_eq p ".." || is_rooted p)) ≡ true

starts_up : (x : String) → starts "../" (append ".." (String.◌∷◌ slash x)) ≡ true
starts_up x =
    let rest = String.◌∷◌ slash x in
    let text : append ".." rest ≡ String.◌∷◌ (char 46 tt) (String.◌∷◌ (char 46 tt) rest) =
      cons-append (char 46 tt) "." rest
      ∙ ap (String.◌∷◌ (char 46 tt))
          (cons-append (char 46 tt) "" rest ∙ ap (String.◌∷◌ (char 46 tt)) (nil-append rest)) in
    ap (starts "../") text

first_holds : (a b : Bool) → a ≡ true → (a || b) ≡ true
first_holds a b e = rw e refl

last_holds : (a b : Bool) → (a || (b || true)) ≡ true
last_holds a b = ground arith

up-IsOutside : (rest : List String) → IsOutside (join_segments (".." ∷ rest))
unfolding join_segments
up-IsOutside [] = refl
up-IsOutside (s ∷ rest) = first_holds _ _ (starts_up (join_segments (s ∷ rest)))

rooted-IsOutside : (x : String) → IsOutside (String.◌∷◌ slash x)
rooted-IsOutside x =
    last_holds (starts "../" (String.◌∷◌ slash x)) (str_eq (String.◌∷◌ slash x) "..")

abbrev Cases : String → Type 0
Cases p = (str_eq p "." ≡ true) ⊎ (IsOutside p ⊎ IsInside p)

blank : is_blank (join_segments []) ≡ true
unfolding join_segments
blank = refl

list-Cases :
    (xs : List String)
    → All IsPlainName xs ⊎ StartsUp xs
    → Cases (if is_blank (join_segments xs) then "." else join_segments xs)
list-Cases xs k = either (is_blank (join_segments xs)) refl (shape xs k)
  where
    shape :
        (xs : List String)
        → All IsPlainName xs ⊎ StartsUp xs
        → (xs ≡ []) ⊎ (IsOutside (join_segments xs) ⊎ IsInside (join_segments xs))
    shape [] k = inl refl
    shape (s ∷ ss) (inl names) = inr (inr (inr (s, ss, refl, names)))
    shape (s ∷ ss) (inr (rest, e)) =
        inr (inl (subst (λ ys. IsOutside (join_segments ys)) (sym e) (up-IsOutside rest)))

    either :
        (b : Bool)
        → is_blank (join_segments xs) ≡ b
        → (xs ≡ []) ⊎ (IsOutside (join_segments xs) ⊎ IsInside (join_segments xs))
        → Cases (if b then "." else join_segments xs)
    either true e k = inl refl
    either false e (inl none_left) =
        conflict (is_blank (join_segments xs))
          (ap (λ (ys : List String). is_blank (join_segments ys)) none_left ∙ blank) e
    either false e (inr k) = inr k

-- What `path.Clean` makes of a text without backslashes.
clean-Cases : (s : String) → NoBackslash s → Cases (clean s)
unfolding clean
clean-Cases s n = either (is_rooted s) (λ e.
    list-Cases (whole (is_rooted s))
      (backwards-names (elements (is_rooted s) [] (segments s)) [] (stack e) tt))
  where
    whole : Bool → List String
    whole b = backwards (elements b [] (segments s)) []

    stack : is_rooted s ≡ false → IsStack (elements (is_rooted s) [] (segments s))
    stack e =
        subst (λ b. IsStack (elements b [] (segments s))) (sym e)
          (elements-IsStack [] (segments s) (segments-NoSeparator s n) tt)

    either :
        (b : Bool)
        → (b ≡ false
            → Cases (
                if is_blank (join_segments (whole (is_rooted s)))
                then "."
                else join_segments (whole (is_rooted s))))
        → Cases (
            if b
            then String.◌∷◌ slash (join_segments (whole (is_rooted s)))
            else if is_blank (join_segments (whole (is_rooted s)))
            then "."
            else join_segments (whole (is_rooted s)))
    either true k = inr (inl (rooted-IsOutside (join_segments (whole (is_rooted s)))))
    either false k = k refl

-- The texts that are returned.
returned :
    (a b : Bool) (p vp : String)
    → Cases p
    → (if a || (b || str_eq p ".")
        then some ""
        else if starts "../" p || (str_eq p ".." || is_rooted p)
        then none
        else some p)
      ≡ some vp
    → IsInside vp
returned a b p vp k e =
    either (a || (b || str_eq p ".")) (starts "../" p || (str_eq p ".." || is_rooted p)) refl refl k
      e
  where
    either :
        (x y : Bool)
        → (a || (b || str_eq p ".")) ≡ x
        → (starts "../" p || (str_eq p ".." || is_rooted p)) ≡ y
        → Cases p
        → (if x then some "" else if y then none else some p) ≡ some vp
        → IsInside vp
    either true y f g k e = subst IsInside (some_inj "" vp e) (inl refl)
      where
        some_inj : (s t : String) → some s ≡ some t → s ≡ t
        some_inj s t h = cc
    either false true f g k e = absurd (cc e)
    either false false f g (inl dot) e =
        conflict (a || (b || str_eq p ".")) (rw dot (last_holds a b)) f
    either false false f g (inr (inl out)) e = conflict _ out g
    either false false f g (inr (inr inside)) e = subst IsInside (some_inj p vp e) inside
      where
        some_inj : (s t : String) → some s ≡ some t → s ≡ t
        some_inj s t h = cc

-- Whatever text CleanVirtualPath accepts, it returns the empty path or names put together with
-- slashes, none of which is empty, a step in place or a step up, or contains a slash or a backslash.
pub clean_virtual_path-IsInside :
    (input vp : String) → clean_virtual_path input ≡ some vp → IsInside vp
unfolding clean_virtual_path
clean_virtual_path-IsInside input vp e =
    let s = drop_slash (trim_space (to_slashes input)) in
    returned (str_eq s "") (str_eq s ".") (clean s) vp
      (clean-Cases s (
        drop_slash-NoBackslash (trim_space (to_slashes input))
          (trimmed (to_slashes input) (to_slashes-NoBackslash input))))
      e
