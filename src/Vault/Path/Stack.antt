-- ===== src/Vault/Path/Stack.antt =====
-- internal/vault/path.go: what the loop of `path.Clean` writes for CleanVirtualPath: names without a
-- separator, on steps up that nothing could be taken back for.
use Prim.Native.Char.{Char, code}
use Prim.Native.String.{String}
use open_seavault_rclone.Shared.{
  ◌≡◌, refl, ap, ◌⊎◌, inl, inr, Bool, true, false, ◌&&◌, ◌||◌, List, [], ◌∷◌, All, eq_iff, ◌==◌,
  str_eq, if◌then◌else◌,
}
use open_seavault_rclone.Vault.Path.{
  slash, is_slash, to_slashes, is_space, trim_start, trim_end, trim_space, drop_slash, is_blank,
  onto_first, segments, back, element, elements, backwards,
}

abbrev pub NoBackslash : String → Type 0
NoBackslash String.[] = Unit
NoBackslash (String.◌∷◌ c s) = ((code c == 92) ≡ false) × NoBackslash s

abbrev pub NoSeparator : String → Type 0
NoSeparator String.[] = Unit
NoSeparator (String.◌∷◌ c s) = ((is_slash c ≡ false) × ((code c == 92) ≡ false)) × NoSeparator s

-- A name that can stand between slashes: not empty, not a step up or in place, without a separator.
pub record IsPlainName (s : String) : Type 0 where
  pub not_empty : str_eq s "" ≡ false
  pub not_here : str_eq s "." ≡ false
  pub not_up : str_eq s ".." ≡ false
  pub no_separator : NoSeparator s

pub to_slashes-NoBackslash : (s : String) → NoBackslash (to_slashes s)
unfolding to_slashes
to_slashes-NoBackslash String.[] = tt
to_slashes-NoBackslash (String.◌∷◌ c s) = (either (code c == 92) refl, to_slashes-NoBackslash s)
  where
    either : (b : Bool) → (code c == 92) ≡ b → (code (if b then slash else c) == 92) ≡ false
    either true e = refl
    either false e = e

trim_start-NoBackslash : (s : String) → NoBackslash s → NoBackslash (trim_start s)
unfolding trim_start
trim_start-NoBackslash String.[] n = tt
trim_start-NoBackslash (String.◌∷◌ c s) n = either (is_space c) (trim_start-NoBackslash s n.1)
  where
    either :
        (b : Bool)
        → NoBackslash (trim_start s)
        → NoBackslash (if b then trim_start s else String.◌∷◌ c s)
    either true rest = rest
    either false rest = n

trim_end-NoBackslash : (s : String) → NoBackslash s → NoBackslash (trim_end s)
unfolding trim_end
trim_end-NoBackslash String.[] n = tt
trim_end-NoBackslash (String.◌∷◌ c s) n =
    either (is_space c && is_blank (trim_end s)) (trim_end-NoBackslash s n.1)
  where
    either :
        (b : Bool)
        → NoBackslash (trim_end s)
        → NoBackslash (if b then String.[] else String.◌∷◌ c (trim_end s))
    either true rest = tt
    either false rest = (n.0, rest)

pub drop_slash-NoBackslash : (s : String) → NoBackslash s → NoBackslash (drop_slash s)
unfolding drop_slash
drop_slash-NoBackslash String.[] n = tt
drop_slash-NoBackslash (String.◌∷◌ c s) n = either (is_slash c)
  where
    either : (b : Bool) → NoBackslash (if b then s else String.◌∷◌ c s)
    either true = n.1
    either false = n

onto_first-NoSeparator :
    (c : Char) (ss : List String)
    → (is_slash c ≡ false) × ((code c == 92) ≡ false)
    → All NoSeparator ss
    → All NoSeparator (onto_first c ss)
onto_first-NoSeparator c [] p a = ((p, tt), tt)
onto_first-NoSeparator c (s ∷ ss) p a = ((p, a.0), a.1)

pub trimmed : (s : String) → NoBackslash s → NoBackslash (trim_space s)
unfolding trim_space
trimmed s n = trim_end-NoBackslash (trim_start s) (trim_start-NoBackslash s n)

pub segments-NoSeparator : (s : String) → NoBackslash s → All NoSeparator (segments s)
unfolding segments
segments-NoSeparator String.[] n = (tt, tt)
segments-NoSeparator (String.◌∷◌ c s) n = either (is_slash c) refl (segments-NoSeparator s n.1)
  where
    either :
        (b : Bool)
        → is_slash c ≡ b
        → All NoSeparator (segments s)
        → All NoSeparator (if b then String.[] ∷ segments s else onto_first c (segments s))
    either true e rest = (tt, rest)
    either false e rest = onto_first-NoSeparator c (segments s) (e, n.0) rest

-- What the loop has written: names, on steps up that nothing could be taken back for.
abbrev pub IsUps : List String → Type 0
IsUps [] = Unit
IsUps (s ∷ out) = (str_eq s ".." ≡ true) × IsUps out

abbrev pub IsStack : List String → Type 0
IsStack [] = Unit
IsStack (s ∷ out) = (IsPlainName s × IsStack out) ⊎ ((str_eq s ".." ≡ true) × IsUps out)

pub conflict : {A : Type 0} (b : Bool) → b ≡ true → b ≡ false → A
conflict b t f = absurd (cc (t, f))

back-IsStack : (out : List String) → IsStack out → IsStack (back false out)
unfolding back
back-IsStack [] k = inr (refl, tt)
back-IsStack (s ∷ out) k = either (str_eq s "..") refl k
  where
    either :
        (b : Bool)
        → str_eq s ".." ≡ b
        → IsStack (s ∷ out)
        → IsStack (if b then ".." ∷ s ∷ out else out)
    either true e (inl k) = conflict (str_eq s "..") e k.0.not_up
    either true e (inr k) = inr (refl, k)
    either false e (inl k) = k.1
    either false e (inr k) = conflict (str_eq s "..") k.0 e

element-IsStack :
    (out : List String) (s : String) → NoSeparator s → IsStack out → IsStack (element false out s)
unfolding element
element-IsStack out s n k = either (str_eq s "") (str_eq s ".") (str_eq s "..") refl refl refl
  where
    either :
        (a b c : Bool)
        → str_eq s "" ≡ a
        → str_eq s "." ≡ b
        → str_eq s ".." ≡ c
        → IsStack (if a || b then out else if c then back false out else s ∷ out)
    either true b c e f g = k
    either false true c e f g = k
    either false false true e f g = back-IsStack out k
    either false false false e f g =
        inl (record { not_empty = e; not_here = f; not_up = g; no_separator = n }, k)

pub elements-IsStack :
    (out ss : List String) → All NoSeparator ss → IsStack out → IsStack (elements false out ss)
unfolding elements
elements-IsStack out [] n k = k
elements-IsStack out (s ∷ ss) n k =
    elements-IsStack (element false out s) ss n.1 (element-IsStack out s n.0 k)

abbrev pub StartsUp : List String → Type 0
StartsUp xs = (rest : List String) × (xs ≡ ".." ∷ rest)

backwards-StartsUp :
    (s : String) (out acc : List String)
    → str_eq s ".." ≡ true
    → IsUps out
    → StartsUp (backwards out (s ∷ acc))
unfolding backwards
backwards-StartsUp s [] acc e u = (acc, ap (λ (t : String). t ∷ acc) ((eq_iff s "..").0 e))
backwards-StartsUp s (t ∷ out) acc e u = backwards-StartsUp t out (s ∷ acc) u.0 u.1

pub backwards-names :
    (out acc : List String)
    → IsStack out
    → All IsPlainName acc
    → All IsPlainName (backwards out acc) ⊎ StartsUp (backwards out acc)
unfolding backwards
backwards-names [] acc k n = inl n
backwards-names (s ∷ out) acc (inl k) n = backwards-names out (s ∷ acc) k.1 (k.0, n)
backwards-names (s ∷ out) acc (inr k) n = inr (backwards-StartsUp s out acc k.0 k.1)
