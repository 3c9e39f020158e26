-- ===== src/Vault/Store/Grouped.antt =====
-- internal/vault/manifest.go: the groups that `loadManifestIndex` makes of the copies: the group of a
-- path is the list of all copies that name the path and stand in a file with the path's id.
use open_seavault_rclone.Shared.Dict.{get, string_eq, get-put, Distinct, put-Distinct}
use open_seavault_rclone.Shared.{
  ◌≡◌, refl, ap, sym, ◌∙◌, String, true, false, Option, none, some, List, [], ◌∷◌, ◌++◌, eq_iff,
  str_eq, ◌⊎◌, inl, inr, Bool-cases, if◌then◌else◌,
}
use mathlib.Core.List.{append_assoc, append-nil}
use open_seavault_rclone.Vault.Manifest.{Candidate}
use open_seavault_rclone.Vault.Store.{Codec}
use open_seavault_rclone.Vault.Store.Load.{
  Groups, group_path, group_at, at_path, grouped_one, by_path,
}

abbrev pub copy_if : String → Option String → Candidate → List Candidate
copy_if p none c = []
copy_if p (some path) c = if str_eq path p then at_path path c ∷ [] else []

-- The copies of one path, in the order of the walk, with the cleaned path put in.
abbrev pub copies_of : Codec → String → List Candidate → List Candidate
copies_of k p [] = []
copies_of k p (c ∷ cs) = copy_if p (group_path k c) c ++ copies_of k p cs

abbrev pub listed : List Candidate → Option (List Candidate)
listed [] = none
listed (c ∷ cs) = some (c ∷ cs)

listed-snoc :
    (xs : List Candidate) (c : Candidate) → listed (xs ++ (c ∷ [])) ≡ some (xs ++ (c ∷ []))
listed-snoc [] c = refl
listed-snoc (x ∷ xs) c = refl

-- A path without copies has no entry, and a path with copies has them all.
abbrev IsListed : String → Groups → Type 0
IsListed p groups = get p groups ≡ listed (group_at p groups)

group_at-of_get :
    (p : String) (groups : Groups) (xs : List Candidate)
    → get p groups ≡ listed xs
    → group_at p groups ≡ xs
group_at-of_get p groups [] e = rw (e, group_at) refl
group_at-of_get p groups (x ∷ xs) e = rw (e, group_at) refl

grouped_one-get :
    (p : String) (c : Candidate) (o : Option String) (groups : Groups)
    → IsListed p groups
    → get p (grouped_one c o groups) ≡ listed (group_at p groups ++ copy_if p o c)
grouped_one-get p c none groups h = rw (append-nil (group_at p groups)) h
grouped_one-get p c (some path) groups h =
    get-put path p (group_at path groups ++ (at_path path c ∷ [])) groups
    ∙ by_key (Bool-cases (str_eq path p))
  where
    by_key :
        (str_eq path p ≡ true) ⊎ (str_eq path p ≡ false)
        → (if str_eq path p
            then some (group_at path groups ++ (at_path path c ∷ []))
            else get p groups)
          ≡ listed (group_at p groups ++ copy_if p (some path) c)
    by_key (inl same) =
        rw same (cc ((eq_iff path p).0 same, listed-snoc (group_at p groups) (at_path path c)))
    by_key (inr other) = rw other (rw (append-nil (group_at p groups)) h)

by_path-get :
    (k : Codec) (p : String) (groups : Groups) (cs : List Candidate)
    → IsListed p groups
    → get p (by_path k groups cs) ≡ listed (group_at p groups ++ copies_of k p cs)
unfolding by_path
by_path-get k p groups [] h = rw (append-nil (group_at p groups)) h
by_path-get k p groups (c ∷ cs) h =
    let o = group_path k c in
    let e = grouped_one-get p c o groups h in
    let g = group_at-of_get p (grouped_one c o groups) (group_at p groups ++ copy_if p o c) e in
    by_path-get k p (grouped_one c o groups) cs (e ∙ ap listed (sym g))
    ∙ ap listed (rw g (append_assoc (group_at p groups) (copy_if p o c) (copies_of k p cs)))

-- The group of a path: all its copies.
pub by_path-copies_of :
    (k : Codec) (p : String) (cs : List Candidate)
    → get p (by_path k [] cs) ≡ listed (copies_of k p cs)
unfolding get
by_path-copies_of k p cs = by_path-get k p [] cs refl

pub by_path-Distinct :
    (k : Codec) (groups : Groups) (cs : List Candidate)
    → Distinct groups
    → Distinct (by_path k groups cs)
unfolding by_path
by_path-Distinct k groups [] d = d
by_path-Distinct k groups (c ∷ cs) d =
    by_path-Distinct k (grouped_one c (group_path k c) groups) cs (step (group_path k c))
  where
    step : (o : Option String) → Distinct (grouped_one c o groups)
    step none = d
    step (some path) = put-Distinct path (group_at path groups ++ (at_path path c ∷ [])) groups d
