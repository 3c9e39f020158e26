-- ===== src/Vault/Path/Content.antt =====
-- internal/vault/content.go, and isMetadataDirName of internal/vault/metadir.go: the paths of the
-- content root, the directory markers and the reserved names. `same_fold` and `lower` are
-- strings.EqualFold and strings.ToLower: besides the letters A to Z they change only the characters
-- that they bring to a letter of the names they are compared with here.
use Prim.Native.Char.{code}
use Prim.Native.String.{String}
use open_seavault_rclone.Shared.{
  ℕ, ◌+◌, Bool, true, false, ◌&&◌, ◌||◌, Option, none, some, List, [], ◌∷◌, map, leb, ◌==◌, str_eq,
  if◌then◌else◌,
}
use open_seavault_rclone.Shared.Dict.{Dict}
use open_seavault_rclone.Vault.Manifest.{FileRecord}
use open_seavault_rclone.Vault.Path.{
  is_slash, is_blank, starts, segments, clean, path_join, clean_virtual_path,
}

abbrev pub codes : String → List ℕ
codes String.[] = []
codes (String.◌∷◌ c s) = code c ∷ codes s

abbrev pub same : List ℕ → List ℕ → Bool
same [] [] = true
same [] (y ∷ ys) = false
same (x ∷ xs) [] = false
same (x ∷ xs) (y ∷ ys) = (x == y) && same xs ys

-- The long s and the Kelvin sign fold to s and k.
unfoldable pub fold : ℕ → ℕ
fold c =
    if leb b'A' c && leb c b'Z'
    then c + 32
    else if c == 383
    then b's'
    else if c == 8490
    then b'k'
    else c

unfoldable pub same_fold : String → String → Bool
unfolding fold
same_fold s t = same (map fold (codes s)) (map fold (codes t))

-- The dotted capital I and the Kelvin sign have i and k as lower case.
unfoldable pub lower : ℕ → ℕ
lower c =
    if leb b'A' c && leb c b'Z'
    then c + 32
    else if c == 304
    then b'i'
    else if c == 8490
    then b'k'
    else c

unfoldable pub has_suffix : List ℕ → List ℕ → Bool
has_suffix suffix [] = same suffix []
has_suffix suffix (c ∷ s) = same suffix (c ∷ s) || has_suffix suffix s

-- `strings.Trim(vp, "/")`
unfoldable pub trim_slashes_left : String → String
trim_slashes_left String.[] = String.[]
trim_slashes_left (String.◌∷◌ c s) =
    let rest = trim_slashes_left s in if is_slash c then rest else String.◌∷◌ c s

unfoldable pub trim_slashes_right : String → String
trim_slashes_right String.[] = String.[]
trim_slashes_right (String.◌∷◌ c s) =
    let rest = trim_slashes_right s in
    if is_slash c && is_blank rest then String.[] else String.◌∷◌ c rest

abbrev pub content_root : String
content_root = "content"

abbrev pub directory_marker_name : String
directory_marker_name = ".seavault-dir"

-- `none` is the error, as in the mappings below.
unfoldable pub normalize_content_path : String → Option String
unfolding clean_virtual_path path_join
normalize_content_path input = elim (clean_virtual_path input) [
  | none ↦ none
  | some vp ↦
      if str_eq vp "" || str_eq vp "."
      then some content_root
      else if str_eq vp content_root || starts "content/" vp
      then some vp
      else some (path_join content_root vp)
]

unfoldable pub is_directory_marker_path : String → Bool
unfolding trim_slashes_left trim_slashes_right same_fold lower has_suffix
is_directory_marker_path vp =
    let s = trim_slashes_right (trim_slashes_left vp) in
    same_fold s directory_marker_name || has_suffix (codes "/.seavault-dir") (map lower (codes s))

unfoldable pub is_internal_virtual_path : String → Bool
unfolding is_directory_marker_path
is_internal_virtual_path vp = if str_eq vp "" then false else is_directory_marker_path vp

-- `strings.HasSuffix(vp, "/")`
unfoldable pub ends_in_slash : String → Bool
ends_in_slash String.[] = false
ends_in_slash (String.◌∷◌ c s) = if is_blank s then is_slash c else ends_in_slash s

unfoldable pub normalize_content_file_path : String → Option String
unfolding normalize_content_path is_directory_marker_path ends_in_slash
normalize_content_file_path input = elim (normalize_content_path input) [
  | none ↦ none
  | some vp ↦
      if str_eq vp "" || (str_eq vp content_root || ends_in_slash vp)
      then none
      else if is_directory_marker_path vp
      then none
      else some vp
]

unfoldable pub normalize_content_dir_path : String → Option String
unfolding normalize_content_path is_directory_marker_path
normalize_content_dir_path input = elim (normalize_content_path input) [
  | none ↦ none
  | some vp ↦ if is_directory_marker_path vp then none else some vp
]

unfoldable pub is_metadata_dir_name : String → Bool
unfolding same_fold
is_metadata_dir_name s = same_fold s "SeaVaultData" || same_fold s ".seavault"

unfoldable pub some_reserved : List String → Bool
unfolding same_fold is_metadata_dir_name
some_reserved [] = false
some_reserved (s ∷ ss) =
    (same_fold s directory_marker_name || is_metadata_dir_name s) || some_reserved ss

unfoldable pub contains_reserved_segment : String → Bool
unfolding some_reserved segments
contains_reserved_segment vp = some_reserved (segments vp)

unfoldable pub directory_marker_path : String → Option String
unfolding normalize_content_dir_path path_join
directory_marker_path dir = elim (normalize_content_dir_path dir) [
  | none ↦ none
  | some vp ↦ some (path_join vp directory_marker_name)
]

-- `path.Split`: up to the last slash, and after it.
unfoldable pub split_path : String → String × String
split_path String.[] = (String.[], String.[])
split_path (String.◌∷◌ c s) =
    let (d, f) = split_path s in
    if is_blank d
    then if is_slash c then (String.◌∷◌ c String.[], f) else (String.[], String.◌∷◌ c f)
    else (String.◌∷◌ c d, f)

-- `path.Dir`
unfoldable pub dir_of : String → String
unfolding split_path clean
dir_of s = clean ((split_path s).0)

-- `path.Base`
unfoldable pub base_of : String → String
unfolding split_path trim_slashes_right
base_of s =
    let f = (split_path (trim_slashes_right s)).1 in
    if str_eq s "" then "." else if is_blank f then "/" else f

-- The files that `visibleIndex` keeps.
unfoldable pub visible : Dict String FileRecord → Dict String FileRecord
unfolding is_internal_virtual_path
visible [] = []
visible ((p, r) ∷ files) =
    let rest = visible files in if is_internal_virtual_path p then rest else (p, r) ∷ rest
