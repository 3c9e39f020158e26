-- ===== src/Vault/Path.antt =====
-- internal/vault/path.go: the virtual paths. A path is a text of Unicode characters; a path that is
-- not UTF-8 is not in the model. `trim_space`, `segments`, `clean` and `path_join` are what packages
-- strings and path of the standard library compute.
pub mod Content
pub mod Stack
pub mod Clean
mod Tests
use Prim.Native.Char.{Char, char, code}
use Prim.Native.String as Text
use Prim.Native.String.{String, ◌++◌ as append}
use open_seavault_rclone.Shared.{
  ℕ, Bool, true, false, ◌&&◌, ◌||◌, Option, none, some, List, [], ◌∷◌, leb, ◌==◌, str_eq,
  if◌then◌else◌,
}

abbrev pub slash : Char
slash = char 47 tt

abbrev pub is_slash : Char → Bool
is_slash c = code c == 47

-- `strings.ReplaceAll(s, "\\", "/")`
unfoldable pub to_slashes : String → String
to_slashes String.[] = String.[]
to_slashes (String.◌∷◌ c s) = String.◌∷◌ (if code c == 92 then slash else c) (to_slashes s)

-- unicode.IsSpace
abbrev pub in_range : ℕ → ℕ → ℕ → Bool
in_range lo hi n = leb lo n && leb n hi

abbrev pub one_of : ℕ → List ℕ → Bool
one_of n [] = false
one_of n (m ∷ ms) = (n == m) || one_of n ms

abbrev pub spaces : List ℕ
spaces = 32 ∷ 133 ∷ 160 ∷ 5760 ∷ 8232 ∷ 8233 ∷ 8239 ∷ 8287 ∷ 12288 ∷ []

unfoldable pub is_space : Char → Bool
is_space c = in_range 9 13 (code c) || (in_range 8192 8202 (code c) || one_of (code c) spaces)

-- `strings.TrimSpace`: one end, then the other.
unfoldable pub trim_start : String → String
trim_start String.[] = String.[]
trim_start (String.◌∷◌ c s) = let rest = trim_start s in if is_space c then rest else String.◌∷◌ c s

abbrev pub is_blank : String → Bool
is_blank String.[] = true
is_blank (String.◌∷◌ c s) = false

unfoldable pub trim_end : String → String
trim_end String.[] = String.[]
trim_end (String.◌∷◌ c s) =
    let rest = trim_end s in if is_space c && is_blank rest then String.[] else String.◌∷◌ c rest

unfoldable pub trim_space : String → String
unfolding trim_start trim_end is_space
trim_space s = trim_end (trim_start s)

-- `strings.TrimPrefix(s, "/")`
unfoldable pub drop_slash : String → String
drop_slash String.[] = String.[]
drop_slash (String.◌∷◌ c s) = if is_slash c then s else String.◌∷◌ c s

abbrev pub is_rooted : String → Bool
is_rooted String.[] = false
is_rooted (String.◌∷◌ c s) = is_slash c

-- `strings.Split(s, "/")`
abbrev pub onto_first : Char → List String → List String
onto_first c [] = String.◌∷◌ c String.[] ∷ []
onto_first c (s ∷ ss) = String.◌∷◌ c s ∷ ss

unfoldable pub segments : String → List String
segments String.[] = String.[] ∷ []
segments (String.◌∷◌ c s) =
    let rest = segments s in if is_slash c then String.[] ∷ rest else onto_first c rest

-- The segments put together with slashes.
unfoldable pub join_segments : List String → String
join_segments [] = String.[]
join_segments (s ∷ []) = s
join_segments (s ∷ t ∷ ts) = append s (String.◌∷◌ slash (join_segments (t ∷ ts)))

-- One element of the loop of `path.Clean`: `out` is what is written so far, the last element first.
-- An empty element and `.` are skipped, `..` takes an element back where there is one to take.
unfoldable pub back : Bool → List String → List String
back true [] = []
back false [] = ".." ∷ []
back rooted (s ∷ out) = if str_eq s ".." then ".." ∷ s ∷ out else out

unfoldable pub element : Bool → List String → String → List String
unfolding back
element rooted out s =
    if str_eq s "" || str_eq s "." then out else if str_eq s ".." then back rooted out else s ∷ out

unfoldable pub elements : Bool → List String → List String → List String
unfolding element
elements rooted out [] = out
elements rooted out (s ∷ ss) = elements rooted (element rooted out s) ss

unfoldable pub backwards : List String → List String → List String
backwards [] acc = acc
backwards (s ∷ ss) acc = backwards ss (s ∷ acc)

-- `path.Clean`
unfoldable pub clean : String → String
unfolding segments elements backwards join_segments
clean s =
    let path = join_segments (backwards (elements (is_rooted s) [] (segments s)) []) in
    if is_rooted s then String.◌∷◌ slash path else if is_blank path then "." else path

-- `path.Join` of two.
unfoldable pub path_join : String → String → String
unfolding clean
path_join a b =
    if is_blank a && is_blank b
    then ""
    else if is_blank a
    then clean b
    else if is_blank b
    then clean a
    else clean (append a (String.◌∷◌ slash b))

abbrev pub starts : String → String → Bool
starts String.[] s = true
starts (String.◌∷◌ c p) String.[] = false
starts (String.◌∷◌ c p) (String.◌∷◌ d s) = (code c == code d) && starts p s

-- `none` is the error.
unfoldable pub clean_virtual_path : String → Option String
unfolding clean to_slashes trim_space drop_slash
clean_virtual_path input =
    let s = drop_slash (trim_space (to_slashes input)) in
    let cleaned = clean s in
    if str_eq s "" || (str_eq s "." || str_eq cleaned ".")
    then some ""
    else if starts "../" cleaned || (str_eq cleaned ".." || is_rooted cleaned)
    then none
    else some cleaned

-- `virtualJoin`. On the systems where the separator is a backslash the replacement before the second
-- cleaning is the one that the cleaning makes.
unfoldable pub virtual_join : String → String → Option String
unfolding clean_virtual_path path_join
virtual_join base rel = elim (clean_virtual_path base) [
  | none ↦ none
  | some b ↦ elim (clean_virtual_path rel) [
    | none ↦ none
    | some r ↦ if str_eq b "" then some r else if str_eq r "" then some b else some (path_join b r)
  ]
]
