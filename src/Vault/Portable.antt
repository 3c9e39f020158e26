-- ===== src/Vault/Portable.antt =====
-- internal/vault/portable.go: which names of path segments can be restored on every system. A name
-- is the list of its code points, as `range` reads them; the model has no name that is not UTF-8.
pub mod Sanitized
mod Tests
use open_seavault_rclone.Shared.{
  ℕ, suc, ◌-◌, Bool, true, false, ◌&&◌, ◌||◌, not, Option, none, some, List, [], ◌∷◌, ltb, leb,
  ◌==◌, if◌then◌else◌, map,
}

abbrev pub Segment : Type 0
Segment = List ℕ

pub data NameError : Type 0 where
  empty_name control_character illegal_character trailing_character reserved_name : NameError

abbrev pub elem : ℕ → List ℕ → Bool
elem r [] = false
elem r (c ∷ cs) = (r == c) || elem r cs

-- <>:"|?*
abbrev pub portable_illegal_chars : Segment
portable_illegal_chars = b'<' ∷ b'>' ∷ b':' ∷ 34 ∷ b'|' ∷ b'?' ∷ b'*' ∷ []

abbrev pub same : Segment → Segment → Bool
same [] [] = true
same [] (y ∷ ys) = false
same (x ∷ xs) [] = false
same (x ∷ xs) (y ∷ ys) = (x == y) && same xs ys

-- CON PRN AUX NUL, and COM or LPT with a digit from 1 to 9.
abbrev pub plain_stems : List Segment
plain_stems =
    (67 ∷ 79 ∷ 78 ∷ []) ∷ (80 ∷ 82 ∷ 78 ∷ []) ∷ (65 ∷ 85 ∷ 88 ∷ []) ∷ (78 ∷ 85 ∷ 76 ∷ []) ∷ []

abbrev pub some_same : Segment → List Segment → Bool
some_same s [] = false
some_same s (t ∷ ts) = same s t || some_same s ts

abbrev pub is_port : Segment → Bool
is_port (a ∷ b ∷ c ∷ d ∷ []) =
    (same (a ∷ b ∷ c ∷ []) (67 ∷ 79 ∷ 77 ∷ []) || same (a ∷ b ∷ c ∷ []) (76 ∷ 80 ∷ 84 ∷ []))
    && leb b'1' d
    && leb d b'9'
is_port s = false

unfoldable pub reserved_stems : Segment → Bool
reserved_stems s = some_same s plain_stems || is_port s

-- `strings.ToUpper` on the letters of the stems: no other code point has one of them as upper case.
abbrev pub to_upper : ℕ → ℕ
to_upper r = if leb b'a' r && leb r b'z' then r - 32 else r

unfoldable pub stem : Segment → Segment
stem [] = []
stem (r ∷ rs) = let rest = stem rs in if r == b'.' then [] else r ∷ rest

unfoldable pub is_reserved_stem : Segment → Bool
unfolding stem reserved_stems
is_reserved_stem segment = reserved_stems (map to_upper (stem segment))

abbrev pub is_control : ℕ → Bool
is_control r = ltb r 32 || (r == 127)

unfoldable pub scan_chars : Segment → Option NameError
scan_chars [] = none
scan_chars (r ∷ rs) =
    let rest = scan_chars rs in
    if is_control r
    then some control_character
    else if elem r portable_illegal_chars
    then some illegal_character
    else rest

-- The last code point, or 0 where there is none.
unfoldable pub last : ℕ → Segment → ℕ
last r [] = r
last r (s ∷ rs) = last s rs

abbrev pub is_trimmed : ℕ → Bool
is_trimmed r = (r == b'.') || (r == 32)

unfoldable pub validate_portable_name : Segment → Option NameError
unfolding scan_chars last is_reserved_stem
validate_portable_name [] = some empty_name
validate_portable_name (r ∷ rs) = elim (scan_chars (r ∷ rs)) [
  | some e ↦ some e
  | none ↦
      if is_trimmed (last r rs)
      then some trailing_character
      else if is_reserved_stem (r ∷ rs)
      then some reserved_name
      else none
]

unfoldable pub replace_char : ℕ → ℕ
replace_char r = if is_control r || elem r portable_illegal_chars then b'_' else r

-- `strings.TrimRight(s, ". ")`
unfoldable pub trim_right : Segment → Segment
trim_right [] = []
trim_right (r ∷ rs) = elim (trim_right rs) [
  | [] ↦ if is_trimmed r then [] else r ∷ []
  | s ∷ ss ↦ r ∷ s ∷ ss
]

abbrev pub or_underscore : Segment → Segment
or_underscore [] = b'_' ∷ []
or_underscore (r ∷ rs) = r ∷ rs

unfoldable pub sanitize_portable_segment : Segment → Segment
unfolding replace_char trim_right is_reserved_stem
sanitize_portable_segment segment =
    let out = or_underscore (trim_right (map replace_char segment)) in
    if is_reserved_stem out then b'_' ∷ out else out
