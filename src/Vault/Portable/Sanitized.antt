-- ===== src/Vault/Portable/Sanitized.antt =====
-- internal/vault/portable.go: `sanitizePortableSegment` makes exactly the names that pass the gate.
use open_seavault_rclone.Shared.{
  ℕ, ◌≡◌, ◌↔◌, inl, inr, refl, ap, sym, ◌∙◌, Bool, true, false, ◌||◌, Option, none, some, [], ◌∷◌,
  if◌then◌else◌, map, arith, Bool-cases,
}
use open_seavault_rclone.Vault.Portable.{
  Segment, NameError, trailing_character, reserved_name, elem, portable_illegal_chars, is_port,
  reserved_stems, to_upper, stem, is_reserved_stem, is_control, scan_chars, last, is_trimmed,
  validate_portable_name, replace_char, trim_right, or_underscore, sanitize_portable_segment,
}

abbrev is_illegal : ℕ → Bool
is_illegal r = is_control r || elem r portable_illegal_chars

replace_char-clean : (r : ℕ) → is_illegal (replace_char r) ≡ false
unfolding replace_char
replace_char-clean r = elim (Bool-cases (is_illegal r)) [ inl y ↦ rw y refl | inr n ↦ rw n n ]

tests :
    (a b : Bool) (x y : NameError) (o : Option NameError)
    → ((a || b) ≡ false) × (o ≡ none) ↔ ((if a then some x else if b then some y else o) ≡ none)
tests true b x y o = ((λ h. absurd (let z = h.0 in ground arith)), (λ h. absurd (ground arith)))
tests false true x y o = ((λ h. absurd (let z = h.0 in ground arith)), (λ h. absurd (ground arith)))
tests false false x y o = ((λ h. h.1), (λ h. (refl, h)))

scan_chars-cons :
    (r : ℕ) (rs : Segment)
    → is_illegal r ≡ false
    → scan_chars rs ≡ none
    → scan_chars (r ∷ rs) ≡ none
unfolding scan_chars
scan_chars-cons r rs h g =
    (tests (is_control r) (elem r portable_illegal_chars) _ _ (scan_chars rs)).0 (h, g)

scan_chars-first : (r : ℕ) (rs : Segment) → scan_chars (r ∷ rs) ≡ none → is_illegal r ≡ false
unfolding scan_chars
scan_chars-first r rs h =
    ((tests (is_control r) (elem r portable_illegal_chars) _ _ (scan_chars rs)).1 h).0

scan_chars-rest : (r : ℕ) (rs : Segment) → scan_chars (r ∷ rs) ≡ none → scan_chars rs ≡ none
unfolding scan_chars
scan_chars-rest r rs h =
    ((tests (is_control r) (elem r portable_illegal_chars) _ _ (scan_chars rs)).1 h).1

scan_chars-map : (s : Segment) → scan_chars (map replace_char s) ≡ none
unfolding scan_chars
scan_chars-map [] = refl
scan_chars-map (r ∷ rs) =
    scan_chars-cons (replace_char r) (map replace_char rs) (replace_char-clean r)
      (scan_chars-map rs)

scan_chars-trim_right : (s : Segment) → scan_chars s ≡ none → scan_chars (trim_right s) ≡ none
unfolding trim_right
scan_chars-trim_right [] h = h
scan_chars-trim_right (r ∷ rs) h =
    kept (trim_right rs) (scan_chars-trim_right rs (scan_chars-rest r rs h))
  where
    kept :
        (t : Segment)
        → scan_chars t ≡ none
        → scan_chars (elim t as (λ (_ : Segment). Segment) [
          | [] ↦ if is_trimmed r then [] else r ∷ []
          | s ∷ ss ↦ r ∷ s ∷ ss
        ])
          ≡ none
    kept [] g = elim (Bool-cases (is_trimmed r)) [
      | inl y ↦ rw y g
      | inr n ↦ rw n (scan_chars-cons r [] (scan_chars-first r rs h) g)
    ]
    kept (s ∷ ss) g = scan_chars-cons r (s ∷ ss) (scan_chars-first r rs h) g

-- There is no last code point, or it is neither a dot nor a space.
abbrev EndsWell : Segment → Type 0
EndsWell [] = Unit
EndsWell (r ∷ rs) = is_trimmed (last r rs) ≡ false

trim_right-EndsWell : (s : Segment) → EndsWell (trim_right s)
unfolding trim_right last
trim_right-EndsWell [] = tt
trim_right-EndsWell (r ∷ rs) = kept (trim_right rs) (trim_right-EndsWell rs)
  where
    kept :
        (t : Segment)
        → EndsWell t
        → EndsWell (elim t as (λ (_ : Segment). Segment) [
          | [] ↦ if is_trimmed r then [] else r ∷ []
          | s ∷ ss ↦ r ∷ s ∷ ss
        ])
    kept [] g = elim (Bool-cases (is_trimmed r)) [ inl y ↦ rw y tt | inr n ↦ rw n n ]
    kept (s ∷ ss) g = g

or_underscore-EndsWell : (s : Segment) → EndsWell s → EndsWell (or_underscore s)
unfolding last
or_underscore-EndsWell [] h = refl
or_underscore-EndsWell (r ∷ rs) h = h

scan_chars-or_underscore : (s : Segment) → scan_chars s ≡ none → scan_chars (or_underscore s) ≡ none
unfolding scan_chars
scan_chars-or_underscore [] h = refl
scan_chars-or_underscore (r ∷ rs) h = h

is_port-underscore : (s : Segment) → is_port (b'_' ∷ s) ≡ false
is_port-underscore [] = refl
is_port-underscore (a ∷ []) = refl
is_port-underscore (a ∷ b ∷ []) = refl
is_port-underscore (a ∷ b ∷ c ∷ []) = refl
is_port-underscore (a ∷ b ∷ c ∷ d ∷ s) = refl

-- No reserved name begins with an underscore.
is_reserved_stem-underscore : (s : Segment) → is_reserved_stem (b'_' ∷ s) ≡ false
unfolding is_reserved_stem stem reserved_stems
is_reserved_stem-underscore s = is_port-underscore (map to_upper (stem s))

-- The three conditions of the gate on a name that is not empty.
validate_portable_name-cons :
    (r : ℕ) (rs : Segment)
    → scan_chars (r ∷ rs) ≡ none
    → is_trimmed (last r rs) ≡ false
    → is_reserved_stem (r ∷ rs) ≡ false
    → validate_portable_name (r ∷ rs) ≡ none
unfolding validate_portable_name
validate_portable_name-cons r rs a b c = rw (a, b, c, validate_portable_name) refl

-- What `sanitizePortableSegment` makes of any name passes the gate.
pub sanitize_portable_segment-valid :
    (s : Segment) → validate_portable_name (sanitize_portable_segment s) ≡ none
unfolding sanitize_portable_segment
sanitize_portable_segment-valid s =
    gated (trim_right (map replace_char s))
      (scan_chars-trim_right (map replace_char s) (scan_chars-map s))
      (trim_right-EndsWell (map replace_char s))
  where
    checked :
        (r : ℕ) (rs : Segment)
        → scan_chars (r ∷ rs) ≡ none
        → EndsWell (r ∷ rs)
        → validate_portable_name (if is_reserved_stem (r ∷ rs) then b'_' ∷ r ∷ rs else r ∷ rs)
          ≡ none
    checked r rs a b = elim (Bool-cases (is_reserved_stem (r ∷ rs))) [
      | inr n ↦ rw n (validate_portable_name-cons r rs a b n)
      | inl y ↦ rw y (
          validate_portable_name-cons b'_' (r ∷ rs) (scan_chars-cons b'_' (r ∷ rs) refl a)
            (unfold last in b) (is_reserved_stem-underscore (r ∷ rs)))
    ]

    gated :
        (t : Segment)
        → scan_chars t ≡ none
        → EndsWell t
        → validate_portable_name
            (if is_reserved_stem (or_underscore t) then b'_' ∷ or_underscore t else or_underscore t)
          ≡ none
    gated [] a b = checked b'_' [] (scan_chars-cons b'_' [] refl a) (unfold last in refl)
    gated (r ∷ rs) a b = checked r rs a b

replace_char-same : (r : ℕ) → is_illegal r ≡ false → replace_char r ≡ r
unfolding replace_char
replace_char-same r h = rw h refl

map-same : (s : Segment) → scan_chars s ≡ none → map replace_char s ≡ s
map-same [] h = refl
map-same (r ∷ rs) h =
    λ i. replace_char-same r (scan_chars-first r rs h) i ∷ map-same rs (scan_chars-rest r rs h) i

trim_right-same :
    (r : ℕ) (rs : Segment) → is_trimmed (last r rs) ≡ false → trim_right (r ∷ rs) ≡ r ∷ rs
unfolding trim_right last
trim_right-same r [] h = rw h refl
trim_right-same r (s ∷ rs) h = rw (trim_right-same s rs h) refl

validate_portable_name-conditions :
    (r : ℕ) (rs : Segment)
    → validate_portable_name (r ∷ rs) ≡ none
    → (scan_chars (r ∷ rs) ≡ none)
      × (is_trimmed (last r rs) ≡ false)
      × (is_reserved_stem (r ∷ rs) ≡ false)
unfolding validate_portable_name
validate_portable_name-conditions r rs =
    conditions (scan_chars (r ∷ rs)) (is_trimmed (last r rs)) (is_reserved_stem (r ∷ rs))
  where
    conditions :
        (o : Option NameError) (a b : Bool)
        → (elim o as (λ (_ : Option NameError). Option NameError) [
          | some e ↦ some e
          | none ↦ if a then some trailing_character else if b then some reserved_name else none
        ])
          ≡ none
        → (o ≡ none) × (a ≡ false) × (b ≡ false)
    conditions (some e) a b h = absurd (ground arith)
    conditions none true b h = absurd (ground arith)
    conditions none false true h = absurd (ground arith)
    conditions none false false h = (refl, refl, refl)

sanitize-same : (s : Segment) → validate_portable_name s ≡ none → sanitize_portable_segment s ≡ s
unfolding sanitize_portable_segment
sanitize-same [] h = absurd (unfold validate_portable_name in ground arith)
sanitize-same (r ∷ rs) h =
    let c = validate_portable_name-conditions r rs h in
    let trimmed : trim_right (map replace_char (r ∷ rs)) ≡ r ∷ rs =
      ap trim_right (map-same (r ∷ rs) c.0) ∙ trim_right-same r rs c.1 in
    ap
      (λ (t : Segment).
        if is_reserved_stem (or_underscore t) then b'_' ∷ or_underscore t else or_underscore t)
      trimmed
    ∙ rw c.2 refl

-- A name passes the gate exactly if `sanitizePortableSegment` leaves it as it is.
pub validate_portable_name_iff :
    (s : Segment) → (validate_portable_name s ≡ none) ↔ (sanitize_portable_segment s ≡ s)
validate_portable_name_iff s =
    (sanitize-same s, λ h. ap validate_portable_name (sym h) ∙ sanitize_portable_segment-valid s)
