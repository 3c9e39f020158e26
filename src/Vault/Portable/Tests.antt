-- ===== src/Vault/Portable/Tests.antt =====
-- internal/vault/portable.go: the theorems at names that Windows refuses, and such names sanitized.
use open_seavault_rclone.Shared.{◌≡◌, ◌↔◌, refl, none, some, [], ◌∷◌}
use open_seavault_rclone.Vault.Portable.{
  Segment, validate_portable_name, sanitize_portable_segment, trim_right, replace_char,
  is_reserved_stem, stem, reserved_stems, reserved_name, scan_chars, last,
}
use open_seavault_rclone.Vault.Portable.Sanitized.{validate_portable_name_iff}

-- con.txt
abbrev device : Segment
device = b'c' ∷ b'o' ∷ b'n' ∷ b'.' ∷ b't' ∷ b'x' ∷ b't' ∷ []

-- a:b. and a space
abbrev stream : Segment
stream = b'a' ∷ b':' ∷ b'b' ∷ b'.' ∷ 32 ∷ []

device_is_reserved : validate_portable_name device ≡ some reserved_name
unfolding validate_portable_name is_reserved_stem stem reserved_stems scan_chars last
device_is_reserved = refl

stream_sanitized : sanitize_portable_segment stream ≡ b'a' ∷ b'_' ∷ b'b' ∷ []
unfolding sanitize_portable_segment trim_right replace_char is_reserved_stem stem reserved_stems
stream_sanitized = refl

validate_portable_name_iff_example :
    (validate_portable_name device ≡ none) ↔ (sanitize_portable_segment device ≡ device)
validate_portable_name_iff_example = validate_portable_name_iff device
