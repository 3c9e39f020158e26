-- ===== src/Vault/Store/Name.antt =====
-- internal/vault/manifest.go: the name of a manifest file gives its id back, `manifestPath` and
-- `manifestIDFromFileName`.
use Prim.Native.Char.{Char, code}
use Prim.Native.String.{String, count, ◌++◌ as append}
use mathlib.Core.Path.{subst}
use text.Mathlib.TextLemmas.{nil-append, cons-append, length-nil, length-cons}
use open_seavault_rclone.Shared.{
  ℕ, zero, suc, ◌≡◌, refl, ap, sym, ◌∙◌, Bool, true, false, ◌&&◌, ◌||◌, some, arith, leb, ◌==◌,
}
use open_seavault_rclone.Vault.Path.{is_blank}
use open_seavault_rclone.Vault.Path.Content.{lower}
use open_seavault_rclone.Vault.Store.{
  is_hex_digit, all_hex, is_hex, lower_digit, lower_hex, prepend, before_marker, first_chars,
  id_of_prefix, manifest_id_from_file_name,
}

-- Lower-case hexadecimal digits, as `hex.EncodeToString` writes them.
abbrev pub is_lower_digit : Char → Bool
is_lower_digit c =
    (leb b'0' (code c) && leb (code c) b'9') || (leb b'a' (code c) && leb (code c) b'f')

abbrev pub all_lower : String → Bool
all_lower String.[] = true
all_lower (String.◌∷◌ c s) = is_lower_digit c && all_lower s

-- What an HMAC-SHA256 in hexadecimal is.
pub record IsId (id : String) : Type 0 where
  pub digits : all_lower id ≡ true
  pub size : count id ≡ 64

both : (a b : Bool) → (a && b) ≡ true → (a ≡ true) × (b ≡ true)
both true true h = (refl, refl)
both true false h = absurd (cc h)
both false b h = absurd (cc h)

digit-not_dot : (c : Char) → is_lower_digit c ≡ true → (b'.' == lower (code c)) ≡ false
unfolding lower
digit-not_dot c h = ground arith

-- A character that is no dot begins no `.manifest`.
before_marker-cons :
    (c : Char) (s : String)
    → (b'.' == lower (code c)) ≡ false
    → before_marker (String.◌∷◌ c s) ≡ prepend c (before_marker s)
unfolding before_marker
before_marker-cons c s e = rw e refl

pub before-id :
    (id : String) → all_lower id ≡ true → before_marker (append id ".manifest") ≡ some id
unfolding before_marker lower
before-id String.[] h =
    subst (λ (t : String). before_marker t ≡ some "") (sym (nil-append ".manifest")) refl
before-id (String.◌∷◌ c s) h =
    let b = both (is_lower_digit c) (all_lower s) h in
    rw (cons-append c s ".manifest") (
      before_marker-cons c (append s ".manifest") (digit-not_dot c b.0)
      ∙ ap (prepend c) (before-id s b.1))

all_lower-is_hex : (s : String) → all_lower s ≡ true → all_hex s ≡ true
all_lower-is_hex String.[] h = refl
all_lower-is_hex (String.◌∷◌ c s) h =
    let b = both (is_lower_digit c) (all_lower s) h in rw (all_lower-is_hex s b.1) (step c b.0)
  where
    step : (c : Char) → is_lower_digit c ≡ true → (is_hex_digit c && true) ≡ true
    step c h = ground arith

lower_digit-id : (c : Char) → is_lower_digit c ≡ true → lower_digit c ≡ c
lower_digit-id c h = ground arith

lower_hex-id : (s : String) → all_lower s ≡ true → lower_hex s ≡ s
unfolding lower_hex
lower_hex-id String.[] h = refl
lower_hex-id (String.◌∷◌ c s) h =
    let b = both (is_lower_digit c) (all_lower s) h in
    rw (lower_hex-id s b.1, lower_digit-id c b.0) refl

first_chars-all : (n : ℕ) (s : String) → count s ≡ n → first_chars n s ≡ s
unfolding first_chars
first_chars-all zero String.[] e = refl
first_chars-all (suc n) String.[] e = refl
first_chars-all zero (String.◌∷◌ c s) e = absurd (omega (arith, length-cons c s))
first_chars-all (suc n) (String.◌∷◌ c s) e =
    ap (String.◌∷◌ c) (first_chars-all n s (omega (arith, length-cons c s)))

pub id-not_blank : (id : String) → IsId id → is_blank id ≡ false
id-not_blank String.[] i = absurd (omega (arith, i.size, length-nil))
id-not_blank (String.◌∷◌ c s) i = refl

id_of_own_prefix : (id : String) → IsId id → id_of_prefix id ≡ id
unfolding id_of_prefix is_hex
id_of_own_prefix id i =
    rw
      (
        id-not_blank id i,
        i.size,
        first_chars-all 64 id i.size,
        id-not_blank id i,
        all_lower-is_hex id i.digits,
      )
      (lower_hex-id id i.digits)

-- The name of a manifest file gives the id back.
pub id_of_name : (id : String) → IsId id → manifest_id_from_file_name (append id ".manifest") ≡ id
unfolding manifest_id_from_file_name id_of_prefix is_hex
id_of_name id i = rw (before-id id i.digits, manifest_id_from_file_name) (id_of_own_prefix id i)
