-- ===== src/Vault/Chunker.antt =====
-- internal/vault/chunker.go: the content-defined chunker.
-- A byte is a number below 256. The reader is the list of the bytes that it yields before the end of
-- the file, and the callback collects the chunks: neither of them fails here. A size below zero is
-- refused as zero is, so a size is a natural number.
pub mod Sizes
pub mod Mask
mod Tests
use open_seavault_rclone.Shared.{
  Option, some, none, ℕ, zero, suc, ◌+◌, ◌*◌, ◌/◌, ◌%◌, ◌^◌, Bool, true, false, ◌&&◌, ◌||◌, List,
  [], ◌∷◌, ◌++◌, ◌⊎◌, inl, inr, ltb, leb, ◌==◌, if◌then◌else◌, length,
}

pub record ChunkParams : Type 0 where
  pub min_size : ℕ
  pub avg_size : ℕ
  pub max_size : ℕ

pub data ParamError : Type 0 where
  not_positive not_ordered above_cap : ParamError

abbrev pub max_cap : ℕ
max_cap = 128 * 1024 * 1024

unfoldable pub default_params : ChunkParams
default_params = record {
  min_size = 2 * 1024 * 1024;
  avg_size = 8 * 1024 * 1024;
  max_size = 16 * 1024 * 1024;
}

-- `Validate`: the error, if there is one.
unfoldable pub validate : ChunkParams → Option ParamError
validate p =
    if p.min_size == 0 || (p.avg_size == 0 || p.max_size == 0)
    then some not_positive
    else if ltb p.avg_size p.min_size || ltb p.max_size p.avg_size
    then some not_ordered
    else if ltb max_cap p.max_size
    then some above_cap
    else none

-- Bitwise exclusive or of the lowest bits.
unfoldable pub xor : ℕ → ℕ → ℕ → ℕ
xor zero a b = 0
xor (suc bits) a b = (a + b) % 2 + 2 * xor bits (a / 2) (b / 2)

abbrev pub word : ℕ
word = 2 ^ 64

abbrev pub shift_xor : ℕ → ℕ → ℕ
shift_xor z k = xor 64 z (z / 2 ^ k)

-- The entry `i` of `gearTable`: `x` has been increased `i + 1` times from its first value.
unfoldable pub gear : ℕ → ℕ
unfolding xor
gear i =
    let z = (11400714819323198485 * (i + 2)) % word in
    let z1 = (shift_xor z 30 * 13787848793156543929) % word in
    let z2 = (shift_xor z1 27 * 10723151780598845931) % word in shift_xor z2 31

-- The loop `for p < n { p <<= 1 }`, with fuel.
unfoldable pub double_until : ℕ → ℕ → ℕ → ℕ
double_until zero p n = p
double_until (suc fuel) p n = let rest = double_until fuel (2 * p) n in if ltb p n then rest else p

unfoldable pub next_power_of_two : ℕ → ℕ
unfolding double_until
next_power_of_two n = if leb n 1 then 1 else double_until 64 1 n

-- The body of the loop over the bytes, on the hash and the chunk so far: what is passed to the
-- callback, and the hash and the chunk that go on. `h & mask` is the remainder by the power of two.
unfoldable pub push : ChunkParams → ℕ → List ℕ → ℕ → List (List ℕ) × ℕ × List ℕ
push p h chunk b =
    let h' = (2 * h + gear b) % word in
    let grown = chunk ++ b ∷ [] in
    if leb p.min_size (length grown)
      && (h' % next_power_of_two p.avg_size == 0 || leb p.max_size (length grown))
    then (grown ∷ [], 0, [])
    else ([], h', grown)

-- The last chunk, if any byte is left.
abbrev pub last_chunk : List ℕ → List (List ℕ)
last_chunk [] = []
last_chunk (b ∷ bs) = (b ∷ bs) ∷ []

unfoldable pub cut : ChunkParams → ℕ → List ℕ → List ℕ → List (List ℕ)
unfolding push
cut p h chunk [] = last_chunk chunk
cut p h chunk (b ∷ bs) = let (out, h', chunk') = push p h chunk b in out ++ cut p h' chunk' bs

unfoldable pub for_each_chunk : ChunkParams → List ℕ → ParamError ⊎ List (List ℕ)
unfolding validate cut
for_each_chunk p bytes = elim (validate p) [ some e ↦ inl e | none ↦ inr (cut p 0 [] bytes) ]
